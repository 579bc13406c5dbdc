-- ===== src/Accounts/SignedOut.antt =====
-- What Logout and RefreshToken of internal/service/auth_token.go leave valid.
use lauth.Prelude.{
  ℕ, ◌*◌, ◌+◌, ◌<◌, String, ◌==◌, ◌≡◌, ◌≢◌, refl, inl, inr, not, ◌&&◌, Option, none, some, List, [],
  ◌∷◌, ◌++◌, if◌then◌else◌, Bool-cases,
}
use lauth.Prelude.Dict.{Dict, lookup}
use lauth.Accounts.Tokens.{
  TokenUserInfo, user_info, validate_token_and_get_user, revoke_stored, sign_out, logout_valid,
  logout,
}
use lauth.Oauth.Token.{
  Entry, RedisIo, live, access_token, refresh_token, TokenClaims, TokenService, TokenResult, ok,
  err, second, refresh_key, validate_token, revoke, expiry_of,
}
use lauth.Oauth.Revoked.{Call, revoke_call, run_call, run_calls, revoked_never_valid}

module _ (s : TokenService) where
  -- The calls that a logout makes after the access token has been revoked.
  abbrev stored_calls : ℕ → RedisIo → Option String → List Call
  stored_calls now io none = []
  stored_calls now io (some stored) =
      if io.get_ok && not (stored == "") then revoke_call now io stored refresh_token ∷ [] else []

  revoke_stored-run_calls :
      (now : ℕ) (io : RedisIo) (o : Option String) (r : Dict Entry)
      → revoke_stored s now io o r ≡ run_calls s (stored_calls now io o) r
  unfolding run_call
  revoke_stored-run_calls now io none r = refl
  revoke_stored-run_calls now io (some stored) r =
      elim (Bool-cases (io.get_ok && not (stored == ""))) [ inl e ↦ simp e | inr e ↦ simp e ]

  run_calls-append :
      (cs ds : List Call) (r : Dict Entry)
      → run_calls s ds (run_calls s cs r) ≡ run_calls s (cs ++ ds) r
  run_calls-append [] ds r = refl
  run_calls-append (c ∷ cs) ds r = run_calls-append cs ds (run_call s c r)

  -- A logout that works has revoked the token, and then made at most one call more.
  sign_out-run_calls :
      (now : ℕ) (io : RedisIo) (c : TokenClaims) (x : TokenResult Unit × Dict Entry)
      → (sign_out s now io c x).0 ≡ ok tt
      → (ds : List Call) × (x.0 ≡ ok tt) × ((sign_out s now io c x).1 ≡ run_calls s ds x.1)
  sign_out-run_calls now io c (err e, r) h = cc h
  sign_out-run_calls now io c (ok tt, r) h =
      let o = live now (lookup (refresh_key c.user_id) r) in
      (stored_calls now io o, refl, revoke_stored-run_calls now io o r)

  user_info-none :
      (v : TokenResult TokenClaims) (info : TokenUserInfo)
      → ((c : TokenClaims) → v ≢ ok c)
      → user_info v ≢ ok info
  user_info-none (err e) info none_ok h = cc h
  user_info-none (ok c) info none_ok h = none_ok c refl

  -- After a Logout that answers no error the access token belongs to nobody: whatever is issued,
  -- refreshed or revoked later, the token itself included, ValidateTokenAndGetUser refuses it at
  -- any time. The token was issued before the logout, so that it expires before its place in the
  -- list of revoked tokens does.
  pub logout-refused :
      (now later : ℕ) (io dropping io' : RedisIo) (token : String) (cs : List Call) (r : Dict Entry)
      (info : TokenUserInfo)
      → ((n : ℕ) (d : TokenClaims)
          → s.jwt.parse n token ≡ some d
          → d.exp * second < now + expiry_of s access_token)
      → (logout s now io dropping token r).0 ≡ ok tt
      → validate_token_and_get_user s later io' token
          (run_calls s cs (logout s now io dropping token r).1)
        ≢ ok info
  unfolding logout validate_token_and_get_user
  logout-refused now later io dropping io' token cs r info bound done =
      by_valid (validate_token s now io token access_token r) done
    where
      by_valid :
          (v : TokenResult TokenClaims)
          → (logout_valid s now io dropping token v r).0 ≡ ok tt
          → user_info (
              validate_token s later io' token access_token
                (run_calls s cs (logout_valid s now io dropping token v r).1))
            ≢ ok info
      by_valid (err e) h = absurd (cc h)
      by_valid (ok c) h =
          let (ds, revoked, state) =
            sign_out-run_calls now dropping c (revoke s now io token access_token r) h in
          user_info-none _ info λ d.
            rw (state, run_calls-append ds cs (revoke s now io token access_token r).1)
              (revoked_never_valid s now later io io' token access_token access_token (ds ++ cs) r d
                bound revoked)
