-- ===== src/Oauth/Refresh.antt =====
-- What internal/service/token.go issues and refreshes.
use lauth.Prelude.{
  ℕ, ◌+◌, ◌*◌, ◌/◌, String, ◌==◌, eq_iff, eq_refl, ◌≡◌, ◌≢◌, refl, sym, ap, ◌∙◌, inl, inr, Option,
  none, some, List, All, arith, Bool-cases,
}
use lauth.Prelude.Dict.{Dict, lookup, insert, lookup-insert}
use lauth.Oauth.Stored.{live_gone, same_value, Gone, SignsOther, run_calls-Gone}
use lauth.Oauth.Revoked.{Call, run_calls}
use lauth.Oauth.Token.{
  Entry, RedisIo, live, TokenType, refresh_token, TokenClaims, TokenService, TokenPair, TokenResult,
  ok, err, second, refresh_key, store_pair, claims_for, generate_token_pair, validate_claims,
  validate_token, refresh_stored, refresh_valid, refresh,
}

validate-user :
    (now : ℕ) (io : RedisIo) (token : String) (type : TokenType) (o : Option TokenClaims)
    (r : Dict Entry) (c : TokenClaims)
    → validate_claims now io token type o r ≡ ok c
    → (d : TokenClaims) × (o ≡ some d) × (d.user_id ≡ c.user_id)
validate-user now io token type none r c h = cc
validate-user now io token type (some d) r c h = (d, refl, ground arith)

-- The claims that a valid token of the kind gives back.
abbrev pub claims_until : String → String → String → TokenType → String → ℕ → TokenClaims
claims_until user app username kind scope expires =
    record (claims_for user app username kind scope) {
      exp = expires / second;
      expires_at = expires / second * second;
    }

module _ (s : TokenService) where
  pub store_pair-ok :
      (now : ℕ) (io : RedisIo) (user : String) (a b : Option String) (r : Dict Entry)
      (p : TokenPair)
      → (store_pair s now io user a b r).0 ≡ ok p
      → (a ≡ some p.access)
        × (b ≡ some p.refresh)
        × ((store_pair s now io user a b r).1
            ≡ insert
                (refresh_key user)
                (record { value = p.refresh; expires = now + s.refresh_expiry })
                r)
  store_pair-ok now io user none b r p h = cc
  store_pair-ok now io user (some a) none r p h = cc
  store_pair-ok now io user (some a) (some b) r p h = elim (Bool-cases io.set_ok) [
    | inl e ↦ let k = simp e at h in (cc k, cc k, simp e (cc k))
    | inr e ↦ cc (simp e at h)
  ]

  refresh_stored-ok :
      (now : ℕ) (io : RedisIo) (token : String) (c : TokenClaims) (o : Option String)
      (r : Dict Entry) (p : TokenPair)
      → (refresh_stored s now io token c o r).0 ≡ ok p
      → (o ≡ some token)
        × ((refresh_stored s now io token c o r).1
            ≡ insert
                (refresh_key c.user_id)
                (record { value = p.refresh; expires = now + s.refresh_expiry })
                r)
  unfolding generate_token_pair
  refresh_stored-ok now io token c none r p h = cc
  refresh_stored-ok now io token c (some stored) r p h = elim (Bool-cases io.get_ok) [
    | inl e ↦ elim (Bool-cases (stored == token)) [
      | inl f ↦ (
        ap some ((eq_iff stored token).0 f),
        simp (e, f) (store_pair-ok now io c.user_id _ _ r p (simp (e, f) at h)).2,
      )
      | inr f ↦ cc (simp (e, f) at h)
    ]
    | inr e ↦ cc (simp e at h)
  ]

  refresh_valid-ok :
      (now : ℕ) (io : RedisIo) (token : String) (v : TokenResult TokenClaims) (r : Dict Entry)
      (p : TokenPair)
      → (refresh_valid s now io token v r).0 ≡ ok p
      → (c : TokenClaims) × (v ≡ ok c)
        × (live now (lookup (refresh_key c.user_id) r) ≡ some token)
        × ((refresh_valid s now io token v r).1
            ≡ insert
                (refresh_key c.user_id)
                (record { value = p.refresh; expires = now + s.refresh_expiry })
                r)
  refresh_valid-ok now io token (err e) r p h = cc
  refresh_valid-ok now io token (ok c) r p h =
      let (here, new) =
        refresh_stored-ok now io token c (live now (lookup (refresh_key c.user_id) r)) r p h in
      (c, refl, here, new)

  refused :
      (later : ℕ) (io : RedisIo) (token : String) (v : TokenResult TokenClaims) (r : Dict Entry)
      (q : TokenPair)
      → ((c : TokenClaims) → v ≡ ok c → Gone token c.user_id r)
      → (refresh_valid s later io token v r).0 ≢ ok q
  refused later io token v r q gone again =
      let (d, vd, is, _) = refresh_valid-ok later io token v r q again in
      live_gone later token (lookup (refresh_key d.user_id) r) (gone d vd) is

  -- A refresh token works once: when a refresh has given a pair with another refresh token, the
  -- old one gives no pair at any later time, whatever is issued, refreshed or revoked in between.
  -- The calls in between sign no refresh token with the same text, as one that is signed in the
  -- same second for the same claims would have, and the user of a token is the same each time it
  -- is parsed.
  pub refreshed_once :
      (now later : ℕ) (io io' : RedisIo) (token : String) (cs : List Call) (r : Dict Entry)
      (p q : TokenPair)
      → ((n m : ℕ) (c d : TokenClaims)
          → s.jwt.parse n token ≡ some c
          → s.jwt.parse m token ≡ some d
          → c.user_id ≡ d.user_id)
      → (refresh s now io token r).0 ≡ ok p
      → p.refresh ≢ token
      → All (SignsOther s token) cs
      → (refresh s later io' token (run_calls s cs (refresh s now io token r).1)).0 ≢ ok q
  unfolding refresh validate_token
  refreshed_once now later io io' token cs r p q same_user h ne others =
      let v = validate_token s now io token refresh_token r in
      let r1 = (refresh_valid s now io token v r).1 in
      let r2 = run_calls s cs r1 in
      let (c, vc, was, new) = refresh_valid-ok now io token v r p h in
      let (c0, pc, uc) = validate-user now io token refresh_token (s.jwt.parse now token) r c vc in
      let entry : Entry = record { value = p.refresh; expires = now + s.refresh_expiry } in
      let at_once : Gone token c.user_id r1 = rw new (λ e k.
        let same : some entry ≡ some e =
          sym (
            lookup-insert (refresh_key c.user_id) (refresh_key c.user_id) entry r
            ∙ simp (eq_refl (refresh_key c.user_id)) refl)
          ∙ k in
        same_value token entry e same ne) in
      let after = run_calls-Gone s token c.user_id cs r1 others at_once in
      refused later io' token (validate_token s later io' token refresh_token r2) r2 q (λ d vd.
        let (d0, pd, ud) =
          validate-user later io' token refresh_token (s.jwt.parse later token) r2 d vd in
        let user : c.user_id ≡ d.user_id = sym uc ∙ same_user now later c0 d0 pc pd ∙ ud in
        rw (sym user) after)
