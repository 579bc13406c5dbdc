-- ===== src/Oauth/Revoked.antt =====
-- Which tokens internal/service/token.go still accepts after it has revoked or refreshed one.
use lauth.Prelude.{
  ℕ, ◌+◌, ◌*◌, ◌<◌, String, ◌==◌, eq_iff, ◌≡◌, ◌≢◌, refl, ◌∙◌, inl, inr, Option, none, some, List,
  [], ◌∷◌, arith, Bool-cases, text-cases,
}
use lauth.Prelude.Dict.{Dict, lookup, insert, lookup-insert, lookup-erase}
use lauth.Oauth.Token.{
  Entry, RedisIo, TokenType, access_token, refresh_token, type_text, TokenClaims, TokenService,
  TokenResult, ok, err, second, refresh_key, revoked_key, generate_token, store_pair, claims_for,
  generate_token_pair, validate_claims, validate_token, refresh_stored, refresh_valid, refresh,
  expiry_of, drop_stored, revoke_valid, revoke,
}
use lauth.Oauth.Keys.{refresh_key-revoked_key, revoked_key_inj}

module _ (s : TokenService) where
  pub store_pair-keeps :
      (token : String) (now : ℕ) (io : RedisIo) (user : String) (a b : Option String)
      (r : Dict Entry)
      → lookup (revoked_key token) (store_pair s now io user a b r).1 ≡ lookup (revoked_key token) r
  store_pair-keeps token now io user none b r = refl
  store_pair-keeps token now io user (some a) none r = refl
  store_pair-keeps token now io user (some a) (some b) r = ground (
    arith,
    lookup-insert (revoked_key token) (refresh_key user)
        (record { value = b; expires = now + s.refresh_expiry }) r,
    eq_iff (refresh_key user) (revoked_key token),
    refresh_key-revoked_key user token,
  )

  refresh_stored-keeps :
      (token : String) (now : ℕ) (io : RedisIo) (t : String) (c : TokenClaims) (o : Option String)
      (r : Dict Entry)
      → lookup (revoked_key token) (refresh_stored s now io t c o r).1
        ≡ lookup (revoked_key token) r
  unfolding generate_token_pair
  refresh_stored-keeps token now io t c none r = refl
  refresh_stored-keeps token now io t c (some stored) r =
      let pair =
        store_pair-keeps token now io c.user_id
          (generate_token s (claims_for c.user_id c.app_id c.username access_token c.scope)
            s.access_expiry now)
          (generate_token s (claims_for c.user_id c.app_id c.username refresh_token c.scope)
            s.refresh_expiry now)
          r in
      elim (Bool-cases io.get_ok) [
        | inl e ↦ elim (Bool-cases (stored == t)) [ inl f ↦ simp (e, f) pair | inr f ↦ simp (e, f) ]
        | inr e ↦ simp e
      ]

  refresh_valid-keeps :
      (token : String) (now : ℕ) (io : RedisIo) (t : String) (v : TokenResult TokenClaims)
      (r : Dict Entry)
      → lookup (revoked_key token) (refresh_valid s now io t v r).1 ≡ lookup (revoked_key token) r
  refresh_valid-keeps token now io t (err e) r = refl
  refresh_valid-keeps token now io t (ok c) r = refresh_stored-keeps token now io t c _ r

  drop_stored-keeps :
      (token : String) (io : RedisIo) (type : TokenType) (c : TokenClaims) (r : Dict Entry)
      → lookup (revoked_key token) (drop_stored s io type c r).1 ≡ lookup (revoked_key token) r
  drop_stored-keeps token io access_token c r = refl
  drop_stored-keeps token io refresh_token c r = ground (
    arith,
    lookup-erase (revoked_key token) (refresh_key c.user_id) r,
    eq_iff (refresh_key c.user_id) (revoked_key token),
    refresh_key-revoked_key c.user_id token,
  )

  revoke_valid-keeps :
      (token : String) (now : ℕ) (io : RedisIo) (t : String) (type : TokenType)
      (v : TokenResult TokenClaims) (r : Dict Entry)
      → t ≢ token
      → lookup (revoked_key token) (revoke_valid s now io t type v r).1
        ≡ lookup (revoked_key token) r
  revoke_valid-keeps token now io t type (err e) r ne = refl
  revoke_valid-keeps token now io t type (ok c) r ne =
      let entry : Entry = record { value = "revoked"; expires = now + expiry_of s type } in
      ground (
        arith,
        drop_stored-keeps token io type c (insert (revoked_key t) entry r),
        lookup-insert (revoked_key token) (revoked_key t) entry r,
        eq_iff (revoked_key t) (revoked_key token),
        revoked_key_inj t token,
      )

-- A call of the service.
pub data Call : Type 0 where
  issue_call : ℕ → RedisIo → String → String → String → String → Call
  refresh_call : ℕ → RedisIo → String → Call
  revoke_call : ℕ → RedisIo → String → TokenType → Call

module _ (s : TokenService) where
  unfoldable pub run_call : Call → Dict Entry → Dict Entry
  run_call (issue_call now io user app username scope) r =
      (generate_token_pair s now io user app username scope r).1
  run_call (refresh_call now io t) r = (refresh s now io t r).1
  run_call (revoke_call now io t type) r = (revoke s now io t type r).1

  abbrev pub run_calls : List Call → Dict Entry → Dict Entry
  run_calls [] r = r
  run_calls (c ∷ cs) r = run_calls cs (run_call c r)

  -- A token that is listed as revoked until after it expires is not valid at any time.
  listed :
      (later : ℕ) (io : RedisIo) (token : String) (type : TokenType) (r : Dict Entry) (e : Entry)
      (o : Option TokenClaims) (c : TokenClaims)
      → lookup (revoked_key token) r ≡ some e
      → ((d : TokenClaims) → o ≡ some d → d.exp * second < e.expires)
      → validate_claims later io token type o r ≢ ok c
  listed later io token type r e none c found bound h = cc
  listed later io token type r e (some d) c found bound h =
      let b = bound d refl in ground (arith, eq_iff d.kind (type_text type))

  revoke_refused :
      (now : ℕ) (io : RedisIo) (t : String) (type : TokenType) (v : TokenResult TokenClaims)
      (r : Dict Entry)
      → ((c : TokenClaims) → v ≢ ok c)
      → (revoke_valid s now io t type v r).1 ≡ r
  revoke_refused now io t type (err e) r h = refl
  revoke_refused now io t type (ok c) r h = absurd (h c refl)

  module _ (token : String) (e : Entry)
      (bound : (n : ℕ) (d : TokenClaims)
        → s.jwt.parse n token ≡ some d
        → d.exp * second < e.expires) where
    -- A listed token cannot be revoked again, so that its place in the list stays.
    revoke-keeps :
        (now : ℕ) (io : RedisIo) (t : String) (type : TokenType) (r : Dict Entry)
        → lookup (revoked_key token) r ≡ some e
        → lookup (revoked_key token) (revoke s now io t type r).1 ≡ some e
    unfolding revoke validate_token
    revoke-keeps now io t type r h = elim (text-cases t token) [
      | inl same ↦
          rw
            (
              same,
              revoke_refused now io token type (validate_token s now io token type r) r
                  (λ c. listed now io token type r e (s.jwt.parse now token) c h (bound now)),
            )
            h
      | inr other ↦
          revoke_valid-keeps s token now io t type (validate_token s now io t type r) r other.0 ∙ h
    ]

    run_call-keeps :
        (c : Call) (r : Dict Entry)
        → lookup (revoked_key token) r ≡ some e
        → lookup (revoked_key token) (run_call c r) ≡ some e
    unfolding run_call generate_token_pair refresh
    run_call-keeps (issue_call now io user app username scope) r h =
        store_pair-keeps s token now io user _ _ r ∙ h
    run_call-keeps (refresh_call now io t) r h = refresh_valid-keeps s token now io t _ r ∙ h
    run_call-keeps (revoke_call now io t type) r h = revoke-keeps now io t type r h

    run_calls-keeps :
        (cs : List Call) (r : Dict Entry)
        → lookup (revoked_key token) r ≡ some e
        → lookup (revoked_key token) (run_calls cs r) ≡ some e
    run_calls-keeps [] r h = h
    run_calls-keeps (c ∷ cs) r h = run_calls-keeps cs (run_call c r) (run_call-keeps c r h)

  revoke-lists :
      (now : ℕ) (io : RedisIo) (token : String) (type : TokenType) (v : TokenResult TokenClaims)
      (r : Dict Entry)
      → (revoke_valid s now io token type v r).0 ≡ ok tt
      → lookup (revoked_key token) (revoke_valid s now io token type v r).1
        ≡ some (record { value = "revoked"; expires = now + expiry_of s type })
  revoke-lists now io token type (err e) r h = cc
  revoke-lists now io token type (ok c) r h =
      let entry : Entry = record { value = "revoked"; expires = now + expiry_of s type } in
      ground (
        arith,
        drop_stored-keeps s token io type c (insert (revoked_key token) entry r),
        lookup-insert (revoked_key token) (revoked_key token) entry r,
        eq_iff (revoked_key token) (revoked_key token),
      )

  -- A token that has been revoked is never valid again, at any time and as any type, whatever is
  -- issued, refreshed or revoked in between, the token itself included: the token was issued
  -- before the revocation, so that it expires before its place in the list does.
  pub revoked_never_valid :
      (now later : ℕ) (io io' : RedisIo) (token : String) (type type' : TokenType) (cs : List Call)
      (r : Dict Entry) (c : TokenClaims)
      → ((n : ℕ) (d : TokenClaims)
          → s.jwt.parse n token ≡ some d
          → d.exp * second < now + expiry_of s type)
      → (revoke s now io token type r).0 ≡ ok tt
      → validate_token s later io' token type' (run_calls cs (revoke s now io token type r).1)
        ≢ ok c
  unfolding revoke validate_token
  revoked_never_valid now later io io' token type type' cs r c bound done =
      let v = validate_token s now io token type r in
      let entry : Entry = record { value = "revoked"; expires = now + expiry_of s type } in
      let r1 = (revoke_valid s now io token type v r).1 in
      listed later io' token type' (run_calls cs r1) entry (s.jwt.parse later token) c
        (run_calls-keeps token entry bound cs r1 (revoke-lists now io token type v r done))
        (bound later)
