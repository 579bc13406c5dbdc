-- ===== src/Oauth/Stored.antt =====
-- Which refresh token Redis stores for a user, by internal/service/token.go.
use lauth.Prelude.{
  ℕ, ◌+◌, String, ◌==◌, eq_iff, ◌≡◌, ◌≢◌, refl, sym, ap, ◌∙◌, inl, inr, Option, none, some, List,
  [], ◌∷◌, All, arith, Bool-cases,
}
use lauth.Prelude.Dict.{Dict, lookup, insert, erase, lookup-insert, lookup-erase}
use lauth.Oauth.Keys.{refresh_key-revoked_key}
use lauth.Oauth.Token.{
  Entry, RedisIo, live, TokenType, access_token, refresh_token, TokenClaims, TokenService,
  TokenResult, ok, err, refresh_key, revoked_key, generate_token, store_pair, claims_for,
  generate_token_pair, validate_token, refresh_stored, refresh_valid, refresh, revoke_valid, revoke,
}
use lauth.Oauth.Revoked.{Call, issue_call, refresh_call, revoke_call, run_call, run_calls}

pub live_gone :
    (later : ℕ) (token : String) (o : Option Entry)
    → ((e : Entry) → o ≡ some e → e.value ≢ token)
    → live later o ≢ some token
live_gone later token none gone h = cc h
live_gone later token (some e) gone h = let other = gone e refl in ground (arith, other, h)

abbrev value_of : Option Entry → String
value_of none = ""
value_of (some e) = e.value

pub same_value :
    (token : String) (new e : Entry) → some new ≡ some e → new.value ≢ token → e.value ≢ token
same_value token new e k other q = other (ap value_of k ∙ q)

-- The user's stored refresh token is not the token.
abbrev pub Gone : String → String → Dict Entry → Type 0
Gone token user r = (e : Entry) → lookup (refresh_key user) r ≡ some e → e.value ≢ token

insert-Gone :
    (token user key : String) (new : Entry) (r : Dict Entry)
    → new.value ≢ token
    → Gone token user r
    → Gone token user (insert key new r)
insert-Gone token user key new r other gone e h = elim (Bool-cases (key == refresh_key user)) [
  | inl same ↦
      let k : some new ≡ some e =
        sym (lookup-insert (refresh_key user) key new r ∙ simp same refl) ∙ h in
      same_value token new e k other
  | inr differs ↦ gone e (sym (lookup-insert (refresh_key user) key new r ∙ simp differs refl) ∙ h)
]

listed-Gone :
    (token user t : String) (new : Entry) (r : Dict Entry)
    → Gone token user r
    → Gone token user (insert (revoked_key t) new r)
listed-Gone token user t new r gone e h = gone e (other_key ∙ h)
  where
    other_key :
        lookup (refresh_key user) r ≡ lookup (refresh_key user) (insert (revoked_key t) new r)
    other_key = ground (
      arith,
      lookup-insert (refresh_key user) (revoked_key t) new r,
      eq_iff (revoked_key t) (refresh_key user),
      refresh_key-revoked_key user t,
    )

erase-Gone :
    (token user key : String) (r : Dict Entry) → Gone token user r → Gone token user (erase key r)
erase-Gone token user key r gone e h = elim (Bool-cases (key == refresh_key user)) [
  | inl same ↦
      let k : none ≡ some e = sym (lookup-erase (refresh_key user) key r ∙ simp same refl) ∙ h in
      cc k
  | inr differs ↦ gone e (sym (lookup-erase (refresh_key user) key r ∙ simp differs refl) ∙ h)
]

module _ (s : TokenService) where
  store_pair-Gone :
      (token user : String) (now : ℕ) (io : RedisIo) (u : String) (a b : Option String)
      (r : Dict Entry)
      → b ≢ some token
      → Gone token user r
      → Gone token user (store_pair s now io u a b r).1
  store_pair-Gone token user now io u none b r other gone = gone
  store_pair-Gone token user now io u (some a) none r other gone = gone
  store_pair-Gone token user now io u (some a) (some b) r other gone = elim (Bool-cases io.set_ok) [
    | inl e ↦ simp e (
        insert-Gone token user (refresh_key u)
          (record { value = b; expires = now + s.refresh_expiry }) r (λ k. other (ap some k)) gone)
    | inr e ↦ simp e gone
  ]

  -- The call signs no refresh token with the text of the token, whatever the claims.
  abbrev pub SignsOther : String → Call → Type 0
  SignsOther token (issue_call now io user app username scope) =
      (d : TokenClaims) → generate_token s d s.refresh_expiry now ≢ some token
  SignsOther token (refresh_call now io t) =
      (d : TokenClaims) → generate_token s d s.refresh_expiry now ≢ some token
  SignsOther token (revoke_call now io t type) = Unit

  refresh_stored-Gone :
      (token user : String) (now : ℕ) (io : RedisIo) (t : String) (c : TokenClaims)
      (o : Option String) (r : Dict Entry)
      → ((d : TokenClaims) → generate_token s d s.refresh_expiry now ≢ some token)
      → Gone token user r
      → Gone token user (refresh_stored s now io t c o r).1
  unfolding generate_token_pair
  refresh_stored-Gone token user now io t c none r other gone = gone
  refresh_stored-Gone token user now io t c (some stored) r other gone =
      elim (Bool-cases io.get_ok) [
        | inr e ↦ simp e gone
        | inl e ↦ elim (Bool-cases (stored == t)) [
          | inr f ↦ simp (e, f) gone
          | inl f ↦
              simp (e, f)
                (store_pair-Gone token user now io c.user_id _ _ r
                  (other (claims_for c.user_id c.app_id c.username refresh_token c.scope)) gone)
        ]
      ]

  refresh_valid-Gone :
      (token user : String) (now : ℕ) (io : RedisIo) (t : String) (v : TokenResult TokenClaims)
      (r : Dict Entry)
      → ((d : TokenClaims) → generate_token s d s.refresh_expiry now ≢ some token)
      → Gone token user r
      → Gone token user (refresh_valid s now io t v r).1
  refresh_valid-Gone token user now io t (err e) r other gone = gone
  refresh_valid-Gone token user now io t (ok c) r other gone =
      refresh_stored-Gone token user now io t c _ r other gone

  revoke_valid-Gone :
      (token user : String) (now : ℕ) (io : RedisIo) (t : String) (type : TokenType)
      (v : TokenResult TokenClaims) (r : Dict Entry)
      → Gone token user r
      → Gone token user (revoke_valid s now io t type v r).1
  revoke_valid-Gone token user now io t type (err e) r gone = gone
  revoke_valid-Gone token user now io t access_token (ok c) r gone = elim (Bool-cases io.set_ok) [
    | inr e ↦ simp e gone
    | inl e ↦ simp e (listed-Gone token user t _ r gone)
  ]
  revoke_valid-Gone token user now io t refresh_token (ok c) r gone = elim (Bool-cases io.set_ok) [
    | inr e ↦ simp e gone
    | inl e ↦ elim (Bool-cases io.del_ok) [
      | inr f ↦ simp (e, f) (listed-Gone token user t _ r gone)
      | inl f ↦
          simp (e, f)
            (erase-Gone token user (refresh_key c.user_id) _ (listed-Gone token user t _ r gone))
    ]
  ]

  pub run_calls-Gone :
      (token user : String) (cs : List Call) (r : Dict Entry)
      → All (SignsOther token) cs
      → Gone token user r
      → Gone token user (run_calls s cs r)
  unfolding run_call generate_token_pair refresh revoke
  run_calls-Gone token user [] r other gone = gone
  run_calls-Gone token user (issue_call now io u app username scope ∷ cs) r other gone =
      run_calls-Gone token user cs _ other.1 (
        store_pair-Gone token user now io u _ _ r
          (other.0 (claims_for u app username refresh_token scope)) gone)
  run_calls-Gone token user (refresh_call now io t ∷ cs) r other gone =
      run_calls-Gone token user cs _ other.1 (
        refresh_valid-Gone token user now io t (validate_token s now io t refresh_token r) r other.0
          gone)
  run_calls-Gone token user (revoke_call now io t type ∷ cs) r other gone =
      run_calls-Gone token user cs _ other.1
        (revoke_valid-Gone token user now io t type (validate_token s now io t type r) r gone)
