-- ===== src/Oauth/Secrets.antt =====
-- The life of a client secret in internal/service/oauth_client.go.
use lauth.Prelude.{
  ℕ, ◌<◌, ◌+◌, ◌*◌, ◌^◌, String, ◌==◌, eq_iff, eq_refl, ◌≡◌, ◌≢◌, refl, ◌∙◌, inl, inr, true, false,
  not, none, Option, some, List, [], ◌∷◌, ◌++◌, keep, ltb, if◌then◌else◌, Bool-cases, arith, All,
}
use lauth.Oauth.Token.{second}
use lauth.Oauth.Clients.{
  secret_expiry, validate_row, database_failed, ClientRow, ClientSecret, ClientTables, ClientIo,
  invalid_credentials, secret_of_other, ok, err, get_by_client_id, get_secret, validate_secret,
  use_secret, validate_client, create_client_secret, delete_client_secret,
}

-- Neither the id nor the text of a secret is in use.
abbrev pub IsFresh : String → String → ClientSecret → Type 0
IsFresh uuid secret s = (s.id ≢ uuid) × (s.secret ≢ secret)

validate_secret-fresh :
    (now : ℕ) (cid uuid secret : String) (ss rest : List ClientSecret)
    → All (IsFresh uuid secret) ss
    → validate_secret now cid secret (ss ++ rest) ≡ validate_secret now cid secret rest
unfolding validate_secret
validate_secret-fresh now cid uuid secret [] rest h = refl
validate_secret-fresh now cid uuid secret (s ∷ ss) rest h =
    let e = h.0.1 in
    let ih = validate_secret-fresh now cid uuid secret ss rest h.1 in
    ground (arith, eq_iff s.secret secret, e, ih)

validate_secret-none :
    (now : ℕ) (cid uuid secret : String) (ss : List ClientSecret)
    → All (IsFresh uuid secret) ss
    → validate_secret now cid secret ss ≡ none
unfolding validate_secret
validate_secret-none now cid uuid secret [] h = refl
validate_secret-none now cid uuid secret (s ∷ ss) h =
    let e = h.0.1 in
    ground (arith, eq_iff s.secret secret, e, validate_secret-none now cid uuid secret ss h.1)

get_secret-fresh :
    (uuid secret : String) (ss rest : List ClientSecret)
    → All (IsFresh uuid secret) ss
    → get_secret uuid (ss ++ rest) ≡ get_secret uuid rest
unfolding get_secret
get_secret-fresh uuid secret [] rest h = refl
get_secret-fresh uuid secret (s ∷ ss) rest h =
    let e = h.0.0 in ground (arith, eq_iff s.id uuid, e, get_secret-fresh uuid secret ss rest h.1)

keep-fresh :
    (uuid secret : String) (row : ClientSecret) (ss : List ClientSecret)
    → row.id ≡ uuid
    → All (IsFresh uuid secret) ss
    → keep (λ x. not (x.id == uuid)) (ss ++ row ∷ []) ≡ ss
unfolding keep
keep-fresh uuid secret row [] same h = simp (same, eq_refl uuid)
keep-fresh uuid secret row (s ∷ ss) same h =
    let e = h.0.0 in ground (arith, eq_iff s.id uuid, e, keep-fresh uuid secret row ss same h.1)

-- The database and the random source work.
abbrev pub Answers : ClientIo → Type 0
Answers io = (io.client_ok ≡ true) × (io.secret_ok ≡ true) × (io.write_ok ≡ true)

-- The row that CreateClientSecret adds.
abbrev pub new_secret : ℕ → String → String → String → ℕ → String → ClientSecret
new_secret now uuid cid description expires_in secret = record {
  id = uuid;
  client_id = cid;
  secret = secret;
  description = description;
  last_used_at = now;
  expires_at = secret_expiry now expires_in;
  created_at = now;
}

create_client_secret-adds :
    (io : ClientIo) (now expires_in : ℕ) (uuid cid description secret : String) (r : ClientRow)
    (t : ClientTables)
    → Answers io
    → get_by_client_id cid t.clients ≡ some r
    → create_client_secret io now uuid cid description expires_in (some secret) t ≡ (
      none,
      record t {
        secrets = t.secrets ++ new_secret now uuid cid description expires_in secret ∷ [];
      },
    )
unfolding create_client_secret
create_client_secret-adds io now expires_in uuid cid description secret r t (a, b, c) found =
    simp (a, found, c)

use_secret-ok :
    (io : ClientIo) (now : ℕ) (r : ClientRow) (s : ClientSecret) (t : ClientTables)
    → (use_secret io now r (some s) t).0 ≡ ok r
use_secret-ok io now r s t = ground arith

module _ (io : ClientIo) (cid : String) (r : ClientRow) (t : ClientTables) (answers : Answers io)
    (found : get_by_client_id cid t.clients ≡ some r) (on : r.client.status ≡ true) where
  -- With a client that is enabled, only the secrets decide.
  validate_client-secrets :
      (now : ℕ) (secret : String) (ss : List ClientSecret)
      → validate_client io now cid secret (record t { secrets = ss })
        ≡ use_secret io now r (validate_secret now cid secret ss) (record t { secrets = ss })
  unfolding validate_client
  validate_client-secrets now secret ss = simp (answers.0, found, on, answers.1)

  validate_client-refuses :
      (now : ℕ) (secret : String) (ss : List ClientSecret)
      → validate_secret now cid secret ss ≡ none
      → (validate_client io now cid secret (record t { secrets = ss })).0 ≡ err invalid_credentials
  validate_client-refuses now secret ss h = rw (validate_client-secrets now secret ss, h) refl

  validate_client-accepts :
      (now : ℕ) (secret : String) (ss : List ClientSecret) (s : ClientSecret)
      → validate_secret now cid secret ss ≡ some s
      → (validate_client io now cid secret (record t { secrets = ss })).0 ≡ ok r
  validate_client-accepts now secret ss s h =
      rw (validate_client-secrets now secret ss, h) (use_secret-ok io now r s _)

delete_client_secret-last :
    (io : ClientIo) (cid uuid secret : String) (row : ClientSecret) (t : ClientTables)
    → Answers io
    → row.id ≡ uuid
    → All (IsFresh uuid secret) t.secrets
    → delete_client_secret io cid uuid (record t { secrets = t.secrets ++ row ∷ [] }) ≡ (
        if not (row.client_id == cid)
        then (some secret_of_other, record t { secrets = t.secrets ++ row ∷ [] })
        else (none, t))
unfolding delete_client_secret get_secret
delete_client_secret-last io cid uuid secret row t answers same fresh = simp (
  answers.1,
  answers.2,
  get_secret-fresh uuid secret t.secrets (row ∷ []) fresh,
  same,
  eq_refl uuid,
  keep-fresh uuid secret row t.secrets same fresh,
)

-- Below 2^63 nanoseconds nothing wraps around.
secret_expiry-short :
    (now expires_in : ℕ)
    → expires_in * second < 2 ^ 63
    → secret_expiry now expires_in ≡ now + expires_in * second
unfolding secret_expiry
secret_expiry-short now expires_in short = ground arith

-- A text that no row has lets nobody in.
nobody :
    (io : ClientIo) (later : ℕ) (who secret : String) (t : ClientTables) (r : ClientRow)
    → validate_secret later who secret t.secrets ≡ none
    → (validate_client io later who secret t).0 ≢ ok r
unfolding validate_client
nobody io later who secret t r unknown = by_row (get_by_client_id who t.clients)
  where
    by_row :
        (o : Option ClientRow)
        → (if io.client_ok
            then validate_row io later who secret o t
            else (err database_failed, t)).0
          ≢ ok r
    by_row none h = ground (arith, h)
    by_row (some c) h = ground (arith, unknown, h)

-- A secret that CreateClientSecret makes for an enabled client, with a text and an id that are not
-- in use and a life below 2^63 nanoseconds, where the database answers: it lets the client in until
-- that many seconds have passed and not from then on; another client cannot delete it; and once its
-- own client has deleted it, it lets nobody in, as any client and at any time.
pub create_client_secret-validate_client :
    (io : ClientIo) (now later expires_in : ℕ) (uuid cid other who description secret : String)
    (r r' : ClientRow) (t : ClientTables)
    → Answers io
    → get_by_client_id cid t.clients ≡ some r
    → r.client.status ≡ true
    → All (IsFresh uuid secret) t.secrets
    → other ≢ cid
    → expires_in * second < 2 ^ 63
    → let a = create_client_secret io now uuid cid description expires_in (some secret) t in
      let d = delete_client_secret io cid uuid a.1 in
      (a.0 ≡ none)
      × ((validate_client io later cid secret a.1).0
          ≡ (if ltb later (now + expires_in * second) then ok r else err invalid_credentials))
      × (delete_client_secret io other uuid a.1 ≡ (some secret_of_other, a.1))
      × (d.0 ≡ none)
      × ((validate_client io later who secret d.1).0 ≢ ok r')
unfolding validate_secret
create_client_secret-validate_client io now later expires_in uuid cid other who description secret r
      r' t answers found on fresh differs short =
    let row = new_secret now uuid cid description expires_in secret in
    let ends = secret_expiry-short now expires_in short in
    let ne : (cid == other) ≡ false = ground (arith, eq_iff cid other, differs) in
    let last = validate_secret-fresh later cid uuid secret t.secrets (row ∷ []) fresh in
    let dropped : delete_client_secret io cid uuid (record t { secrets = t.secrets ++ row ∷ [] })
        ≡ (none, t) =
      delete_client_secret-last io cid uuid secret row t answers refl fresh ∙ simp (eq_refl cid) in
    rw
      (
        create_client_secret-adds io now expires_in uuid cid description secret r t answers found,
        dropped,
      )
      (
        refl,
        elim (Bool-cases (ltb later (now + expires_in * second))) [
          | inl soon ↦ simp soon (
              validate_client-accepts io cid r t answers found on later secret _ row
                (last ∙ simp (eq_refl cid, eq_refl secret, ends, soon) refl))
          | inr late ↦ simp late (
              validate_client-refuses io cid r t answers found on later secret _
                (last ∙ simp (eq_refl cid, eq_refl secret, ends, late) refl))
        ],
        delete_client_secret-last io other uuid secret row t answers refl fresh ∙ simp ne,
        refl,
        nobody io later who secret t r'
            (validate_secret-none later who uuid secret t.secrets fresh),
      )
