-- ===== src/Oauth/Clients.antt =====
-- internal/service/oauth_client.go over the tables of internal/repository/oauth_client.go and
-- oauth_client_secret.go: the clients and their secrets.
use lauth.Prelude.{
  ℕ, ◌+◌, ◌-◌, ◌*◌, ◌%◌, ◌^◌, String, ◌==◌, Bool, true, not, ◌&&◌, Option, none, some, List, [],
  ◌∷◌, ◌++◌, keep, ltb, if◌then◌else◌,
}
use lauth.Oauth.Client.{OauthClient}
use lauth.Oauth.Token.{second}

-- OAuthClient with its id in the table, its name and its type.
pub record ClientRow : Type 0 where
  pub id : String
  pub name : String
  pub kind : String
  pub client : OauthClient

-- OAuthClientSecret
pub record ClientSecret : Type 0 where
  pub id : String
  pub client_id : String
  pub secret : String
  pub description : String
  pub last_used_at : ℕ
  pub expires_at : ℕ
  pub created_at : ℕ

pub record ClientTables : Type 0 where
  pub clients : List ClientRow
  pub secrets : List ClientSecret

-- Which calls of the database in one operation succeed; `used_ok` is UpdateLastUsedAt.
pub record ClientIo : Type 0 where
  pub client_ok : Bool
  pub secret_ok : Bool
  pub write_ok : Bool
  pub used_ok : Bool

pub data ClientError : Type 0 where
  client_exists client_not_found client_disabled invalid_credentials : ClientError
  secret_not_found secret_of_other random_failed database_failed : ClientError

-- UpdateOAuthClientRequest; an empty field, or a status that is none, changes nothing.
pub record ClientUpdate : Type 0 where
  pub name : String
  pub grant_types : List String
  pub redirect_uris : List String
  pub scopes : List String
  pub status : Option Bool

abbrev pub unless_empty : List String → List String → List String
unless_empty old [] = old
unless_empty old (x ∷ xs) = x ∷ xs

abbrev pub unless_none : Bool → Option Bool → Bool
unless_none old none = old
unless_none old (some b) = b

-- GetByID
unfoldable pub get_client_row : String → List ClientRow → Option ClientRow
get_client_row id [] = none
get_client_row id (r ∷ rs) = if r.id == id then some r else get_client_row id rs

-- GetByClientID
unfoldable pub get_by_client_id : String → List ClientRow → Option ClientRow
get_by_client_id cid [] = none
get_by_client_id cid (r ∷ rs) =
    if r.client.client_id == cid then some r else get_by_client_id cid rs

-- Update of the repository, for a row that is there.
abbrev pub save_client : ClientRow → List ClientRow → List ClientRow
save_client row [] = row ∷ []
save_client row (r ∷ rs) = if r.id == row.id then row ∷ rs else r ∷ save_client row rs

-- GetByID of the secrets.
unfoldable pub get_secret : String → List ClientSecret → Option ClientSecret
get_secret id [] = none
get_secret id (s ∷ ss) = if s.id == id then some s else get_secret id ss

-- ValidateSecret
unfoldable pub validate_secret : ℕ → String → String → List ClientSecret → Option ClientSecret
validate_secret now cid secret [] = none
validate_secret now cid secret (s ∷ ss) =
    if s.client_id == cid && (s.secret == secret && ltb now s.expires_at)
    then some s
    else validate_secret now cid secret ss

-- UpdateLastUsedAt
abbrev pub update_last_used_at : ℕ → String → List ClientSecret → List ClientSecret
update_last_used_at now id [] = []
update_last_used_at now id (s ∷ ss) =
    let rest = update_last_used_at now id ss in
    if s.id == id then record s { last_used_at = now } ∷ rest else s ∷ rest

-- A client, or an error.
pub data ClientAnswer : Type 0 where
  ok : ClientRow → ClientAnswer
  err : ClientError → ClientAnswer

abbrev pub create_absent :
    ClientIo → ClientRow → Option ClientRow → ClientTables → ClientAnswer × ClientTables
create_absent io row (some r) t = (err client_exists, t)
create_absent io row none t =
    if io.write_ok
    then (ok row, record t { clients = t.clients ++ row ∷ [] })
    else (err database_failed, t)

-- CreateClient, with the two uuids that it draws in the row.
unfoldable pub create_client : ClientIo → ClientRow → ClientTables → ClientAnswer × ClientTables
create_client io row t =
    let enabled = record row { client = record row.client { status = true } } in
    if io.client_ok
    then create_absent io enabled (get_by_client_id row.client.client_id t.clients) t
    else (err database_failed, t)

-- The row with the fields of the request that are not empty.
abbrev pub updated_row : ClientUpdate → ClientRow → ClientRow
updated_row u r = record r {
  name = if u.name == "" then r.name else u.name;
  client = record r.client {
    grant_types = unless_empty r.client.grant_types u.grant_types;
    redirect_uris = unless_empty r.client.redirect_uris u.redirect_uris;
    scopes = unless_empty r.client.scopes u.scopes;
    status = unless_none r.client.status u.status;
  };
}

abbrev pub update_row :
    ClientIo → ClientUpdate → Option ClientRow → ClientTables → ClientAnswer × ClientTables
update_row io u none t = (err client_not_found, t)
update_row io u (some r) t =
    if io.write_ok
    then (ok (updated_row u r), record t { clients = save_client (updated_row u r) t.clients })
    else (err database_failed, t)

-- UpdateClient
unfoldable pub update_client :
    ClientIo → String → ClientUpdate → ClientTables → ClientAnswer × ClientTables
update_client io id u t =
    if io.client_ok
    then update_row io u (get_client_row id t.clients) t
    else (err database_failed, t)

-- DeleteClient
unfoldable pub delete_client : ClientIo → String → ClientTables → Option ClientError × ClientTables
delete_client io id t =
    if io.write_ok
    then (none, record t { clients = keep (λ r. not (r.id == id)) t.clients })
    else (some database_failed, t)

-- `ValidateClient` with the secret that is found.
abbrev pub use_secret :
    ClientIo → ℕ → ClientRow → Option ClientSecret → ClientTables → ClientAnswer × ClientTables
use_secret io now r none t = (err invalid_credentials, t)
use_secret io now r (some s) t =
    if io.used_ok
    then (ok r, record t { secrets = update_last_used_at now s.id t.secrets })
    else (ok r, t)

abbrev pub validate_row :
    ClientIo → ℕ → String → String → Option ClientRow → ClientTables → ClientAnswer × ClientTables
validate_row io now cid secret none t = (err client_not_found, t)
validate_row io now cid secret (some r) t =
    if not r.client.status
    then (err client_disabled, t)
    else if io.secret_ok
    then use_secret io now r (validate_secret now cid secret t.secrets) t
    else (err database_failed, t)

-- ValidateClient
unfoldable pub validate_client :
    ClientIo → ℕ → String → String → ClientTables → ClientAnswer × ClientTables
validate_client io now cid secret t =
    if io.client_ok
    then validate_row io now cid secret (get_by_client_id cid t.clients) t
    else (err database_failed, t)

-- now.Add(time.Duration(expires_in) * time.Second): nanoseconds in an int64, which wraps around. A
-- time before the clock's zero is the zero.
unfoldable pub secret_expiry : ℕ → ℕ → ℕ
secret_expiry now expires_in =
    let nanos = expires_in * second % 2 ^ 64 in
    if ltb nanos (2 ^ 63) then now + nanos else now + nanos - 2 ^ 64

-- `CreateClientSecret` with the row of the client and the random secret, where none is an error.
abbrev pub add_secret :
    ClientIo
    → ℕ
    → String
    → String
    → String
    → ℕ
    → Option String
    → Option ClientRow
    → ClientTables
    → Option ClientError × ClientTables
add_secret io now uuid cid description expires_in random none t = (some client_not_found, t)
add_secret io now uuid cid description expires_in none (some r) t = (some random_failed, t)
add_secret io now uuid cid description expires_in (some secret) (some r) t =
    let row : ClientSecret = record {
      id = uuid;
      client_id = cid;
      secret = secret;
      description = description;
      last_used_at = now;
      expires_at = secret_expiry now expires_in;
      created_at = now;
    } in
    if io.write_ok
    then (none, record t { secrets = t.secrets ++ row ∷ [] })
    else (some database_failed, t)

-- CreateClientSecret
unfoldable pub create_client_secret :
    ClientIo
    → ℕ
    → String
    → String
    → String
    → ℕ
    → Option String
    → ClientTables
    → Option ClientError × ClientTables
create_client_secret io now uuid cid description expires_in random t =
    if io.client_ok
    then add_secret io now uuid cid description expires_in random (get_by_client_id cid t.clients) t
    else (some database_failed, t)

abbrev pub drop_secret :
    ClientIo → String → Option ClientSecret → ClientTables → Option ClientError × ClientTables
drop_secret io cid none t = (some secret_not_found, t)
drop_secret io cid (some s) t =
    if not (s.client_id == cid)
    then (some secret_of_other, t)
    else if io.write_ok
    then (none, record t { secrets = keep (λ x. not (x.id == s.id)) t.secrets })
    else (some database_failed, t)

-- DeleteClientSecret
unfoldable pub delete_client_secret :
    ClientIo → String → String → ClientTables → Option ClientError × ClientTables
delete_client_secret io cid id t =
    if io.secret_ok
    then drop_secret io cid (get_secret id t.secrets) t
    else (some database_failed, t)
