-- ===== src/Tests/Clients.antt =====
-- Tests of internal/service/oauth_client.go.
use lauth.Prelude.{
  ◌*◌, ◌+◌, ◌≢◌, ◌≡◌, refl, true, false, some, none, [], ◌∷◌, ltb, if◌then◌else◌, differ, arith,
}
use lauth.Oauth.Token.{second}
use lauth.Oauth.Clients.{
  secret_expiry, ClientRow, ClientSecret, ClientTables, ClientIo, ok, err, client_disabled,
  invalid_credentials, secret_of_other, get_by_client_id, get_client_row, validate_client,
  create_client, update_client, create_client_secret, delete_client_secret,
}
use lauth.Oauth.Secrets.{create_client_secret-validate_client}
use lauth.Tests.Grants.{client}

abbrev io : ClientIo
io = record { client_ok = true; secret_ok = true; write_ok = true; used_ok = true }

abbrev row : ClientRow
row = record { id = "1"; name = "web"; kind = "public"; client = client }

abbrev old_secret : ClientSecret
old_secret = record {
  id = "s1";
  client_id = "c";
  secret = "old";
  description = "first";
  last_used_at = 1;
  expires_at = 50;
  created_at = 1;
}

abbrev tables : ClientTables
tables = record { clients = row ∷ []; secrets = old_secret ∷ [] }

created_again : (create_client io row (record tables { clients = [] })).1.clients ≡ row ∷ []
unfolding create_client get_by_client_id
created_again = refl

-- A client that is switched off is not let in, with the right secret.
off_refused :
    (validate_client io 2 "c" "old"
      (update_client io "1"
        (record {
          name = "";
          grant_types = [];
          redirect_uris = [];
          scopes = [];
          status = some false;
        })
        tables).1).0
    ≡ err client_disabled
unfolding validate_client update_client get_client_row get_by_client_id
off_refused = refl

-- A life of 2^63 nanoseconds or more is over at once.
long_life_expired : secret_expiry 10 9223372037 ≡ 0
unfolding secret_expiry
long_life_expired = refl

create_client_secret-validate_client_example :
    let a = create_client_secret io 10 "s2" "c" "second" 3600 (some "new") tables in
    let d = delete_client_secret io "c" "s2" a.1 in
    (a.0 ≡ none)
    × ((validate_client io 20 "c" "new" a.1).0
        ≡ (if ltb 20 (10 + 3600 * second) then ok row else err invalid_credentials))
    × (delete_client_secret io "d" "s2" a.1 ≡ (some secret_of_other, a.1))
    × (d.0 ≡ none)
    × ((validate_client io 20 "d" "new" d.1).0 ≢ ok row)
unfolding get_by_client_id
create_client_secret-validate_client_example =
    create_client_secret-validate_client io 10 20 3600 "s2" "c" "d" "d" "second" "new" row row
      tables (refl, refl, refl) refl refl ((differ "s1" "s2" refl, differ "old" "new" refl), tt)
      (differ "d" "c" refl) (omega arith)
