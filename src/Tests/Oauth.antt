-- ===== src/Tests/Oauth.antt =====
-- Tests of the token service and of the OAuth grants.
use lauth.Prelude.{
  ℕ, ◌+◌, ◌*◌, String, ◌==◌, ◌≡◌, ◌≢◌, refl, sym, ap, ◌∙◌, Bool, true, false, ◌&&◌, ltb, Option,
  none, some, List, [], ◌∷◌, differ, arith, eqb, if◌then◌else◌,
}
use lauth.Prelude.Dict.{Dict, lookup}
use lauth.Oauth.Token.{
  Entry, RedisIo, access_token, refresh_token, TokenClaims, Jwt, TokenService, TokenPair,
  TokenResult, second, generate_token, generate_token_pair, validate_token, refresh, revoke,
}
use lauth.Oauth.Revoked.{
  Call, issue_call, refresh_call, revoke_call, run_calls, revoked_never_valid,
}
use lauth.Oauth.Refresh.{claims_until, refreshed_once}

abbrev pub works : RedisIo
works = record { exists_ok = true; get_ok = true; set_ok = true; del_ok = true }

abbrev pub access_claims : TokenClaims
access_claims = claims_until "u" "a" "n" access_token "read" (0 + 5 * second)

abbrev refresh_claims : TokenClaims
refresh_claims = claims_until "u" "a" "n" refresh_token "read" (0 + 9 * second)

same_claims : TokenClaims → TokenClaims → Bool
same_claims c d =
    c.user_id == d.user_id
    && (c.app_id == d.app_id
        && (c.username == d.username
            && (c.kind == d.kind
                && (eqb c.exp d.exp && (eqb c.expires_at d.expires_at && c.scope == d.scope)))))

sign_known : TokenClaims → Option String
sign_known c =
    if same_claims c access_claims
    then some "A"
    else if same_claims c refresh_claims
    then some "R"
    else none

unfoldable pub parse_known : String → Option TokenClaims
parse_known t =
    if t == "A" then some access_claims else if t == "R" then some refresh_claims else none

-- An expired token does not parse.
abbrev until_expired : ℕ → Option TokenClaims → Option TokenClaims
until_expired n none = none
until_expired n (some c) = if ltb n (c.exp * second) then some c else none

-- Signs two claims, and parses what it has signed until it expires.
abbrev jwt : Jwt
jwt = record { sign = sign_known; parse = λ n t. until_expired n (parse_known t) }

abbrev service : TokenService
service = record { jwt = jwt; access_expiry = 5 * second; refresh_expiry = 9 * second }

abbrev pair : TokenPair
pair = record {
  access = "A";
  refresh = "R";
  access_expire_in = 5 * second;
  refresh_expire_in = 9 * second;
}

abbrev sign_kind : Bool → String
sign_kind true = "access2"
sign_kind false = "refresh2"

sign_kind_other : (access : Bool) → some (sign_kind access) ≢ some "R"
sign_kind_other true e = let k : "access2" ≡ "R" = cc e in differ "access2" "R" refl k
sign_kind_other false e = let k : "refresh2" ≡ "R" = cc e in differ "refresh2" "R" refl k

-- Signs everything, by the kind of the claims.
abbrev plain_jwt : Jwt
plain_jwt = record {
  sign = λ c. some (sign_kind (c.kind == "access"));
  parse = λ n t. parse_known t;
}

abbrev pub plain : TokenService
plain = record { jwt = plain_jwt; access_expiry = 5 * second; refresh_expiry = 9 * second }

abbrev pub plain_pair : TokenPair
plain_pair = record {
  access = "access2";
  refresh = "refresh2";
  access_expire_in = 5 * second;
  refresh_expire_in = 9 * second;
}

abbrev pub exp_of : Option TokenClaims → ℕ
exp_of none = 0
exp_of (some c) = c.exp

abbrev user_of : Option TokenClaims → String
user_of none = ""
user_of (some c) = c.user_id

abbrev pub later_calls : List Call
later_calls =
    issue_call 2 works "u" "a" "n" "read"
    ∷ refresh_call 3 works "R"
    ∷ revoke_call 3 works "R" refresh_token
    ∷ revoke_call 3 works "A" access_token
    ∷ []

revoked_never_valid_example :
    validate_token plain 4 works "A" access_token
      (run_calls plain later_calls (revoke plain 1 works "A" access_token []).1)
    ≢ TokenResult.ok access_claims
unfolding revoke validate_token parse_known lookup
revoked_never_valid_example =
    revoked_never_valid plain 1 4 works works "A" access_token access_token later_calls []
      access_claims (λ n d e. let k = ap exp_of e in omega (arith, k)) refl

abbrev pub stored : Dict Entry
stored = ("refresh_token:u", record { value = "R"; expires = 100 }) ∷ []

abbrev other_calls : List Call
other_calls = issue_call 12 works "u" "a" "n" "read" ∷ revoke_call 13 works "R" access_token ∷ []

refreshed_once_example :
    (refresh plain 20 works "R"
      (run_calls plain other_calls (refresh plain 10 works "R" stored).1)).0
    ≢ TokenResult.ok plain_pair
unfolding refresh validate_token generate_token_pair generate_token parse_known lookup
refreshed_once_example =
    refreshed_once plain 10 20 works works "R" other_calls stored plain_pair plain_pair
      (λ n m c d e f. ap user_of (sym e ∙ f)) refl (differ "refresh2" "R" refl)
      (λ d. sign_kind_other (d.kind == "access"), (tt, tt))
