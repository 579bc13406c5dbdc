-- ===== src/Codes/LinkManager.antt =====
-- internal/plugin/verification/link_manager.go. Generate stores the link under the mutex and Verify
-- runs under it; Send sends after it has stored.
use Prim.Native.Char.{Char, code}
use Prim.Native.String.{◌++◌}
use lauth.Prelude.{
  ℕ, ◌+◌, String, ◌==◌, Bool, true, false, not, Option, none, some, List, [], ◌∷◌, ltb, eqb,
  if◌then◌else◌,
}
use lauth.Prelude.Dict.{Dict, lookup, insert, erase}

-- LinkConfig
pub record LinkConfig : Type 0 where
  pub base_url : String
  pub expire_time : ℕ

-- VerificationLink
pub record VerificationLink : Type 0 where
  pub token : String
  pub link : String
  pub expired_at : ℕ

-- DefaultLinkManager
pub record LinkManager : Type 0 where
  pub store : Dict VerificationLink
  pub link_config : LinkConfig

pub data LinkError : Type 0 where
  no_token send_failed no_link_found link_expired invalid_token invalid_format : LinkError

pub data LinkResult (A : Type 0) : Type 0 where
  ok : A → LinkResult A
  err : LinkError → LinkResult A

-- The link that `Generate` builds from a random token.
abbrev pub make_link : LinkConfig → String → String → String → ℕ → VerificationLink
make_link config token to session now =
    let combined = token ++ ("." ++ session) in
    record {
      token = combined;
      link = config.base_url ++ ("?token=" ++ (combined ++ ("&email=" ++ to)));
      expired_at = now + config.expire_time;
    }

-- Generate; the random token is nothing where rand.Read gives an error.
unfoldable pub generate_link :
    Option String → ℕ → String → String → LinkManager → LinkResult VerificationLink × LinkManager
generate_link none now to session m = (err no_token, m)
generate_link (some token) now to session m =
    let link = make_link m.link_config token to session now in
    (ok link, record m { store = insert to link m.store })

-- `Send` with what Generate gives; `sent` tells whether the sender gave no error.
abbrev pub send_generated :
    Bool → LinkResult VerificationLink × LinkManager → LinkResult VerificationLink × LinkManager
send_generated sent (err e, m) = (err e, m)
send_generated true (ok link, m) = (ok link, m)
send_generated false (ok link, m) = (err send_failed, m)

-- Send; a result without an error holds the link that was sent.
unfoldable pub send_link :
    Bool
    → Option String
    → ℕ
    → String
    → String
    → LinkManager
    → LinkResult VerificationLink × LinkManager
send_link sent token now to session m = send_generated sent (generate_link token now to session m)

-- A character before the first part.
abbrev pub push_first : Char → List String → List String
push_first c [] = String.◌∷◌ c String.[] ∷ []
push_first c (part ∷ parts) = String.◌∷◌ c part ∷ parts

-- strings.Split(s, ".")
unfoldable pub split_dots : String → List String
split_dots String.[] = String.[] ∷ []
split_dots (String.◌∷◌ c s) =
    let parts = split_dots s in if eqb (code c) b'.' then String.[] ∷ parts else push_first c parts

-- The session in a token of exactly two parts.
abbrev pub session_of : List String → Option String
session_of (token ∷ session ∷ []) = some session
session_of _ = none

-- `Verify` after the format of the token.
abbrev pub take_session : String → Option String → LinkManager → LinkResult String × LinkManager
take_session to none m = (err invalid_format, m)
take_session to (some session) m = (ok session, record m { store = erase to m.store })

-- `Verify` with what the store has for the address.
abbrev pub verify_link_stored :
    ℕ → String → String → Option VerificationLink → LinkManager → LinkResult String × LinkManager
verify_link_stored now to token none m = (err no_link_found, m)
verify_link_stored now to token (some stored) m =
    if ltb stored.expired_at now
    then (err link_expired, record m { store = erase to m.store })
    else if not (stored.token == token)
    then (err invalid_token, m)
    else take_session to (session_of (split_dots token)) m

-- Verify
unfoldable pub verify_link : ℕ → String → String → LinkManager → LinkResult String × LinkManager
verify_link now to token m = verify_link_stored now to token (lookup to m.store) m

abbrev pub valid_link_stored : ℕ → Option VerificationLink → Bool
valid_link_stored now none = false
valid_link_stored now (some stored) = not (ltb stored.expired_at now)

-- IsValid
unfoldable pub is_valid_link : ℕ → String → LinkManager → Bool
is_valid_link now to m = valid_link_stored now (lookup to m.store)
