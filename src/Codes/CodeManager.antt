-- ===== src/Codes/CodeManager.antt =====
-- internal/plugin/verification/code_manager.go. The mutex makes each operation one step.
use lauth.Prelude.{
  ℕ, zero, suc, ◌+◌, String, ◌==◌, Bool, true, false, not, Option, none, some, [], ltb,
  if◌then◌else◌,
}
use lauth.Prelude.Dict.{Dict, lookup, insert, erase}

-- VerificationConfig
pub record VerificationConfig : Type 0 where
  pub code_length : ℕ
  pub expire_time : ℕ

-- VerificationCode
pub record VerificationCode : Type 0 where
  pub code : String
  pub expired_at : ℕ

-- DefaultCodeManager; the sender is a parameter of `send`.
pub record CodeManager : Type 0 where
  pub store : Dict VerificationCode
  pub config : VerificationConfig

-- NewDefaultCodeManager
abbrev pub new_code_manager : VerificationConfig → CodeManager
new_code_manager config = record { store = []; config = config }

abbrev pub charset : String
charset = "0123456789"

-- The character of a text at a place, put before another text.
abbrev pub push_at : ℕ → String → String → String
push_at n String.[] s = s
push_at zero (String.◌∷◌ c cs) s = String.◌∷◌ c s
push_at (suc n) (String.◌∷◌ c cs) s = push_at n cs s

-- Generate; `draw` has what rand.Intn gives for each place, counted from the end.
unfoldable pub generate : (ℕ → ℕ) → ℕ → String
generate draw zero = ""
generate draw (suc n) = push_at (draw n) charset (generate draw n)

-- Send, at the time `now`; `sent` tells whether the sender gave no error, as the result does.
unfoldable pub send : Bool → (ℕ → ℕ) → ℕ → String → CodeManager → Bool × CodeManager
send sent draw now to m =
    let code = generate draw m.config.code_length in
    if not sent then (false, m) else (
      true,
      record m {
        store = insert to (record { code = code; expired_at = now + m.config.expire_time }) m.store;
      },
    )

pub data VerifyError : Type 0 where
  no_code_found code_expired invalid_code : VerifyError

-- `Verify` with what the store has for the address.
abbrev pub verify_stored :
    ℕ → String → String → Option VerificationCode → CodeManager → Option VerifyError × CodeManager
verify_stored now to code none m = (some no_code_found, m)
verify_stored now to code (some stored) m =
    if ltb stored.expired_at now
    then (some code_expired, record m { store = erase to m.store })
    else if not (stored.code == code)
    then (some invalid_code, m)
    else (none, record m { store = erase to m.store })

-- Verify
unfoldable pub verify : ℕ → String → String → CodeManager → Option VerifyError × CodeManager
verify now to code m = verify_stored now to code (lookup to m.store) m

abbrev pub valid_stored : ℕ → Option VerificationCode → Bool
valid_stored now none = false
valid_stored now (some stored) = not (ltb stored.expired_at now)

-- IsValid
unfoldable pub is_valid : ℕ → String → CodeManager → Bool
is_valid now to m = valid_stored now (lookup to m.store)
