-- ===== src/Codes/Slots.antt =====
-- The store of internal/plugin/verification/code_manager.go is one independent slot per address.
use lauth.Prelude.{
  ℕ, ◌+◌, String, ◌==◌, eq_iff, ◌≡◌, refl, inl, inr, Bool, true, false, not, Option, none, some,
  List, [], ◌∷◌, arith, ltb, if◌then◌else◌, text-cases, eq_refl,
}
use lauth.Prelude.Dict.{lookup, lookup-insert, lookup-erase}
use lauth.Codes.CodeManager.{
  VerificationConfig, VerificationCode, CodeManager, generate, send, VerifyError, no_code_found,
  code_expired, invalid_code, verify_stored, verify,
}

-- A call that may change the store.
pub data CodeCall : Type 0 where
  send_call : Bool → (ℕ → ℕ) → ℕ → String → CodeCall
  verify_call : ℕ → String → String → CodeCall

unfoldable pub run_call : CodeCall → CodeManager → CodeManager
run_call (send_call sent draw now to) m = (send sent draw now to m).1
run_call (verify_call now to code) m = (verify now to code m).1

abbrev pub run_calls : List CodeCall → CodeManager → CodeManager
run_calls [] m = m
run_calls (c ∷ cs) m = run_calls cs (run_call c m)

-- What a check of a code does to the slot of its address, and what it answers.
abbrev pub check_slot :
    ℕ → String → Option VerificationCode → Option VerifyError × Option VerificationCode
check_slot now code none = (some no_code_found, none)
check_slot now code (some s) =
    if ltb s.expired_at now
    then (some code_expired, none)
    else if s.code == code
    then (none, none)
    else (some invalid_code, some s)

-- What a call does to the slot of the address `to`.
abbrev pub slot_call :
    VerificationConfig → String → CodeCall → Option VerificationCode → Option VerificationCode
slot_call config to (send_call sent draw now address) slot =
    if not (address == to)
    then slot
    else if sent
    then some
        (record { code = generate draw config.code_length; expired_at = now + config.expire_time })
    else slot
slot_call config to (verify_call now address code) slot =
    if not (address == to) then slot else (check_slot now code slot).1

abbrev pub slot_calls :
    VerificationConfig → String → List CodeCall → Option VerificationCode → Option VerificationCode
slot_calls config to [] slot = slot
slot_calls config to (c ∷ cs) slot = slot_calls config to cs (slot_call config to c slot)

verify_stored-here :
    (now : ℕ) (to code : String) (slot : Option VerificationCode) (m : CodeManager)
    → lookup to m.store ≡ slot
    → lookup to (verify_stored now to code slot m).1.store ≡ (check_slot now code slot).1
verify_stored-here now to code none m e = e
verify_stored-here now to code (some s) m e =
    ground (arith, lookup-erase to to m.store, eq_iff to to)

verify_stored-else :
    (now : ℕ) (to address code : String) (slot : Option VerificationCode) (m : CodeManager)
    → (address == to) ≡ false
    → lookup to (verify_stored now address code slot m).1.store ≡ lookup to m.store
verify_stored-else now to address code none m e = refl
verify_stored-else now to address code (some s) m e =
    ground (arith, lookup-erase to address m.store)

config-verify_stored :
    (now : ℕ) (address code : String) (slot : Option VerificationCode) (m : CodeManager)
    → (verify_stored now address code slot m).1.config ≡ m.config
config-verify_stored now address code none m = refl
config-verify_stored now address code (some s) m = ground arith

pub run_call-slot :
    (c : CodeCall) (to : String) (m : CodeManager)
    → (lookup to (run_call c m).store ≡ slot_call m.config to c (lookup to m.store))
      × ((run_call c m).config ≡ m.config)
unfolding run_call send verify
run_call-slot (send_call true draw now address) to m =
    (simp (lookup-insert to address _ m.store) (ground (arith, eq_iff address to)), refl)
run_call-slot (send_call false draw now address) to m = (ground arith, refl)
run_call-slot (verify_call now address code) to m = (
  elim (text-cases address to) [
    | inl e ↦ rw (e, eq_refl to) (verify_stored-here now to code (lookup to m.store) m refl)
    | inr n ↦ rw n.1 (verify_stored-else now to address code (lookup address m.store) m n.1)
  ],
  config-verify_stored now address code (lookup address m.store) m,
)

-- The store is a slot per address: after any calls, what it has for an address is what the calls
-- that name the address make of its slot, whatever happens to the others.
pub run_calls-slots :
    (cs : List CodeCall) (to : String) (m : CodeManager)
    → lookup to (run_calls cs m).store ≡ slot_calls m.config to cs (lookup to m.store)
run_calls-slots [] to m = refl
run_calls-slots (c ∷ cs) to m =
    let (slot, config) = run_call-slot c to m in
    rw (run_calls-slots cs to (run_call c m), slot, config)

-- What a check answers depends on the slot alone.
pub verify-slot :
    (now : ℕ) (to code : String) (m : CodeManager)
    → (verify now to code m).0 ≡ (check_slot now code (lookup to m.store)).0
unfolding verify
verify-slot now to code m = stored (lookup to m.store)
  where
    stored :
        (slot : Option VerificationCode)
        → (verify_stored now to code slot m).0 ≡ (check_slot now code slot).0
    stored none = refl
    stored (some s) = ground arith
