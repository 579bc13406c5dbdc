-- ===== src/Codes/OneTime.antt =====
-- When internal/plugin/verification/code_manager.go accepts a code.
use lauth.Prelude.{
  ℕ, ◌+◌, ◌≤◌, String, eq_iff, eq_refl, ◌≡◌, ◌≢◌, refl, sym, ◌∙◌, ◌⊎◌, ◌↔◌, true, false, Option,
  none, some, List, [], ◌∷◌, arith, All,
}
use lauth.Prelude.Dict.{lookup}
use lauth.Codes.CodeManager.{
  VerificationConfig, VerificationCode, CodeManager, new_code_manager, generate, send,
  no_code_found, verify,
}
use lauth.Codes.Slots.{
  CodeCall, send_call, verify_call, run_call, run_calls, check_slot, slot_call, slot_calls,
  run_call-slot, run_calls-slots, verify-slot,
}

-- The call does not store a new code for the address.
abbrev pub SendsNone : String → CodeCall → Type 0
SendsNone to (send_call sent draw now address) = (sent ≡ false) ⊎ (address ≢ to)
SendsNone to (verify_call now address code) = Unit

slot_call-none :
    (config : VerificationConfig) (to : String) (c : CodeCall)
    → SendsNone to c
    → slot_call config to c none ≡ none
slot_call-none config to (send_call sent draw now address) h = ground (arith, eq_iff address to)
slot_call-none config to (verify_call now address code) h = ground arith

slot_calls-none :
    (config : VerificationConfig) (to : String) (cs : List CodeCall)
    → All (SendsNone to) cs
    → slot_calls config to cs none ≡ none
slot_calls-none config to [] h = refl
slot_calls-none config to (c ∷ cs) h =
    rw (slot_call-none config to c h.0) (slot_calls-none config to cs h.1)

check_slot-accepts :
    (now : ℕ) (code : String) (slot : Option VerificationCode)
    → (check_slot now code slot).0 ≡ none
    → (check_slot now code slot).1 ≡ none
check_slot-accepts now code none h = refl
check_slot-accepts now code (some s) h = ground arith

-- A code is accepted once: after that every check of the address finds no code, whatever calls
-- come between, until a new code has been sent to it.
pub accepted_once :
    (now later : ℕ) (to code again : String) (cs : List CodeCall) (m : CodeManager)
    → (verify now to code m).0 ≡ none
    → All (SendsNone to) cs
    → (verify later to again (run_calls cs (verify now to code m).1)).0 ≡ some no_code_found
unfolding run_call
accepted_once now later to code again cs m h none_sent =
    let m1 = (verify now to code m).1 in
    let (slot, config) = run_call-slot (verify_call now to code) to m in
    let used =
      check_slot-accepts now code (lookup to m.store) (sym (verify-slot now to code m) ∙ h) in
    let empty : lookup to m1.store ≡ none = slot ∙ rw (eq_refl to) used in
    rw (
      verify-slot later to again (run_calls cs m1),
      run_calls-slots cs to m1,
      empty,
      slot_calls-none m1.config to cs none_sent,
    )

-- The call leaves the code that is stored for the address.
abbrev pub Harmless : String → VerificationCode → CodeCall → Type 0
Harmless to s (send_call sent draw now address) = (sent ≡ false) ⊎ (address ≢ to)
Harmless to s (verify_call now address code) =
    (address ≢ to) ⊎ ((now ≤ s.expired_at) × (s.code ≢ code))

slot_call-Harmless :
    (config : VerificationConfig) (to : String) (s : VerificationCode) (c : CodeCall)
    → Harmless to s c
    → slot_call config to c (some s) ≡ some s
slot_call-Harmless config to s (send_call sent draw now address) h =
    ground (arith, eq_iff address to)
slot_call-Harmless config to s (verify_call now address code) h =
    ground (arith, eq_iff address to, eq_iff s.code code)

slot_calls-Harmless :
    (config : VerificationConfig) (to : String) (s : VerificationCode) (cs : List CodeCall)
    → All (Harmless to s) cs
    → slot_calls config to cs (some s) ≡ some s
slot_calls-Harmless config to s [] h = refl
slot_calls-Harmless config to s (c ∷ cs) h =
    rw (slot_call-Harmless config to s c h.0) (slot_calls-Harmless config to s cs h.1)

check_slot_iff :
    (now : ℕ) (code : String) (slot : Option VerificationCode)
    → ((check_slot now code slot).0 ≡ none)
      ↔ ((s : VerificationCode) × (slot ≡ some s) × (s.code ≡ code) × (now ≤ s.expired_at))
check_slot_iff now code none = (λ h. cc, λ h. cc (h.1))
check_slot_iff now code (some s) = (
  λ h. (s, refl, ground (arith, eq_iff s.code code), ground (arith, eq_iff s.code code)),
  λ (t, e, same, live). ground (arith, eq_iff s.code code),
)

-- The code that was sent to an address is accepted until it expires, after any number of wrong
-- codes for that address and whatever is sent to and checked for others.
pub send-verify :
    (draw : ℕ → ℕ) (t now : ℕ) (to : String) (cs : List CodeCall) (m : CodeManager)
    → All
        (Harmless to (record {
          code = generate draw m.config.code_length;
          expired_at = t + m.config.expire_time;
        }))
        cs
    → now ≤ t + m.config.expire_time
    → (verify now to
        (generate draw m.config.code_length)
        (run_calls cs (send true draw t to m).1)).0
      ≡ none
unfolding run_call
send-verify draw t now to cs m harmless live =
    let code = generate draw m.config.code_length in
    let s : VerificationCode = record { code = code; expired_at = t + m.config.expire_time } in
    let m1 = (send true draw t to m).1 in
    let (slot, config) = run_call-slot (send_call true draw t to) to m in
    let stored : lookup to m1.store ≡ some s = slot ∙ rw (eq_refl to) refl in
    rw
      (
        verify-slot now to code (run_calls cs m1),
        run_calls-slots cs to m1,
        stored,
        slot_calls-Harmless m1.config to s cs harmless,
      )
      ((check_slot_iff now code (some s)).1 (s, refl, refl, live))

-- After any calls to a new manager, a code is accepted exactly when the slot that the calls of
-- its address leave holds that code and its time has not passed.
pub verify-accepts_iff :
    (config : VerificationConfig) (cs : List CodeCall) (now : ℕ) (to code : String)
    → ((verify now to code (run_calls cs (new_code_manager config))).0 ≡ none) ↔ (
        (s : VerificationCode) × (slot_calls config to cs none ≡ some s)
        × (s.code ≡ code)
        × (now ≤ s.expired_at))
unfolding lookup
verify-accepts_iff config cs now to code =
    rw
      (
        verify-slot now to code (run_calls cs (new_code_manager config)),
        run_calls-slots cs to (new_code_manager config),
      )
      (check_slot_iff now code (slot_calls config to cs none))
