-- ===== src/Tests/Codes.antt =====
-- Tests of internal/plugin/verification.
use Prim.Native.String.{◌++◌, count}
use lauth.Prelude.{ℕ, ◌≤◌, ◌≡◌, refl, ◌↔◌, inr, true, none, some, List, [], differ, ◌∷◌, arith}
use lauth.Prelude.Dict.{lookup}
use lauth.Codes.CodeManager.{
  VerificationConfig, VerificationCode, CodeManager, new_code_manager, generate, no_code_found,
  verify,
}
use lauth.Codes.Digits.{all_digits, generate-IsCode}
use lauth.Codes.Slots.{CodeCall, send_call, verify_call, run_calls, slot_calls}
use lauth.Codes.OneTime.{accepted_once, verify-accepts_iff}
use lauth.Codes.LinkManager.{
  LinkManager, ok, err, no_link_found, send_link, verify_link, split_dots,
}
use lauth.Codes.Links.{send_link-verify_link}

abbrev config : VerificationConfig
config = record { code_length = 4; expire_time = 60 }

abbrev ones : ℕ → ℕ
ones i = 1

generates : generate ones 4 ≡ "1111"
unfolding generate
generates = refl

abbrev manager : CodeManager
manager = record {
  store = ("a@b.c", record { code = "1111"; expired_at = 60 }) ∷ [];
  config = config;
}

abbrev others : List CodeCall
others = send_call true ones 9 "d@e.f" ∷ verify_call 10 "a@b.c" "2222" ∷ []

accepted_once_example :
    (verify 20 "a@b.c" "1111" (run_calls others (verify 5 "a@b.c" "1111" manager).1)).0
    ≡ some no_code_found
unfolding verify lookup
accepted_once_example =
    accepted_once 5 20 "a@b.c" "1111" "1111" others manager refl
      (inr (differ "d@e.f" "a@b.c" refl), (tt, tt))

verify-accepts_iff_example :
    ((verify 12 "d@e.f" "1111" (run_calls others (new_code_manager config))).0 ≡ none) ↔ (
      (s : VerificationCode) × (slot_calls config "d@e.f" others none ≡ some s)
      × (s.code ≡ "1111")
      × (12 ≤ s.expired_at))
verify-accepts_iff_example = verify-accepts_iff config others 12 "d@e.f" "1111"

generate-IsCode_example : (count (generate ones 4) ≡ 4) × (all_digits (generate ones 4) ≡ true)
generate-IsCode_example = generate-IsCode ones 4 (λ i. omega arith)

abbrev links : LinkManager
links = record { store = []; link_config = record { base_url = "https://l"; expire_time = 60 } }

splits : split_dots "a.b." ≡ "a" ∷ "b" ∷ "" ∷ []
unfolding split_dots
splits = refl

send_link-verify_link_example :
    let m1 = (send_link true (some "tok") 0 "a@b.c" "s-1" links).1 in
    let used = verify_link 30 "a@b.c" ("tok" ++ ("." ++ "s-1")) m1 in
    (used.0 ≡ ok "s-1") × ((verify_link 31 "a@b.c" "tok.s-1" used.1).0 ≡ err no_link_found)
send_link-verify_link_example =
    send_link-verify_link true "tok" 0 30 31 "a@b.c" "s-1" "tok.s-1" links refl refl (omega arith)
