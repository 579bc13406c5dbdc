-- ===== src/Codes/Digits.antt =====
-- What `Generate` of internal/plugin/verification/code_manager.go gives.
use Prim.Native.Char.{Char, code}
use Prim.Native.String.{count}
use text.Mathlib.TextLemmas.{length-nil, length-cons}
use lauth.Prelude.{ℕ, zero, suc, ◌<◌, String, ◌≡◌, refl, Bool, true, ◌&&◌, arith, leb}
use lauth.Codes.CodeManager.{charset, push_at, generate}

abbrev pub is_digit : Char → Bool
is_digit c = leb b'0' (code c) && leb (code c) b'9'

abbrev pub all_digits : String → Bool
all_digits String.[] = true
all_digits (String.◌∷◌ c s) = is_digit c && all_digits s

push_at-charset :
    (k : ℕ) (s : String)
    → k < 10
    → (c : Char) × (push_at k charset s ≡ String.◌∷◌ c s) × (is_digit c ≡ true)
push_at-charset zero s h = (_, refl, refl)
push_at-charset (suc zero) s h = (_, refl, refl)
push_at-charset (suc (suc zero)) s h = (_, refl, refl)
push_at-charset (suc (suc (suc zero))) s h = (_, refl, refl)
push_at-charset (suc (suc (suc (suc zero)))) s h = (_, refl, refl)
push_at-charset (suc (suc (suc (suc (suc zero))))) s h = (_, refl, refl)
push_at-charset (suc (suc (suc (suc (suc (suc zero)))))) s h = (_, refl, refl)
push_at-charset (suc (suc (suc (suc (suc (suc (suc zero))))))) s h = (_, refl, refl)
push_at-charset (suc (suc (suc (suc (suc (suc (suc (suc zero)))))))) s h = (_, refl, refl)
push_at-charset (suc (suc (suc (suc (suc (suc (suc (suc (suc zero))))))))) s h = (_, refl, refl)
push_at-charset (suc (suc (suc (suc (suc (suc (suc (suc (suc (suc k)))))))))) s h =
    absurd (omega arith)

-- A generated code has the length that is configured, and digits only.
pub generate-IsCode :
    (draw : ℕ → ℕ) (n : ℕ)
    → ((i : ℕ) → draw i < 10)
    → (count (generate draw n) ≡ n) × (all_digits (generate draw n) ≡ true)
unfolding generate
generate-IsCode draw zero h = (length-nil, refl)
generate-IsCode draw (suc n) h =
    let (c, e, digit) = push_at-charset (draw n) (generate draw n) (h n) in
    let (size, digits) = generate-IsCode draw n h in
    rw (e, digit, digits) (rw length-cons (omega arith), refl)
