-- ===== src/Prelude/Lists.antt =====
-- Lists measured by native numbers, and predicates over lists by recursion.
use Prim.Native.Nat.{ℕ, zero, suc, ◌+◌}
use mathlib.Core.Path.{◌≡◌, refl}
use mathlib.Core.Logic.{◌⊎◌, inl, inr, ◌↔◌}
use mathlib.Core.Bool.{Bool, true, ◌&&◌}
use mathlib.Core.List.{List, [], ◌∷◌, ◌++◌, map}
use native.Mathlib.Omega.{arith}
use lauth.Prelude.Tests.{if◌then◌else◌, Bool-cases}

module _ {ℓ} {A : Type ℓ} where
  abbrev pub length : List A → ℕ
  length [] = 0
  length (x ∷ xs) = suc (length xs)

  abbrev pub All {κ} : (A → Type κ) → List A → Type κ
  All P [] = Unit
  All P (x ∷ xs) = P x × All P xs

  abbrev pub Any : (A → Type 0) → List A → Type 0
  Any P [] = ⊥
  Any P (x ∷ xs) = P x ⊎ Any P xs

  abbrev pub take : ℕ → List A → List A
  take zero xs = []
  take (suc n) [] = []
  take (suc n) (x ∷ xs) = x ∷ take n xs

  abbrev pub drop : ℕ → List A → List A
  drop zero xs = xs
  drop (suc n) [] = []
  drop (suc n) (x ∷ xs) = drop n xs

  -- The items that pass a test, in order.
  unfoldable pub keep : (A → Bool) → List A → List A
  keep p [] = []
  keep p (x ∷ xs) = let rest = keep p xs in if p x then x ∷ rest else rest

  pub length-append : (xs ys : List A) → length (xs ++ ys) ≡ length xs + length ys
  length-append [] ys = omega arith
  length-append (x ∷ xs) ys = omega (arith, length-append xs ys)

module _ {ℓ} {A : Type ℓ} where
  pub All-mono {κ} : (P Q : A → Type κ) (xs : List A) → ((x : A) → P x → Q x) → All P xs → All Q xs
  All-mono P Q [] f h = tt
  All-mono P Q (x ∷ xs) f h = (f x h.0, All-mono P Q xs f h.1)

  pub All-every {κ} : (P : A → Type κ) (xs : List A) → ((x : A) → P x) → All P xs
  All-every P [] f = tt
  All-every P (x ∷ xs) f = (f x, All-every P xs f)

  pub All-keep_iff {κ} :
      (P : A → Type κ) (p : A → Bool) (xs : List A)
      → All P (keep p xs) ↔ All (λ x. p x ≡ true → P x) xs
  unfolding keep
  All-keep_iff P p [] = (λ h. tt, λ h. tt)
  All-keep_iff P p (x ∷ xs) = elim (Bool-cases (p x)) [
    | inl e ↦
        rw e (
          λ h. (λ _. h.0, (All-keep_iff P p xs).0 h.1),
          λ h. (h.0 refl, (All-keep_iff P p xs).1 h.1),
        )
    | inr e ↦ rw e (λ h. (λ k. cc k, (All-keep_iff P p xs).0 h), λ h. (All-keep_iff P p xs).1 h.1)
  ]

  pub keep-append : (p : A → Bool) (xs ys : List A) → keep p (xs ++ ys) ≡ keep p xs ++ keep p ys
  unfolding keep
  keep-append p [] ys = refl
  keep-append p (x ∷ xs) ys = ground (arith, keep-append p xs ys)

  pub keep-ext : (p q : A → Bool) (xs : List A) → All (λ x. p x ≡ q x) xs → keep p xs ≡ keep q xs
  unfolding keep
  keep-ext p q [] h = refl
  keep-ext p q (x ∷ xs) h = ground (arith, h.0, keep-ext p q xs h.1)

  pub keep-keep : (p q : A → Bool) (xs : List A) → keep p (keep q xs) ≡ keep (λ x. q x && p x) xs
  unfolding keep
  keep-keep p q [] = refl
  keep-keep p q (x ∷ xs) = ground (arith, keep-keep p q xs)

  pub keep-all : (p : A → Bool) (xs : List A) → All (λ x. p x ≡ true) xs → keep p xs ≡ xs
  unfolding keep
  keep-all p [] h = refl
  keep-all p (x ∷ xs) h = ground (arith, h.0, keep-all p xs h.1)

  pub All-keep {κ} : (P : A → Type κ) (p : A → Bool) (xs : List A) → All P xs → All P (keep p xs)
  All-keep P p xs h = (All-keep_iff P p xs).1 (All-mono _ _ xs (λ x a _. a) h)

  pub All-map {κ} :
      {B : Type ℓ} (P : B → Type κ) (f : A → B) (xs : List A)
      → All P (map f xs)
      → All (λ x. P (f x)) xs
  All-map P f [] h = tt
  All-map P f (x ∷ xs) h = (h.0, All-map P f xs h.1)

  -- What holds of all items holds of one of them.
  pub All-Any : (P Q : A → Type 0) (xs : List A) → All P xs → Any Q xs → (x : A) × P x × Q x
  All-Any P Q [] h q = absurd q
  All-Any P Q (x ∷ xs) h (inl q) = (x, h.0, q)
  All-Any P Q (x ∷ xs) h (inr q) = All-Any P Q xs h.1 q

module _ {A : Type 0} where
  pub All-self : (xs : List A) → All (λ y. Any (λ z. z ≡ y) xs) xs
  All-self [] = tt
  All-self (x ∷ xs) = (inl refl, All-mono _ _ xs (λ y h. inr h) (All-self xs))

  pub Any-append_iff : (P : A → Type 0) (xs ys : List A) → Any P (xs ++ ys) ↔ (Any P xs ⊎ Any P ys)
  Any-append_iff P [] ys = (λ h. inr h, λ h. elim h [ inl a ↦ absurd a | inr b ↦ b ])
  Any-append_iff P (x ∷ xs) ys = ground (arith, Any-append_iff P xs ys)

  pub Any-keep_iff :
      (P : A → Type 0) (p : A → Bool) (xs : List A)
      → Any P (keep p xs) ↔ Any (λ x. (p x ≡ true) × P x) xs
  unfolding keep
  Any-keep_iff P p [] = (λ h. h, λ h. h)
  Any-keep_iff P p (x ∷ xs) = ground (arith, Any-keep_iff P p xs)

  pub Any-mono : (P Q : A → Type 0) (xs : List A) → ((x : A) → P x → Q x) → Any P xs → Any Q xs
  Any-mono P Q [] f h = h
  Any-mono P Q (x ∷ xs) f (inl p) = inl (f x p)
  Any-mono P Q (x ∷ xs) f (inr h) = inr (Any-mono P Q xs f h)
