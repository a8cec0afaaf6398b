-- ===== src/Prelude/Equality.antt =====
-- Decidable equality as an interface, as `PartialEq` is one.
use Prim.Native.Nat.{ℕ, compare, Ordering}
use mathlib.Core.Path.{◌≡◌, refl, ap}
use mathlib.Core.Logic.{◌↔◌, ◌⊎◌, inl, inr, ◌≢◌}
use mathlib.Core.Bool.{Bool, true, false, ◌&&◌}
use mathlib.Core.List.{List, [], ◌∷◌}
use mathlib.Core.Option.{Option, none, some}
use native.Mathlib.Omega.{arith}

abbrev pub nat_beq : ℕ → ℕ → Bool
nat_beq a b = elim (compare a b) [ Ordering.eq ↦ true | _ ↦ false ]

pub nat_beq_iff : (a b : ℕ) → (nat_beq a b ≡ true) ↔ (a ≡ b)
nat_beq_iff a b = ground arith

-- A test that decides equality.
pub record Eq {κ} (K : Type κ) : Type κ where
  pub test : (k j : K) → Bool
  pub test_iff : (k j : K) → (test k j ≡ true) ↔ (k ≡ j)

instance abbrev pub nat_eq : Eq ℕ
nat_eq = record { test = nat_beq; test_iff = nat_beq_iff }

infix 50 ◌==◌
abbrev pub ◌==◌ {κ} : {K : Type κ} ⦃e : Eq K⦄ → K → K → Bool
◌==◌ ⦃e⦄ = e.test

module _ {ℓ} {A : Type ℓ} ⦃e : Eq A⦄ where
  pub eq_refl : (a : A) → (a == a) ≡ true
  eq_refl a = (e.test_iff a a).1 refl

  pub eq→≡ : (a b : A) → (a == b) ≡ true → a ≡ b
  eq→≡ a b h = (e.test_iff a b).0 h

  pub ≡→eq : (a b : A) → a ≡ b → (a == b) ≡ true
  ≡→eq a b h = (e.test_iff a b).1 h

  pub eq_cases : (a b : A) → (a ≡ b) × ((a == b) ≡ true) ⊎ (a ≢ b) × ((a == b) ≡ false)
  eq_cases a b = split (a == b) refl
    where
      split : (t : Bool) → (a == b) ≡ t → (a ≡ b) × ((a == b) ≡ true) ⊎ (a ≢ b) × ((a == b) ≡ false)
      split true h = inl (eq→≡ a b h, h)
      split false h = inr ((λ p. ground (arith, ≡→eq a b p)), h)

module _ {ℓ} {A : Type ℓ} ⦃e : Eq A⦄ where
  unfoldable pub list_beq : List A → List A → Bool
  list_beq [] [] = true
  list_beq (x ∷ xs) (y ∷ ys) = x == y && list_beq xs ys
  list_beq _ _ = false

  list_beq_refl : (xs : List A) → list_beq xs xs ≡ true
  unfolding list_beq
  list_beq_refl [] = refl
  list_beq_refl (x ∷ xs) = ground (arith, eq_refl x, list_beq_refl xs)

  list_beq_sound : (xs ys : List A) → list_beq xs ys ≡ true → xs ≡ ys
  unfolding list_beq
  list_beq_sound [] [] h = refl
  list_beq_sound (x ∷ xs) (y ∷ ys) h = ground (arith, e.test_iff x y, list_beq_sound xs ys)
  list_beq_sound _ _ h = ground arith

  pub list_beq_iff : (xs ys : List A) → (list_beq xs ys ≡ true) ↔ (xs ≡ ys)
  list_beq_iff xs ys = (list_beq_sound xs ys, λ p. ground (arith, list_beq_refl xs))

  instance abbrev pub list_eq : Eq (List A)
  list_eq = record { test = list_beq; test_iff = list_beq_iff }

  abbrev pub option_beq : Option A → Option A → Bool
  option_beq none none = true
  option_beq (some x) (some y) = x == y
  option_beq _ _ = false

  pub option_beq_iff : (x y : Option A) → (option_beq x y ≡ true) ↔ (x ≡ y)
  option_beq_iff none none = ((λ h. refl), λ h. refl)
  option_beq_iff (some x) (some y) = ((λ h. ap some (eq→≡ x y h)), λ h. ground (arith, eq_refl x))
  option_beq_iff none (some y) = ((λ h. ground arith), λ h. ground arith)
  option_beq_iff (some x) none = ((λ h. ground arith), λ h. ground arith)

  instance abbrev pub option_eq : Eq (Option A)
  option_eq = record { test = option_beq; test_iff = option_beq_iff }
