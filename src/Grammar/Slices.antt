-- ===== src/Grammar/Slices.antt =====
-- crates/ikigai-core/src/grammar.rs: the cuts of a text that the search makes by positions.
use ikigai_core.Prelude.{
  ℕ, zero, suc, ◌+◌, ◌-◌, ◌≤◌, ◌<◌, Str, nat_eq, list_eq, option_eq, ◌≡◌, refl, sym, ap, ◌∙◌, inl,
  inr, true, List, [], ◌∷◌, ◌++◌, some, length, starts_with, arith, Bool-cases, Option-cases,
}
use ikigai_core.Prelude.{
  subst, ℕ, zero, suc, ◌+◌, ◌-◌, ◌≤◌, ◌<◌, Str, nat_eq, list_eq, option_eq, ◌≡◌, refl, sym, ap, ◌∙◌,
  inl, inr, true, List, [], ◌∷◌, ◌++◌, some, length, starts_with, arith, Bool-cases, Option-cases,
}
use ikigai_core.Grammar.Search.{take, drop, find, slice}

drop_nil {ℓ} : {A : Type ℓ} (n : ℕ) → drop {A = A} n [] ≡ []
unfolding drop
drop_nil zero = refl
drop_nil (suc n) = refl

take_nil {ℓ} : {A : Type ℓ} (n : ℕ) → take {A = A} n [] ≡ []
unfolding take
take_nil zero = refl
take_nil (suc n) = refl

drop_eq {ℓ} : {A : Type ℓ} (s : List A) (i j : ℕ) → i ≡ j → drop i s ≡ drop j s
drop_eq s i j h = ap (λ n. drop n s) h

take_eq {ℓ} : {A : Type ℓ} (s : List A) (i j : ℕ) → i ≡ j → take i s ≡ take j s
take_eq s i j h = ap (λ n. take n s) h

pub drop-drop {ℓ} : {A : Type ℓ} (i j : ℕ) (s : List A) → drop j (drop i s) ≡ drop (i + j) s
unfolding drop
drop-drop zero j s = ap (λ n. drop n s) (omega arith)
drop-drop (suc i) zero [] = ground arith
drop-drop (suc i) (suc j) [] = sym (drop_nil (suc i + suc j))
drop-drop (suc i) j (c ∷ s) =
    drop-drop i j s ∙ drop_eq (c ∷ s) (suc (i + j)) (suc i + j) (omega arith)

pub drop-length {ℓ} : {A : Type ℓ} (s : List A) → drop (length s) s ≡ []
unfolding drop
drop-length [] = refl
drop-length (c ∷ s) = drop-length s

pub drop-cons {ℓ} :
    {A : Type ℓ} (i : ℕ) (s : List A) (c : A) (r : List A)
    → drop i s ≡ c ∷ r
    → (i < length s) × (drop (i + 1) s ≡ r)
unfolding drop
drop-cons zero [] c r h = absurd (ground arith)
drop-cons zero (d ∷ s) c r h = (omega arith, ground arith)
drop-cons (suc i) [] c r h = absurd (ground arith)
drop-cons (suc i) (d ∷ s) c r h = ground (arith, drop-cons i s c r h)

pub length-drop {ℓ} : {A : Type ℓ} (i : ℕ) (s : List A) → length (drop i s) ≡ length s - i
unfolding drop
length-drop zero s = omega arith
length-drop (suc i) [] = omega arith
length-drop (suc i) (c ∷ s) = omega (arith, length-drop i s)

pub drop-prefix :
    (i : ℕ) (l r s : Str)
    → i ≤ length s
    → drop i s ≡ l ++ r
    → (drop (i + length l) s ≡ r) × (i + length l ≤ length s)
unfolding drop
drop-prefix i [] r s k h = (ap (λ n. drop n s) (omega arith) ∙ h, omega arith)
drop-prefix i (c ∷ l) r s k h =
    let (inside, next) = drop-cons i s c (l ++ r) h in
    let it = drop-prefix (i + 1) l r s (omega arith) next in
    (ap (λ n. drop n s) (omega arith) ∙ it.0, omega (arith, it.1))

pub take-take {ℓ} :
    {A : Type ℓ} (i j : ℕ) (s : List A) → take i s ++ take j (drop i s) ≡ take (i + j) s
unfolding take drop
take-take zero j s = ap (λ n. take n s) (omega arith)
take-take (suc i) zero [] = ground arith
take-take (suc i) (suc j) [] = sym (take_nil (suc i + suc j))
take-take (suc i) j (c ∷ s) =
    ap (λ r. c ∷ r) (take-take i j s) ∙ take_eq (c ∷ s) (suc (i + j)) (suc i + j) (omega arith)

pub slice_empty : (input : Str) (i : ℕ) → slice input (i, i) ≡ []
unfolding slice take
slice_empty input i =
    let none_left : i - i ≡ 0 = omega arith in ap (λ n. take n (drop i input)) none_left

-- A slice goes on with the characters behind it.
pub slice_further :
    (input : Str) (pos from k : ℕ)
    → pos ≤ from
    → slice input (pos, from) ++ take k (drop from input) ≡ slice input (pos, from + k)
unfolding slice
slice_further input pos from k h =
    let whole : drop (from - pos) (drop pos input) ≡ drop from input =
      drop-drop pos (from - pos) input ∙ ap (λ n. drop n input) (omega arith) in
    rw (← whole)
      (take-take (from - pos) k (drop pos input) ∙ ap (λ n. take n (drop pos input)) (omega arith))

pub slice_next :
    (input : Str) (pos at : ℕ) (c : ℕ) (s : Str)
    → pos ≤ at
    → drop at input ≡ c ∷ s
    → slice input (pos, at) ++ (c ∷ []) ≡ slice input (pos, at + 1)
unfolding take
slice_next input pos at c s h e =
    ap (λ r. slice input (pos, at) ++ take 1 r) (sym e) ∙ slice_further input pos at 1 h

take-length : (s : Str) → take (length s) s ≡ s
unfolding take
take-length [] = refl
take-length (c ∷ s) = ap (λ r. c ∷ r) (take-length s)

pub slice_rest : (input : Str) (pos : ℕ) → slice input (pos, length input) ≡ drop pos input
unfolding slice
slice_rest input pos =
    ap (λ n. take n (drop pos input)) (sym (length-drop pos input)) ∙ take-length (drop pos input)

pub find-starts :
    (needle s : Str) (rel : ℕ) → find needle s ≡ some rel → starts_with needle (drop rel s) ≡ true
unfolding find drop
find-starts needle [] rel h = ground arith
find-starts needle (c ∷ s) rel h = elim (Bool-cases (starts_with needle (c ∷ s))) [
  | inl e ↦ ground (arith, e)
  | inr e ↦ elim (Option-cases (find needle s)) [
    | inl n ↦ absurd (ground arith)
    | inr (k, n) ↦
        let there : suc k ≡ rel = ground (arith, e, n) in
        subst (λ i. starts_with needle (drop i (c ∷ s)) ≡ true) there (find-starts needle s k n)
  ]
]
