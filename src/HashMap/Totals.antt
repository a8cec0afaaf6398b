-- ===== src/HashMap/Totals.antt =====
-- The number of pairs, and a size summed over them, after each write.
use ikigai_core.Prelude.{
  zero, eq_refl, get_elem?, ap, ◌<◌, Eq, ◌≡◌, refl, ℕ, ◌+◌, suc, [], ◌∷◌, Option, none, some, arith,
  inl, inr, eq_cases, length,
}
use ikigai_core.HashMap.{true, is_some, keys, HashMap, get, insert, remove, modify}

unfoldable pub total {ℓ κ} : {K : Type ℓ} {V : Type κ} → (V → ℕ) → HashMap K V → ℕ
total size [] = 0
total size ((k, v) ∷ m) = size v + total size m

-- What the lookup of a key contributes.
abbrev pub share_of {κ} : {V : Type κ} → (V → ℕ) → Option V → ℕ
share_of size none = 0
share_of size (some v) = size v

abbrev pub count_of {κ} : {V : Type κ} → Option V → ℕ
count_of none = 0
count_of (some v) = 1

module _ {ℓ κ} {K : Type ℓ} {V : Type κ} ⦃e : Eq K⦄ where
  pub total-insert :
      (size : V → ℕ) (m : HashMap K V) (k : K) (v : V)
      → total size (insert k v m) + share_of size (get m k) ≡ total size m + size v
  unfolding total insert get
  total-insert size [] k v = omega arith
  total-insert size ((i, w) ∷ m) k v = elim (eq_cases i k) [
    | inl same ↦ rw same.1 (omega arith)
    | inr other ↦ rw other.1 (omega (arith, total-insert size m k v))
  ]

  pub total-remove :
      (size : V → ℕ) (m : HashMap K V) (k : K)
      → total size (remove k m) + share_of size (get m k) ≡ total size m
  unfolding total remove get
  total-remove size [] k = omega arith
  total-remove size ((i, w) ∷ m) k = elim (eq_cases i k) [
    | inl same ↦ rw same.1 (omega arith)
    | inr other ↦ rw other.1 (omega (arith, total-remove size m k))
  ]

  pub total-modify :
      (size : V → ℕ) (m : HashMap K V) (k : K) (f : V → V)
      → ((v : V) → size (f v) ≡ size v)
      → total size (modify k f m) ≡ total size m
  unfolding total modify
  total-modify size [] k f h = refl
  total-modify size ((i, w) ∷ m) k f h = elim (eq_cases i k) [
    | inl same ↦ rw same.1 (omega (arith, h w))
    | inr other ↦ rw other.1 (omega (arith, total-modify size m k f h))
  ]

  pub length-insert :
      (m : HashMap K V) (k : K) (v : V)
      → length (insert k v m) + count_of (get m k) ≡ suc (length m)
  unfolding insert get
  length-insert [] k v = omega arith
  length-insert ((i, w) ∷ m) k v = elim (eq_cases i k) [
    | inl same ↦ rw same.1 (omega arith)
    | inr other ↦ rw other.1 (omega (arith, length-insert m k v))
  ]

  pub length-remove :
      (m : HashMap K V) (k : K) → length (remove k m) + count_of (get m k) ≡ length m
  unfolding remove get
  length-remove [] k = omega arith
  length-remove ((i, w) ∷ m) k = elim (eq_cases i k) [
    | inl same ↦ rw same.1 (omega arith)
    | inr other ↦ rw other.1 (omega (arith, length-remove m k))
  ]

  pub length-modify : (m : HashMap K V) (k : K) (f : V → V) → length (modify k f m) ≡ length m
  unfolding modify
  length-modify [] k f = refl
  length-modify ((i, w) ∷ m) k f = elim (eq_cases i k) [
    | inl same ↦ rw same.1
    | inr other ↦ rw other.1 (ap suc (length-modify m k f))
  ]

  -- A key found by its place is a key of the table.
  pub get_of-get_elem? :
      (m : HashMap K V) (i : ℕ)
      → i < length m
      → (k : K) × (get_elem? (keys m) i ≡ some k) × (is_some (get m k) ≡ true)
  unfolding get
  get_of-get_elem? [] i h = elim h [ ]
  get_of-get_elem? ((j, w) ∷ m) zero h = (j, refl, ground (arith, eq_refl j))
  get_of-get_elem? ((j, w) ∷ m) (suc i) h =
      let (k, found, there_it_is) = get_of-get_elem? m i (omega arith) in (k, found, ground arith)
