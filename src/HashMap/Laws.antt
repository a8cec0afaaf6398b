-- ===== src/HashMap/Laws.antt =====
-- Lookups after writes, and predicates on all pairs.
use ikigai_core.Prelude.{
  subst, of_some, sym, sym, Eq, ◌==◌, ◌≡◌, ◌≢◌, refl, [], ◌∷◌, none, some, if◌then◌else◌, All,
  arith, inl, inr, eq_cases,
}
use ikigai_core.HashMap.{retain, Bool, HashMap, get, insert, remove, modify}

module _ {ℓ κ} {K : Type ℓ} {V : Type κ} ⦃e : Eq K⦄ where
  -- No key stands twice.
  abbrev pub Distinct : HashMap K V → Type κ
  Distinct [] = Unit
  Distinct ((k, v) ∷ m) = (get m k ≡ none) × Distinct m

  pub get-insert :
      (m : HashMap K V) (k j : K) (v : V)
      → get (insert k v m) j ≡ (if k == j then some v else get m j)
  unfolding get insert
  get-insert [] k j v = refl
  get-insert ((i, w) ∷ m) k j v =
      ground (arith, get-insert m k j v, e.test_iff k j, e.test_iff i k, e.test_iff i j)

  pub get-remove_ne : (m : HashMap K V) (k j : K) → k ≢ j → get (remove k m) j ≡ get m j
  unfolding get remove
  get-remove_ne [] k j h = refl
  get-remove_ne ((i, w) ∷ m) k j h =
      ground (arith, get-remove_ne m k j h, e.test_iff i k, e.test_iff i j)

  pub get-remove_self : (m : HashMap K V) (k : K) → Distinct m → get (remove k m) k ≡ none
  unfolding get remove
  get-remove_self [] k d = refl
  get-remove_self ((i, w) ∷ m) k d = ground (arith, get-remove_self m k d.1, e.test_iff i k, d.0)

  pub get-modify :
      (m : HashMap K V) (f : V → V) (k j : K)
      → get (modify k f m) j
        ≡ (if k == j then elim (get m j) [ none ↦ none | some v ↦ some (f v) ] else get m j)
  unfolding get modify
  get-modify [] f k j = ground arith
  get-modify ((i, w) ∷ m) f k j =
      ground (arith, get-modify m f k j, e.test_iff k j, e.test_iff i k, e.test_iff i j)

  pub insert-Distinct : (m : HashMap K V) (k : K) (v : V) → Distinct m → Distinct (insert k v m)
  unfolding get insert
  insert-Distinct [] k v d = (refl, tt)
  insert-Distinct ((i, w) ∷ m) k v d = elim (eq_cases i k) [
    | inl same ↦ rw same.1 d
    | inr other ↦ rw other.1 (
      ground (arith, get-insert m k i v, d.0, e.test_iff k i, other.0),
      insert-Distinct m k v d.1,
    )
  ]

  pub remove-Distinct : (m : HashMap K V) (k : K) → Distinct m → Distinct (remove k m)
  unfolding get remove
  remove-Distinct [] k d = tt
  remove-Distinct ((i, w) ∷ m) k d = elim (eq_cases i k) [
    | inl same ↦ rw same.1 d.1
    | inr other ↦
        rw other.1
          (ground (arith, get-remove_ne m k i (λ q. other.0 (sym q)), d.0), remove-Distinct m k d.1)
  ]

  pub modify-Distinct : (m : HashMap K V) (k : K) (f : V → V) → Distinct m → Distinct (modify k f m)
  unfolding get modify
  modify-Distinct [] k f d = tt
  modify-Distinct ((i, w) ∷ m) k f d = elim (eq_cases i k) [
    | inl same ↦ rw same.1 d
    | inr other ↦ rw other.1 (
      ground (arith, get-modify m f k i, d.0, e.test_iff k i, other.0),
      modify-Distinct m k f d.1,
    )
  ]

module _ {ℓ κ μ} {K : Type ℓ} {V : Type κ} ⦃e : Eq K⦄ (P : K × V → Type μ) where
  pub All-get : (m : HashMap K V) (k : K) (v : V) → All P m → get m k ≡ some v → P (k, v)
  unfolding get
  All-get [] k v a h = absurd (ground arith)
  All-get ((i, w) ∷ m) k v a h = elim (eq_cases i k) [
    | inl same ↦ subst (λ (p : K × V). P p) (ground (arith, same.0, of_some (rw same.1 at h))) a.0
    | inr other ↦ All-get m k v a.1 (rw other.1 at h)
  ]

  pub All-insert : (m : HashMap K V) (k : K) (v : V) → All P m → P (k, v) → All P (insert k v m)
  unfolding insert
  All-insert [] k v a h = (h, tt)
  All-insert ((i, w) ∷ m) k v a h = elim (eq_cases i k) [
    | inl same ↦ rw same.1 (subst (λ (j : K). P (j, v)) (sym same.0) h, a.1)
    | inr other ↦ rw other.1 (a.0, All-insert m k v a.1 h)
  ]

  pub All-remove : (m : HashMap K V) (k : K) → All P m → All P (remove k m)
  unfolding remove
  All-remove [] k a = tt
  All-remove ((i, w) ∷ m) k a = elim (eq_cases i k) [
    | inl same ↦ rw same.1 a.1
    | inr other ↦ rw other.1 (a.0, All-remove m k a.1)
  ]

  -- A write to one key, where what is read there is known.
  pub All-modify_at :
      (m : HashMap K V) (k : K) (f : V → V) (v : V)
      → get m k ≡ some v
      → P (k, f v)
      → All P m
      → All P (modify k f m)
  unfolding get modify
  All-modify_at [] k f v e h a = tt
  All-modify_at ((i, w) ∷ m) k f v e h a = elim (eq_cases i k) [
    | inl same ↦
        rw same.1
          (subst (λ (p : K × V). P p) (ground (arith, same.0, of_some (rw same.1 at e))) h, a.1)
    | inr other ↦ rw other.1 (a.0, All-modify_at m k f v (rw other.1 at e) h a.1)
  ]

  pub All-modify :
      (m : HashMap K V) (k : K) (f : V → V)
      → ((j : K) (v : V) → P (j, v) → P (j, f v))
      → All P m
      → All P (modify k f m)
  unfolding modify
  All-modify [] k f h a = tt
  All-modify ((i, w) ∷ m) k f h a = elim (eq_cases i k) [
    | inl same ↦ rw same.1 (h i w a.0, a.1)
    | inr other ↦ rw other.1 (a.0, All-modify m k f h a.1)
  ]

module _ {ℓ κ} {K : Type ℓ} {V : Type κ} ⦃e : Eq K⦄ (q : K → Bool) where
  -- A table retained by its keys.
  pub get-retain :
      (m : HashMap K V) (j : K) → get (retain (λ k _. q k) m) j ≡ (if q j then get m j else none)
  unfolding get retain
  get-retain [] j = ground arith
  get-retain ((i, w) ∷ m) j = elim (eq_cases i j) [
    | inl same ↦ ground (arith, same, get-retain m j)
    | inr other ↦ ground (arith, other.1, get-retain m j)
  ]
