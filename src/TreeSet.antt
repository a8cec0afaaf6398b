-- ===== src/TreeSet.antt =====
-- `BTreeSet<String>`: the elements in ascending order, each once.
pub mod Sorted
use Prim.Native.Nat.{Ordering}
use ikigai_core.Prelude.{
  Str, list_eq, nat_eq, ◌==◌, ◌≡◌, refl, Bool, true, false, ◌||◌, ◌&&◌, List, [], ◌∷◌, arith, keep,
  any, str_cmp, str_cmp_eq, if◌then◌else◌, Eq, eq_refl, eq→≡, eq_cases, inl, inr, ◌⊎◌, all,
  Bool-cases,
}

abbrev pub TreeSet : Type 0
TreeSet = List Str

-- `BTreeSet::contains`
unfoldable pub contains : TreeSet → Str → Bool
contains [] k = false
contains (x ∷ s) k = k == x || contains s k

-- `BTreeSet::insert`
unfoldable pub insert : Str → TreeSet → TreeSet
insert k [] = k ∷ []
insert k (x ∷ s) = elim (str_cmp k x) [
  | Ordering.lt ↦ k ∷ x ∷ s
  | Ordering.eq ↦ x ∷ s
  | Ordering.gt ↦ x ∷ insert k s
]

-- `iter().collect::<BTreeSet<_>>()`
unfoldable pub collect : List Str → TreeSet
unfolding insert
collect [] = []
collect (k ∷ ks) = insert k (collect ks)

-- `extend`
unfoldable pub extend : TreeSet → List Str → TreeSet
unfolding insert
extend s [] = s
extend s (k ∷ ks) = extend (insert k s) ks

pub contains-insert : (k j : Str) (s : TreeSet) → contains (insert k s) j ≡ (j == k || contains s j)
unfolding contains insert
contains-insert k j [] = refl
contains-insert k j (x ∷ s) = ground (arith, contains-insert k j s, str_cmp_eq k x)

pub contains-keep :
    (p : Str → Bool) (s : TreeSet) (k : Str) → contains (keep p s) k ≡ (contains s k && p k)
unfolding contains keep
contains-keep p [] k = refl
contains-keep p (x ∷ s) k = elim (eq_cases k x) [
  | inl h ↦ ground (arith, contains-keep p s k, h)
  | inr h ↦ ground (arith, contains-keep p s k, h)
]

pub contains-extend :
    (s : TreeSet) (ks : List Str) (j : Str)
    → contains (extend s ks) j ≡ (contains ks j || contains s j)
unfolding contains extend
contains-extend s [] j = refl
contains-extend s (k ∷ ks) j =
    ground (arith, contains-extend (insert k s) ks j, contains-insert k j s)

pub contains-collect : (ks : List Str) (j : Str) → contains (collect ks) j ≡ contains ks j
unfolding contains collect
contains-collect [] j = refl
contains-collect (k ∷ ks) j =
    ground (arith, contains-collect ks j, contains-insert k j (collect ks))

-- An element at which a test holds witnesses `any`.
pub any_of-contains :
    (p : Str → Bool) (s : TreeSet) (k : Str) → contains s k ≡ true → p k ≡ true → any p s ≡ true
unfolding contains
any_of-contains p [] k h q = ground arith
any_of-contains p (x ∷ s) k h q = elim (eq_cases k x) [
  | inl e ↦ ground (arith, e)
  | inr e ↦ ground (arith, e, any_of-contains p s k)
]

pub contains_of-any :
    (p : Str → Bool) (s : TreeSet)
    → any p s ≡ true
    → (k : Str) × (contains s k ≡ true) × (p k ≡ true)
unfolding contains
contains_of-any p [] h = ground arith
contains_of-any p (x ∷ s) h = elim (Bool-cases (p x)) [
  | inl e ↦ (x, ground (arith, eq_refl x), e)
  | inr e ↦ let (k, c, q) = contains_of-any p s (ground arith) in (k, ground arith, q)
]
