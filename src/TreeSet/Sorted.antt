-- ===== src/TreeSet/Sorted.antt =====
-- The order of a `BTreeSet`, and sets that hold the same elements.
use Prim.Native.Nat.{Ordering}
use ikigai_core.Prelude.{
  Str, list_eq, nat_eq, ◌≡◌, refl, Bool, true, false, List, [], ◌∷◌, arith, keep, str_cmp,
  str_cmp_eq, str_cmp_gt, Lt, Lt_trans, Lt_irrefl, All, All-mono, All-keep, eq_refl, eq_cases, inl,
  inr,
}
use ikigai_core.TreeSet.{TreeSet, contains, insert, collect, extend}

abbrev pub IsSorted : TreeSet → Type 0
IsSorted [] = Unit
IsSorted (x ∷ s) = All (Lt x) s × IsSorted s

pub keep-IsSorted : (p : Str → Bool) (s : TreeSet) → IsSorted s → IsSorted (keep p s)
unfolding keep
keep-IsSorted p [] h = tt
keep-IsSorted p (x ∷ s) h =
    elim (p x) as (λ b. IsSorted (elim b [ true ↦ x ∷ keep p s | false ↦ keep p s ])) [
      | true ↦ (All-keep (Lt x) p s h.0, keep-IsSorted p s h.1)
      | false ↦ keep-IsSorted p s h.1
    ]

All-Lt-insert : (x k : Str) (s : TreeSet) → Lt x k → All (Lt x) s → All (Lt x) (insert k s)
unfolding insert
All-Lt-insert x k [] h a = (h, tt)
All-Lt-insert x k (y ∷ s) h a =
    elim (str_cmp k y)
      as (λ o.
        All (Lt x) (elim o [
          | Ordering.lt ↦ k ∷ y ∷ s
          | Ordering.eq ↦ y ∷ s
          | Ordering.gt ↦ y ∷ insert k s
        ])) [
          | Ordering.lt ↦ (h, a)
          | Ordering.eq ↦ a
          | Ordering.gt ↦ (a.0, All-Lt-insert x k s h a.1)
        ]

pub insert-IsSorted : (k : Str) (s : TreeSet) → IsSorted s → IsSorted (insert k s)
unfolding insert
insert-IsSorted k [] h = (tt, tt)
insert-IsSorted k (x ∷ s) h = place (insert-IsSorted k s h.1) (str_cmp k x) refl
  where
    place :
        IsSorted (insert k s)
        → (o : Ordering) → str_cmp k x ≡ o
        → IsSorted (elim o [
          | Ordering.lt ↦ k ∷ x ∷ s
          | Ordering.eq ↦ x ∷ s
          | Ordering.gt ↦ x ∷ insert k s
        ])
    place ih Ordering.lt e = ((e, All-mono (λ y q. Lt_trans k x y e q) s h.0), h)
    place ih Ordering.eq e = h
    place ih Ordering.gt e = (All-Lt-insert x k s (str_cmp_gt k x e) h.0, ih)

pub collect-IsSorted : (ks : List Str) → IsSorted (collect ks)
unfolding collect
collect-IsSorted [] = tt
collect-IsSorted (k ∷ ks) = insert-IsSorted k (collect ks) (collect-IsSorted ks)

pub extend-IsSorted : (s : TreeSet) (ks : List Str) → IsSorted s → IsSorted (extend s ks)
unfolding extend
extend-IsSorted s [] h = h
extend-IsSorted s (k ∷ ks) h = extend-IsSorted (insert k s) ks (insert-IsSorted k s h)

pub not-contains_of-Lt : (x : Str) (s : TreeSet) → All (Lt x) s → contains s x ≡ false
unfolding contains
not-contains_of-Lt x [] a = refl
not-contains_of-Lt x (y ∷ s) a = elim (eq_cases x y) [
  | inl e ↦ absurd (Lt_irrefl y (ground (arith, e, a.0)))
  | inr e ↦ ground (arith, e, not-contains_of-Lt x s a.1)
]

All-Lt-above : (x y : Str) (s : TreeSet) → Lt x y → All (Lt y) s → All (Lt x) s
All-Lt-above x y s h a = All-mono (λ z q. Lt_trans x y z h q) s a

-- The head of a sorted set is below whatever else it holds.
absent_below : (x y : Str) (s : TreeSet) → Lt x y → IsSorted (y ∷ s) → contains (y ∷ s) x ≡ false
absent_below x y s h a = not-contains_of-Lt x (y ∷ s) (h, All-Lt-above x y s h a.0)

contains_head : (x : Str) (s : TreeSet) → contains (x ∷ s) x ≡ true
unfolding contains
contains_head x s = ground (arith, eq_refl x)

contains_tail :
    (x : Str) (s t : TreeSet)
    → IsSorted (x ∷ s)
    → IsSorted (x ∷ t)
    → ((k : Str) → contains (x ∷ s) k ≡ contains (x ∷ t) k)
    → (k : Str) → contains s k ≡ contains t k
unfolding contains
contains_tail x s t a b h k = elim (eq_cases k x) [
  | inl e ↦ ground (arith, e, not-contains_of-Lt x s a.0, not-contains_of-Lt x t b.0)
  | inr e ↦ ground (arith, e, h k)
]

pub eq_of-contains :
    (s t : TreeSet) → IsSorted s → IsSorted t → ((k : Str) → contains s k ≡ contains t k) → s ≡ t
eq_of-contains [] [] a b h = refl
eq_of-contains [] (y ∷ t) a b h = absurd (unfold contains in ground (arith, h y, contains_head y t))
eq_of-contains (x ∷ s) [] a b h = absurd (unfold contains in ground (arith, h x, contains_head x s))
eq_of-contains (x ∷ s) (y ∷ t) a b h = meet (λ q. eq_of-contains s t a.1 b.1 q) (str_cmp x y) refl
  where
    meet :
        (((k : Str) → contains s k ≡ contains t k) → s ≡ t)
        → (o : Ordering) → str_cmp x y ≡ o
        → x ∷ s ≡ y ∷ t
    meet ih Ordering.lt e = absurd (ground (arith, h x, contains_head x s, absent_below x y t e b))
    meet ih Ordering.eq e =
        let p = str_cmp_eq x y e in
        let same = contains_tail x s t a (rw p b) (rw p (rw p at h)) in cc (p, ih same)
    meet ih Ordering.gt e =
        absurd (ground (arith, h y, contains_head y t, absent_below y x s (str_cmp_gt x y e) a))
