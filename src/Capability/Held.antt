-- ===== src/Capability/Held.antt =====
-- crates/ikigai-core/src/capability.rs: `single_principal`, from what a set contains.
use ikigai_core.Prelude.{
  sym, ◌||◌, false, ◌≢◌, Str, list_eq, nat_eq, option_eq, ◌≡◌, refl, true, List, [], ◌∷◌, Option,
  none, some, arith, eq_refl, eq→≡, eq_cases, inl, inr, Option-cases,
}
use ikigai_core.TreeSet.{TreeSet, contains}
use ikigai_core.TreeSet.Sorted.{IsSorted, not-contains_of-Lt}
use ikigai_core.Capability.Scope.{is_deny_scope}
use ikigai_core.Capability.Ops.{named_by, survives}
use ikigai_core.Capability.Principal.{
  spell, principal_in, principals, single_principal, only, eq-spell,
}

module _ (oxiri : Str → Option Str) where
  -- No element of the set names a principal.
  abbrev pub NamesNobody : TreeSet → Type 0
  NamesNobody s = (k : Str) → contains s k ≡ true → principal_in oxiri k ≡ none

  abbrev pub NamesOnly : TreeSet → Str → Type 0
  NamesOnly s p = (k q : Str) → contains s k ≡ true → principal_in oxiri k ≡ some q → q ≡ p

  tail_contains : (x k : Str) (s : TreeSet) → contains s k ≡ true → contains (x ∷ s) k ≡ true
  unfolding contains
  tail_contains x k s h = ground arith

  head_contains : (x : Str) (s : TreeSet) → contains (x ∷ s) x ≡ true
  unfolding contains
  head_contains x s = ground (arith, eq_refl x)

  pub principals_none : (s : TreeSet) → NamesNobody s → principals oxiri s ≡ []
  unfolding principals
  principals_none [] h = refl
  principals_none (x ∷ s) h =
      ground
        (arith, h x (head_contains x s), principals_none s (λ k c. h k (tail_contains x k s c)))

  pub single_principal-none : (s : TreeSet) → NamesNobody s → single_principal oxiri s ≡ none
  unfolding single_principal
  single_principal-none s h = ground (arith, principals_none s h)

  -- In a sorted set the scope of a principal stands once.
  rest-NamesNobody :
      (p : Str) (x : Str) (s : TreeSet)
      → IsSorted (x ∷ s)
      → NamesOnly (x ∷ s) p
      → principal_in oxiri x ≡ some p
      → NamesNobody s
  rest-NamesNobody p x s sorted names e k c = elim (Option-cases (principal_in oxiri k)) [
    | inl h ↦ h
    | inr (q, h) ↦
        let same : q ≡ p = names k q (tail_contains x k s c) h in
        absurd (
          ground
            (arith, eq-spell oxiri x p e, eq-spell oxiri k q h, not-contains_of-Lt x s sorted.0))
  ]

  pub principals_only :
      (p : Str) (s : TreeSet)
      → IsSorted s
      → principal_in oxiri (spell p) ≡ some p
      → contains s (spell p) ≡ true
      → NamesOnly s p
      → principals oxiri s ≡ p ∷ []
  unfolding principals contains
  principals_only p [] sorted e c names = ground arith
  principals_only p (x ∷ s) sorted e c names = elim (Option-cases (principal_in oxiri x)) [
    | inl h ↦ elim (eq_cases (spell p) x) [
      | inl same ↦ absurd (ground (arith, same))
      | inr other ↦ ground (
        arith,
        principals_only p s sorted.1 e (ground (arith, other.1))
            (λ k q m. names k q (tail_contains x k s m)),
      )
    ]
    | inr (q, h) ↦
        let same : q ≡ p = names x q (head_contains x s) h in
        ground (
          arith,
          same,
          principals_none s (rest-NamesNobody p x s sorted names (ground (arith, same))),
        )
  ]

  pub single_principal_only :
      (p : Str) (s : TreeSet)
      → IsSorted s
      → principal_in oxiri (spell p) ≡ some p
      → contains s (spell p) ≡ true
      → NamesOnly s p
      → single_principal oxiri s ≡ some p
  unfolding single_principal
  single_principal_only p s sorted e c names = ground (arith, principals_only p s sorted e c names)

  -- The other way: what the one principal says of the elements.
  principal_is_listed :
      (s : TreeSet) (k q : Str)
      → contains s k ≡ true
      → principal_in oxiri k ≡ some q
      → contains (principals oxiri s) q ≡ true
  unfolding principals contains
  principal_is_listed [] k q c h = ground arith
  principal_is_listed (x ∷ s) k q c h = elim (eq_cases k x) [
    | inl e ↦ ground (arith, e, eq_refl q)
    | inr e ↦ ground (arith, e, principal_is_listed s k q)
  ]

  listed_is_held :
      (s : TreeSet) (q : Str)
      → contains (principals oxiri s) q ≡ true
      → (contains s (spell q) ≡ true) × (principal_in oxiri (spell q) ≡ some q)
  unfolding principals contains
  listed_is_held [] q c = ground arith
  listed_is_held (x ∷ s) q c = elim (Option-cases (principal_in oxiri x)) [
    | inl h ↦ ground (arith, listed_is_held s q)
    | inr (r, h) ↦ elim (eq_cases q r) [
      | inl e ↦ ground (arith, e, eq-spell oxiri x r h, eq_refl x)
      | inr e ↦ ground (arith, e, listed_is_held s q)
    ]
  ]

  only_is_listed : (ps : List Str) (p : Str) → only oxiri ps ≡ some p → ps ≡ p ∷ []
  only_is_listed [] p h = ground arith
  only_is_listed (q ∷ []) p h = ground arith
  only_is_listed (q ∷ r ∷ ps) p h = ground arith

  -- `single_principal` answers `p`: the set holds the scope of `p`, which names `p`, and names
  -- nobody else.
  pub held_of-single_principal :
      (s : TreeSet) (p : Str)
      → single_principal oxiri s ≡ some p
      → (contains s (spell p) ≡ true) × (principal_in oxiri (spell p) ≡ some p) × NamesOnly s p
  unfolding single_principal contains
  held_of-single_principal s p h =
      let e = only_is_listed (principals oxiri s) p h in
      let (held, named) = listed_is_held s p (ground (arith, e, eq_refl p)) in
      (held, named, λ k q c m. ground (arith, e, principal_is_listed s k q c m, eq→≡ q p))

module _ (oxiri : Str → Option Str) (s r : TreeSet) (k q : Str)
    (named : principal_in oxiri k ≡ some q) where
  pub named_mine : single_principal oxiri s ≡ some q → named_by oxiri s k ≡ true
  unfolding named_by principal_in
  named_mine e = rw (named, e) (eq_refl (some q))

  pub named_other : single_principal oxiri s ≢ some q → named_by oxiri s k ≡ false
  unfolding named_by principal_in
  named_other e = elim (eq_cases (single_principal oxiri s) (some q)) [
    | inl same ↦ absurd (e same.0)
    | inr other ↦ rw named other.1
  ]

  pub survives_mine : single_principal oxiri s ≡ some q → survives oxiri s r k ≡ contains r k
  unfolding survives principal_in
  survives_mine e = rw (named, e, eq_refl (some q))

  pub survives_other : single_principal oxiri s ≢ some q → survives oxiri s r k ≡ false
  unfolding survives principal_in
  survives_other e = elim (eq_cases (some q) (single_principal oxiri s)) [
    | inl same ↦ absurd (e (sym same.0))
    | inr other ↦ rw (named, other.1)
  ]

module _ (oxiri : Str → Option Str) (s r : TreeSet) (k : Str)
    (nobody : principal_in oxiri k ≡ none) where
  pub named_nobody : named_by oxiri s k ≡ true
  unfolding named_by principal_in
  named_nobody = rw nobody

  pub survives_nobody : survives oxiri s r k ≡ (is_deny_scope k || contains r k)
  unfolding survives principal_in
  survives_nobody = rw nobody
