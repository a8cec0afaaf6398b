-- ===== src/Capability/Identity.antt =====
-- crates/ikigai-core/src/capability.rs: the principal under `attenuate` and `clamp`.
use ikigai_core.Prelude.{
  is_some, is_none, length, ltb, sym, ◌∙◌, [], ◌∷◌, Str, list_eq, nat_eq, option_eq, ◌≡◌, refl,
  true, ◌&&◌, ◌||◌, List, Option, none, some, arith, keep, eq_refl, eq→≡, eq_cases, Option-cases,
  Bool-cases, inl, inr, if◌then◌else◌,
}
use ikigai_core.TreeSet.{
  TreeSet, contains, insert, collect, contains-insert, contains-keep, contains-extend,
}
use ikigai_core.TreeSet.Sorted.{IsSorted, insert-IsSorted}
use ikigai_core.Capability.Scope.{is_deny_scope}
use ikigai_core.Capability.Principal.{
  spell, principal_in, principals, only, at_most_one_principal, single_principal, eq-spell,
  not-deny_of-principal,
}
use ikigai_core.Capability.Ops.{
  Kind, root, scoped_to, Capability, survives, attenuated, attenuate, clamp, principal,
}
use ikigai_core.Capability.Held.{
  single_principal-none, single_principal_only, held_of-single_principal,
}
use ikigai_core.Capability.WellFormed.{IsWellFormed, attenuated-IsSorted}

module _ (oxiri : Str → Option Str) where
  pub contains-attenuated :
      (h r : TreeSet) (k : Str)
      → contains (attenuated oxiri h r) k
        ≡ (contains r k && is_deny_scope k || contains h k && survives oxiri h r k)
  unfolding attenuated
  contains-attenuated h r k = ground (
    arith,
    contains-extend (keep (survives oxiri h r) h) (keep is_deny_scope r) k,
    contains-keep is_deny_scope r k,
    contains-keep (survives oxiri h r) h k,
  )

  -- A principal that is left was the held one, and was asked for.
  pub attenuated_names :
      (h r : TreeSet) (k q : Str)
      → contains (attenuated oxiri h r) k ≡ true
      → principal_in oxiri k ≡ some q
      → (contains r k ≡ true) × (single_principal oxiri h ≡ some q)
  unfolding survives
  attenuated_names h r k q c m = ground (
    arith,
    contains-attenuated h r k,
    not-deny_of-principal oxiri k q m,
    eq→≡ (some q) (single_principal oxiri h),
  )

  abbrev pub named_in : TreeSet → Option Str → Option Str
  named_in r none = none
  named_in r (some p) = if contains r (spell p) then some p else none

  attenuated_keeps :
      (h r : TreeSet) (p : Str)
      → IsSorted h
      → single_principal oxiri h ≡ some p
      → contains r (spell p) ≡ true
      → single_principal oxiri (attenuated oxiri h r) ≡ some p
  unfolding survives
  attenuated_keeps h r p s e c =
      let (held, named, others) = held_of-single_principal oxiri h p e in
      single_principal_only oxiri p (attenuated oxiri h r) (attenuated-IsSorted oxiri h r s) named
        (ground (arith, contains-attenuated h r (spell p), eq_refl (some p)))
        (λ k q m n. let (asked, mine) = attenuated_names h r k q m n in ground arith)

  attenuated_sheds :
      (h r : TreeSet)
      → named_in r (single_principal oxiri h) ≡ none
      → single_principal oxiri (attenuated oxiri h r) ≡ none
  attenuated_sheds h r e = single_principal-none oxiri (attenuated oxiri h r) λ k m.
      elim (Option-cases (principal_in oxiri k)) [
        | inl n ↦ n
        | inr (q, n) ↦
            let (asked, mine) = attenuated_names h r k q m n in
            absurd (ground (arith, eq-spell oxiri k q n))
      ]

  -- The principal of the narrowed set: the held one, if the request names it.
  pub single_principal-attenuated :
      (h r : TreeSet)
      → IsSorted h
      → single_principal oxiri (attenuated oxiri h r) ≡ named_in r (single_principal oxiri h)
  single_principal-attenuated h r s = elim (Option-cases (single_principal oxiri h)) [
    | inl e ↦ ground (arith, e, attenuated_sheds h r)
    | inr (p, e) ↦ elim (Bool-cases (contains r (spell p))) [
      | inl c ↦ ground (arith, e, c, attenuated_keeps h r p s e c)
      | inr c ↦ ground (arith, e, c, attenuated_sheds h r)
    ]
  ]

  length-principals :
      (s : TreeSet)
      → length (keep (λ k. is_some (principal_in oxiri k)) s) ≡ length (principals oxiri s)
  unfolding keep principals
  length-principals [] = refl
  length-principals (x ∷ s) = elim (Option-cases (principal_in oxiri x)) [
    | inl n ↦ ground (arith, n, length-principals s)
    | inr (q, n) ↦ ground (arith, n, length-principals s)
  ]

  only_several : (ps : List Str) → ltb 1 (length ps) ≡ true → only oxiri ps ≡ none
  only_several [] h = refl
  only_several (p ∷ []) h = absurd (ground arith)
  only_several (p ∷ q ∷ ps) h = refl

  -- Several principals are none, kept or not.
  single_principal-at_most_one :
      (s : TreeSet)
      → single_principal oxiri (at_most_one_principal oxiri s) ≡ single_principal oxiri s
  unfolding at_most_one_principal
  single_principal-at_most_one s =
      elim (Bool-cases (ltb 1 (length (keep (λ k. is_some (principal_in oxiri k)) s)))) [
        | inl several ↦
            rw (several, at_most_one_principal)
              (nobody
                ∙ sym (
                    unfold single_principal in
                    only_several (principals oxiri s)
                      (ground (arith, several, length-principals s))))
        | inr few ↦ rw (few, at_most_one_principal) refl
      ]
    where
      nobody : single_principal oxiri (keep (λ k. is_none (principal_in oxiri k)) s) ≡ none
      nobody = single_principal-none oxiri (keep (λ k. is_none (principal_in oxiri k)) s) λ k m.
          elim (Option-cases (principal_in oxiri k)) [
            | inl n ↦ n
            | inr (q, n) ↦
                absurd (ground (arith, contains-keep (λ j. is_none (principal_in oxiri j)) s k, n))
          ]

  -- The principal that a request leaves: of root the one that it names, if it names one only.
  abbrev pub left_of : Kind → TreeSet → Option Str
  left_of root r = single_principal oxiri r
  left_of (scoped_to h) r = named_in r (single_principal oxiri h)

  principal-attenuate_kind :
      (kind : Kind) (ks : List Str)
      → IsWellFormed (record { kind = kind })
      → principal oxiri (attenuate oxiri (record { kind = kind }) ks) ≡ left_of kind (collect ks)
  unfolding principal attenuate
  principal-attenuate_kind root ks w = single_principal-at_most_one (collect ks)
  principal-attenuate_kind (scoped_to h) ks w = single_principal-attenuated h (collect ks) w

  -- A scoped capability that is attenuated keeps its principal exactly when the request names its
  -- scope, and otherwise has none. Root attenuated acts as the principal that the request names,
  -- if it names exactly one, and otherwise as none.
  pub principal-attenuate :
      (c : Capability) (ks : List Str)
      → IsWellFormed c
      → principal oxiri (attenuate oxiri c ks) ≡ left_of c.kind (collect ks)
  principal-attenuate c ks w = principal-attenuate_kind c.kind ks w

  pub clamped_names :
      (h r : TreeSet) (p : Str)
      → IsSorted h
      → single_principal oxiri h ≡ some p
      → single_principal oxiri (insert (spell p) (attenuated oxiri h r)) ≡ some p
  clamped_names h r p s e =
      let (held, named, others) = held_of-single_principal oxiri h p e in
      let kept = attenuated oxiri h r in
      single_principal_only oxiri p (insert (spell p) kept)
        (insert-IsSorted (spell p) kept (attenuated-IsSorted oxiri h r s)) named
        (ground (arith, contains-insert (spell p) (spell p) kept, eq_refl (spell p)))
        λ k q m n. elim (eq_cases k (spell p)) [
          | inl same ↦ ground (arith, same)
          | inr other ↦
              let (asked, mine) =
                attenuated_names h r k q (ground (arith, contains-insert (spell p) k kept, other))
                  n in
              ground arith
        ]

  principal-clamp_kind :
      (h : TreeSet) (k : Kind)
      → IsSorted h
      → principal oxiri (clamp oxiri (record { kind = scoped_to h }) (record { kind = k }))
        ≡ principal oxiri (record { kind = scoped_to h })
  unfolding clamp principal
  principal-clamp_kind h root s = refl
  principal-clamp_kind h (scoped_to r) s = elim (Option-cases (single_principal oxiri h)) [
    | inl e ↦ ground (arith, e, single_principal-attenuated h (collect r) s)
    | inr (p, e) ↦ ground (arith, e, clamped_names h (collect r) p s e)
  ]

  -- Clamping a scoped capability keeps its principal whatever the carried capability holds.
  pub principal-clamp :
      (h : TreeSet) (carried : Capability)
      → IsSorted h
      → principal oxiri (clamp oxiri (record { kind = scoped_to h }) carried)
        ≡ principal oxiri (record { kind = scoped_to h })
  principal-clamp h carried s = principal-clamp_kind h carried.kind s
