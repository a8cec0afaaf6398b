-- ===== src/Capability/Narrowing.antt =====
-- crates/ikigai-core/src/capability.rs: `attenuate`, scope by scope.
use ikigai_core.Capability.Held.{
  named_other, named_mine, survives_other, survives_nobody, named_nobody, survives_mine,
}
use ikigai_core.Prelude.{
  eq_cases, Str, list_eq, nat_eq, option_eq, ◌≡◌, true, ◌&&◌, ◌||◌, List, Option, some, arith,
  Option-cases, inl, inr,
}
use ikigai_core.TreeSet.{TreeSet, contains, collect, contains-collect}
use ikigai_core.TreeSet.Sorted.{IsSorted, eq_of-contains}
use ikigai_core.Capability.Scope.{is_deny_scope}
use ikigai_core.Capability.Principal.{
  principal_in, single_principal, eq-spell, not-deny_of-principal,
}
use ikigai_core.Capability.Ops.{scoped_to, survives, attenuated, attenuate, allowed, allows}
use ikigai_core.Capability.WellFormed.{attenuated-IsSorted}
use ikigai_core.Capability.Identity.{contains-attenuated, single_principal-attenuated}

module _ (oxiri : Str → Option Str) where
  pub allowed-attenuated :
      (h r : TreeSet) (k : Str)
      → IsSorted h
      → allowed oxiri (attenuated oxiri h r) k ≡ (allowed oxiri h k && contains r k)
  unfolding allowed
  allowed-attenuated h r k s = elim (Option-cases (principal_in oxiri k)) [
    | inl n ↦ ground (
      arith,
      contains-attenuated oxiri h r k,
      named_nobody oxiri h r k n,
      named_nobody oxiri (attenuated oxiri h r) r k n,
      survives_nobody oxiri h r k n,
    )
    | inr (q, n) ↦ elim (eq_cases (single_principal oxiri h) (some q)) [
      | inl mine ↦ ground (
        arith,
        contains-attenuated oxiri h r k,
        not-deny_of-principal oxiri k q n,
        eq-spell oxiri k q n,
        survives_mine oxiri h r k q n mine.0,
        named_mine oxiri h r k q n mine.0,
        single_principal-attenuated oxiri h r s,
        named_mine oxiri (attenuated oxiri h r) r k q n,
      )
      | inr other ↦ ground (
        arith,
        contains-attenuated oxiri h r k,
        not-deny_of-principal oxiri k q n,
        survives_other oxiri h r k q n other.0,
        named_other oxiri h r k q n other.0,
      )
    ]
  ]

  -- A scoped capability narrowed by a request allows a scope exactly when it allowed it before and
  -- the request names it.
  pub allows-attenuate :
      (h : TreeSet) (ks : List Str) (k : Str)
      → IsSorted h
      → allows oxiri (attenuate oxiri (record { kind = scoped_to h }) ks) k
        ≡ (allows oxiri (record { kind = scoped_to h }) k && contains ks k)
  unfolding allows attenuate
  allows-attenuate h ks k s =
      ground (arith, allowed-attenuated h (collect ks) k s, contains-collect ks k)

  -- Of the exclusions, a narrowed set holds exactly those that the capability held or the request
  -- names.
  pub exclusions-attenuate :
      (h : TreeSet) (ks : List Str) (k : Str)
      → is_deny_scope k ≡ true
      → contains (attenuated oxiri h (collect ks)) k ≡ (contains h k || contains ks k)
  unfolding survives
  exclusions-attenuate h ks k d = elim (Option-cases (principal_in oxiri k)) [
    | inl n ↦ ground (arith, n, contains-attenuated oxiri h (collect ks) k, contains-collect ks k)
    | inr (q, n) ↦ absurd (ground (arith, not-deny_of-principal oxiri k q n))
  ]

  -- Narrowing twice by one request is narrowing once.
  pub attenuated_idem :
      (h r : TreeSet)
      → IsSorted h
      → attenuated oxiri (attenuated oxiri h r) r ≡ attenuated oxiri h r
  attenuated_idem h r s =
      eq_of-contains (attenuated oxiri (attenuated oxiri h r) r) (attenuated oxiri h r)
        (attenuated-IsSorted oxiri (attenuated oxiri h r) r (attenuated-IsSorted oxiri h r s))
        (attenuated-IsSorted oxiri h r s) same
    where
      same :
          (k : Str)
          → contains (attenuated oxiri (attenuated oxiri h r) r) k
            ≡ contains (attenuated oxiri h r) k
      same k = elim (Option-cases (principal_in oxiri k)) [
        | inl n ↦
            unfold survives in
            ground (
              arith,
              n,
              contains-attenuated oxiri (attenuated oxiri h r) r k,
              contains-attenuated oxiri h r k,
            )
        | inr (q, n) ↦ elim (eq_cases (single_principal oxiri h) (some q)) [
          | inl mine ↦ ground (
            arith,
            contains-attenuated oxiri (attenuated oxiri h r) r k,
            contains-attenuated oxiri h r k,
            not-deny_of-principal oxiri k q n,
            eq-spell oxiri k q n,
            survives_mine oxiri h r k q n mine.0,
            single_principal-attenuated oxiri h r s,
            survives_mine oxiri (attenuated oxiri h r) r k q n,
          )
          | inr other ↦ ground (
            arith,
            contains-attenuated oxiri (attenuated oxiri h r) r k,
            contains-attenuated oxiri h r k,
            not-deny_of-principal oxiri k q n,
            survives_other oxiri h r k q n other.0,
          )
        ]
      ]
