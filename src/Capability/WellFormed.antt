-- ===== src/Capability/WellFormed.antt =====
-- crates/ikigai-core/src/capability.rs: the order of a capability's scopes.
use ikigai_core.Prelude.{
  Str, list_eq, nat_eq, option_eq, List, Option, none, some, keep, Bool-cases, inl, inr, is_some,
  is_none, length, ltb, not, starts_with,
}
use ikigai_core.TreeSet.{TreeSet, insert, collect}
use ikigai_core.TreeSet.Sorted.{
  IsSorted, keep-IsSorted, insert-IsSorted, collect-IsSorted, extend-IsSorted,
}
use ikigai_core.Capability.Scope.{is_deny_scope}
use ikigai_core.Capability.Principal.{
  spell, principal_in, single_principal, at_most_one_principal, principal_scope_prefix,
}
use ikigai_core.Capability.Ops.{
  Kind, root, scoped_to, Capability, scoped, survives, attenuated, attenuate, with_ceiling, clamp,
  minted,
}

abbrev KindIsWellFormed : Kind → Type 0
KindIsWellFormed root = Unit
KindIsWellFormed (scoped_to held) = IsSorted held

abbrev pub IsWellFormed : Capability → Type 0
IsWellFormed c = KindIsWellFormed c.kind

pub scoped-IsWellFormed : (ks : List Str) → IsWellFormed (scoped ks)
unfolding scoped
scoped-IsWellFormed ks = collect-IsSorted ks

pub minted-IsSorted : (h : TreeSet) (scope : Str) → IsSorted h → IsSorted (minted h scope)
unfolding minted
minted-IsSorted h scope s =
    insert-IsSorted scope (keep (λ k. not (starts_with principal_scope_prefix k)) h)
      (keep-IsSorted (λ k. not (starts_with principal_scope_prefix k)) h s)

module _ (oxiri : Str → Option Str) where
  pub at_most_one-IsSorted : (s : TreeSet) → IsSorted s → IsSorted (at_most_one_principal oxiri s)
  unfolding at_most_one_principal
  at_most_one-IsSorted s h =
      elim (Bool-cases (ltb 1 (length (keep (λ k. is_some (principal_in oxiri k)) s)))) [
        | inl e ↦ rw e (keep-IsSorted (λ k. is_none (principal_in oxiri k)) s h)
        | inr e ↦ rw e h
      ]

  pub attenuated-IsSorted : (h r : TreeSet) → IsSorted h → IsSorted (attenuated oxiri h r)
  unfolding attenuated
  attenuated-IsSorted h r s =
      extend-IsSorted (keep (survives oxiri h r) h) (keep is_deny_scope r)
        (keep-IsSorted (survives oxiri h r) h s)

  attenuate-kind :
      (k : Kind) (ks : List Str)
      → KindIsWellFormed k
      → IsWellFormed (attenuate oxiri (record { kind = k }) ks)
  unfolding attenuate
  attenuate-kind root ks w = at_most_one-IsSorted (collect ks) (collect-IsSorted ks)
  attenuate-kind (scoped_to h) ks w = attenuated-IsSorted h (collect ks) w

  -- Attenuation keeps the scopes in order, each once.
  pub attenuate-IsWellFormed :
      (c : Capability) (ks : List Str) → IsWellFormed c → IsWellFormed (attenuate oxiri c ks)
  attenuate-IsWellFormed c ks w = attenuate-kind c.kind ks w

  put_back :
      (o : Option Str) (kept : TreeSet)
      → IsSorted kept
      → IsWellFormed (elim o [
        | none ↦ record { kind = scoped_to kept }
        | some p ↦ record { kind = scoped_to (insert (spell p) kept) }
      ])
  put_back none kept s = s
  put_back (some p) kept s = insert-IsSorted (spell p) kept s

  ceiling-IsWellFormed :
      (k j : Kind) → KindIsWellFormed j → IsWellFormed (with_ceiling oxiri k (record { kind = j }))
  unfolding with_ceiling
  ceiling-IsWellFormed root j w = w
  ceiling-IsWellFormed (scoped_to h) root w = tt
  ceiling-IsWellFormed (scoped_to h) (scoped_to kept) w = put_back (single_principal oxiri h) kept w

  clamp-kind :
      (c : Capability) (k : Kind)
      → IsWellFormed c
      → IsWellFormed (clamp oxiri c (record { kind = k }))
  unfolding clamp
  clamp-kind c root w = w
  clamp-kind c (scoped_to given) w =
      ceiling-IsWellFormed c.kind (attenuate oxiri c given).kind (attenuate-IsWellFormed c given w)

  -- Clamping keeps the scopes in order, each once.
  pub clamp-IsWellFormed :
      (c carried : Capability) → IsWellFormed c → IsWellFormed (clamp oxiri c carried)
  clamp-IsWellFormed c carried w = clamp-kind c carried.kind w
