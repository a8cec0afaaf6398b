-- ===== src/Capability/Families.antt =====
-- crates/ikigai-core/src/select.rs: `cap_satisfies`, for plain scopes and for the family form that
-- ends in `*`.
use ikigai_core.Prelude.{
  ◌↔◌, Str, codes, list_eq, nat_eq, option_eq, ◌≡◌, refl, true, ◌&&◌, List, [], ◌∷◌, ◌++◌, Option,
  none, some, arith, starts_with,
}
use ikigai_core.TreeSet.{TreeSet, contains, any_of-contains, contains_of-any, collect}
use ikigai_core.TreeSet.Sorted.{IsSorted}
use ikigai_core.Capability.Scope.{is_deny_scope}
use ikigai_core.Capability.Ops.{scoped_to, strip_star, attenuate, attenuated, satisfies}
use ikigai_core.Capability.Narrowing.{allows-attenuate, exclusions-attenuate}

pub strip_star-append : (p : Str) → strip_star (p ++ codes "*") ≡ some p
unfolding strip_star
strip_star-append [] = refl
strip_star-append (c ∷ p) = ground (arith, strip_star-append p)

module _ (oxiri : Str → Option Str) where
  -- A scoped capability satisfies a family requirement exactly when some scope that it holds,
  -- grant or exclusion, starts with the family's prefix.
  pub satisfies-family :
      (h : TreeSet) (p : Str)
      → (satisfies oxiri (record { kind = scoped_to h }) (p ++ codes "*") ≡ true)
        ↔ ((k : Str) × (contains h k ≡ true) × (starts_with p k ≡ true))
  unfolding satisfies
  satisfies-family h p = (
    λ e. contains_of-any (starts_with p) h (ground (arith, strip_star-append p)),
    λ w.
        let (k, c, q) = w in
        ground (arith, strip_star-append p, any_of-contains (starts_with p) h k c q),
  )

  -- A narrowed capability satisfies a plain requirement exactly when it did before and the request
  -- names it.
  pub satisfies-attenuate_plain :
      (h : TreeSet) (ks : List Str) (k : Str)
      → IsSorted h
      → strip_star k ≡ none
      → satisfies oxiri (attenuate oxiri (record { kind = scoped_to h }) ks) k
        ≡ (satisfies oxiri (record { kind = scoped_to h }) k && contains ks k)
  unfolding satisfies
  satisfies-attenuate_plain h ks k s e = ground (arith, allows-attenuate oxiri h ks k s)

  -- A scoped capability attenuated by a request that names an exclusion under a family satisfies
  -- the family's requirement afterwards, whatever it held before.
  pub satisfies-attenuate_exclusion :
      (h : TreeSet) (ks : List Str) (p k : Str)
      → is_deny_scope k ≡ true
      → contains ks k ≡ true
      → starts_with p k ≡ true
      → satisfies oxiri (attenuate oxiri (record { kind = scoped_to h }) ks) (p ++ codes "*") ≡ true
  unfolding attenuate
  satisfies-attenuate_exclusion h ks p k d c q =
      (satisfies-family (attenuated oxiri h (collect ks)) p).1
        (k, ground (arith, exclusions-attenuate oxiri h ks k d), q)
