-- ===== src/Capability/Ops.antt =====
-- crates/ikigai-core/src/capability.rs: `Capability` and its operations, and `cap_satisfies` of
-- crates/ikigai-core/src/select.rs. `oxiri` is the parser behind `Iri::parse`.
use ikigai_core.Prelude.{
  Str, ◌==◌, nat_eq, list_eq, option_eq, Bool, true, false, not, ◌&&◌, ◌||◌, List, [], ◌∷◌, Option,
  none, some, Result, ok, err, ◌>>=◌, any, keep, starts_with, if◌then◌else◌,
}
use ikigai_core.TreeSet.{TreeSet, contains, insert, collect, extend}
use ikigai_core.Capability.Scope.{is_deny_scope}
use ikigai_core.Capability.Principal.{
  PrincipalError, principal_scope_prefix, spell, principal_scope, principal_in, single_principal,
  at_most_one_principal,
}

pub data Kind : Type 0 where
  root : Kind
  scoped_to : TreeSet → Kind

pub record Capability : Type 0 where
  pub kind : Kind

abbrev pub root_capability : Capability
root_capability = record { kind = root }

unfoldable pub is_root : Capability → Bool
is_root c = elim c.kind [ root ↦ true | scoped_to _ ↦ false ]

unfoldable pub scoped : List Str → Capability
unfolding collect
scoped scopes = record { kind = scoped_to (collect scopes) }

unfoldable pub scopes : Capability → Option TreeSet
scopes c = elim c.kind [ root ↦ none | scoped_to held ↦ some held ]

-- `scope.strip_suffix('*')`
unfoldable pub strip_star : Str → Option Str
strip_star [] = none
strip_star (c ∷ s) = elim (strip_star s) [
  | some prefix ↦ some (c ∷ prefix)
  | none ↦ elim s [ [] ↦ if c == 0x2a then some [] else none | _ ∷ _ ↦ none ]
]

-- The held scopes of `with_principal`, the ones under the prefix replaced.
unfoldable pub minted : TreeSet → Str → TreeSet
unfolding keep insert starts_with
minted held scope = insert scope (keep (λ s. not (starts_with principal_scope_prefix s)) held)

module _ (oxiri : Str → Option Str) where
  -- The filter of `attenuate` over the held scopes.
  unfoldable pub survives : TreeSet → TreeSet → Str → Bool
  unfolding contains
  survives held requested scope = elim (principal_in oxiri scope) [
    | some p ↦ some p == single_principal oxiri held && contains requested scope
    | none ↦ is_deny_scope scope || contains requested scope
  ]

  unfoldable pub attenuated : TreeSet → TreeSet → TreeSet
  unfolding survives keep extend
  attenuated held requested =
      extend (keep (survives held requested) held) (keep is_deny_scope requested)

  unfoldable pub attenuate : Capability → List Str → Capability
  unfolding attenuated collect
  attenuate c requested = elim c.kind [
    | root ↦ record { kind = scoped_to (at_most_one_principal oxiri (collect requested)) }
    | scoped_to held ↦ record { kind = scoped_to (attenuated held (collect requested)) }
  ]

  -- The `if let` of `clamp`: the ceiling's principal goes back in.
  unfoldable pub with_ceiling : Kind → Capability → Capability
  unfolding insert
  with_ceiling root clamped = clamped
  with_ceiling (scoped_to held) clamped = elim clamped.kind [
    | root ↦ clamped
    | scoped_to kept ↦ elim (single_principal oxiri held) [
      | none ↦ clamped
      | some p ↦ record { kind = scoped_to (insert (spell p) kept) }
    ]
  ]

  unfoldable pub clamp : Capability → Capability → Capability
  unfolding attenuate with_ceiling scopes
  clamp c carried = elim (scopes carried) [
    | none ↦ c
    | some given ↦ with_ceiling c.kind (attenuate c given)
  ]

  unfoldable pub principal : Capability → Option Str
  principal c = elim c.kind [ root ↦ none | scoped_to held ↦ single_principal oxiri held ]

  unfoldable pub acts_as : Capability → Str → Bool
  acts_as c p = elim c.kind [ root ↦ true | scoped_to held ↦ single_principal oxiri held == some p ]

  unfoldable pub with_principal : Capability → Str → Result Capability PrincipalError
  unfolding minted
  with_principal c p = do
    scope ← principal_scope oxiri p
    elim c.kind [
      | root ↦ err PrincipalError.root
      | scoped_to held ↦ ok (record { kind = scoped_to (minted held scope) })
    ]

  -- `principal_in(scope).is_none_or(|p| single_principal(held) == Some(p))`
  unfoldable pub named_by : TreeSet → Str → Bool
  named_by held scope = elim (principal_in oxiri scope) [
    | none ↦ true
    | some p ↦ single_principal oxiri held == some p
  ]

  unfoldable pub allowed : TreeSet → Str → Bool
  unfolding contains named_by
  allowed held scope = contains held scope && not (is_deny_scope scope) && named_by held scope

  unfoldable pub allows : Capability → Str → Bool
  unfolding allowed
  allows c scope = elim c.kind [ root ↦ true | scoped_to held ↦ allowed held scope ]

  -- `cap_satisfies`, which is `Capability::satisfies`.
  unfoldable pub satisfies : Capability → Str → Bool
  unfolding strip_star scopes allows starts_with
  satisfies c scope = elim (strip_star scope) [
    | some prefix ↦ elim (scopes c) [ none ↦ true | some held ↦ any (starts_with prefix) held ]
    | none ↦ allows c scope
  ]
