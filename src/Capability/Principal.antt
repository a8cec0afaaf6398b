-- ===== src/Capability/Principal.antt =====
-- crates/ikigai-core/src/capability.rs: scopes that name a principal. `oxiri` is the third-party
-- parser behind `Iri::parse` (crates/ikigai-core/src/iri.rs): the detail of its refusal, or
-- nothing when the text is an absolute IRI.
use ikigai_core.Prelude.{
  ℕ, Str, codes, ◌==◌, nat_eq, list_eq, option_eq, ◌≡◌, Bool, false, List, [], ◌∷◌, ◌++◌, Option,
  none, some, Result, ok, err, ◌>>◌, ltb, any, length, keep, strip_prefix, is_some, is_none,
  if◌then◌else◌, arith, strip_prefix-append, append_of-strip_prefix,
}
use ikigai_core.TreeSet.{TreeSet}
use ikigai_core.Capability.Scope.{is_deny_scope}

abbrev pub principal_scope_prefix : Str
principal_scope_prefix = codes "urn:cap:principal:"

abbrev pub max_principal_len : ℕ
max_principal_len = 512

pub data PrincipalError : Type 0 where
  not_an_iri : Str → Str → PrincipalError
  too_long : ℕ → PrincipalError
  wildcard : Str → PrincipalError
  deny_shaped : Str → PrincipalError
  root : PrincipalError

pub record Iri : Type 0 where
  pub as_str : Str

-- `Iri::parse`
unfoldable pub parse_iri : (Str → Option Str) → Str → Result Iri Str
parse_iri oxiri s = elim (oxiri s) [ none ↦ ok (record { as_str = s }) | some detail ↦ err detail ]

-- `format!("{PRINCIPAL_SCOPE_PREFIX}{iri}")`
abbrev pub spell : Str → Str
spell iri = principal_scope_prefix ++ iri

-- `iri.contains('*')`
abbrev pub has_star : Str → Bool
has_star = any (λ c. c == 0x2a)

module _ (oxiri : Str → Option Str) where
  check_shape : Str → Result (Unit {0}) PrincipalError
  check_shape iri =
      if has_star iri
      then err (wildcard iri)
      else if is_deny_scope (spell iri)
      then err (deny_shaped iri)
      else ok tt

  unfoldable pub check_principal : Str → Result (Unit {0}) PrincipalError
  unfolding parse_iri check_shape
  check_principal iri =
      if ltb max_principal_len (length iri)
      then err (too_long (length iri))
      else elim (parse_iri oxiri iri) [
        | err detail ↦ err (not_an_iri iri detail)
        | ok _ ↦ check_shape iri
      ]

  unfoldable pub principal_scope : Str → Result Str PrincipalError
  unfolding check_principal
  principal_scope iri = do check_principal iri; ok (spell iri)

  abbrev pub checked : Str → Option Str
  checked iri = elim (check_principal iri) [ ok _ ↦ some iri | err _ ↦ none ]

  unfoldable pub principal_in : Str → Option Str
  unfolding check_principal strip_prefix
  principal_in scope = elim (strip_prefix principal_scope_prefix scope) [
    | none ↦ none
    | some iri ↦ checked iri
  ]

  -- `held.iter().filter_map(principal_in)`
  unfoldable pub principals : TreeSet → List Str
  unfolding principal_in
  principals [] = []
  principals (scope ∷ held) = elim (principal_in scope) [
    | none ↦ principals held
    | some p ↦ p ∷ principals held
  ]

  -- The first, if there is no second.
  abbrev pub only : List Str → Option Str
  only (p ∷ []) = some p
  only _ = none

  unfoldable pub single_principal : TreeSet → Option Str
  unfolding principals
  single_principal held = only (principals held)

  unfoldable pub at_most_one_principal : TreeSet → TreeSet
  unfolding keep principal_in
  at_most_one_principal scopes =
      if ltb 1 (length (keep (λ s. is_some (principal_in s)) scopes))
      then keep (λ s. is_none (principal_in s)) scopes
      else scopes

  -- What a scope names, it spells.
  pub eq-spell : (s p : Str) → principal_in s ≡ some p → s ≡ spell p
  unfolding principal_in
  eq-spell s p h = ground (arith, append_of-strip_prefix principal_scope_prefix s p)

  -- A scope that names a principal is no exclusion: the check refuses one.
  pub not-deny_of-principal : (s p : Str) → principal_in s ≡ some p → is_deny_scope s ≡ false
  unfolding principal_in check_principal check_shape
  not-deny_of-principal s p h = ground (arith, append_of-strip_prefix principal_scope_prefix s p)

  -- A text that passes the check is named by its own scope.
  pub principal_in-spell : (p : Str) → check_principal p ≡ ok tt → principal_in (spell p) ≡ some p
  unfolding principal_in
  principal_in-spell p h = ground (arith, strip_prefix-append principal_scope_prefix p)
