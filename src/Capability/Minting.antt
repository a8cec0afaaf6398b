-- ===== src/Capability/Minting.antt =====
-- crates/ikigai-core/src/capability.rs: `with_principal`, by which a door names a principal.
use ikigai_core.Prelude.{
  refl, ok-injective, sym, Result, Str, list_eq, nat_eq, option_eq, ◌==◌, ◌≡◌, Bool, true, false,
  not, ◌&&◌, ◌||◌, Option, none, some, ok, err, arith, keep, eq_refl, eq_cases, Option-cases, inl,
  inr, starts_with, starts_with-append,
}
use ikigai_core.TreeSet.{TreeSet, contains, contains-insert, contains-keep}
use ikigai_core.TreeSet.Sorted.{IsSorted}
use ikigai_core.Capability.Principal.{
  PrincipalError, spell, principal_scope, principal_in, single_principal, eq-spell,
  principal_in-spell, check_principal, principal_scope_prefix,
}
use ikigai_core.Capability.Ops.{
  root, scoped_to, Capability, minted, with_principal, principal, allows, named_by,
}
use ikigai_core.Capability.Held.{single_principal_only}
use ikigai_core.Capability.WellFormed.{minted-IsSorted}

abbrev pub under_prefix : Str → Bool
under_prefix = starts_with principal_scope_prefix

contains-minted :
    (h : TreeSet) (scope k : Str)
    → contains (minted h scope) k ≡ (k == scope || contains h k && not (under_prefix k))
unfolding minted
contains-minted h scope k = ground (
  arith,
  contains-insert scope k (keep (λ s. not (under_prefix s)) h),
  contains-keep (λ s. not (under_prefix s)) h k,
)

module _ (oxiri : Str → Option Str) where
  unprefixed_names_nobody : (k : Str) → under_prefix k ≡ false → principal_in oxiri k ≡ none
  unprefixed_names_nobody k u = elim (Option-cases (principal_in oxiri k)) [
    | inl n ↦ n
    | inr (q, n) ↦
        absurd (ground (arith, eq-spell oxiri k q n, starts_with-append principal_scope_prefix q))
  ]

  single_principal-minted :
      (h : TreeSet) (p : Str)
      → IsSorted h
      → check_principal oxiri p ≡ ok tt
      → single_principal oxiri (minted h (spell p)) ≡ some p
  single_principal-minted h p s e =
      single_principal_only oxiri p (minted h (spell p)) (minted-IsSorted h (spell p) s)
        (principal_in-spell oxiri p e)
        (ground (arith, contains-minted h (spell p) (spell p), eq_refl (spell p)))
        λ k q m n. elim (eq_cases k (spell p)) [
          | inl same ↦ ground (arith, same, principal_in-spell oxiri p e)
          | inr other ↦ absurd (
              ground (
                arith,
                other,
                contains-minted h (spell p) k,
                eq-spell oxiri k q n,
                starts_with-append principal_scope_prefix q,
              ))
        ]

  -- What minting answers on every branch: the refusal of the text first, then the refusal of root,
  -- and otherwise the held scopes with the principal's own in place of others.
  pub with_principal_lem :
      (c : Capability) (p : Str)
      → with_principal oxiri c p ≡ elim (check_principal oxiri p) [
        | err e ↦ err e
        | ok _ ↦ elim c.kind [
          | root ↦ err PrincipalError.root
          | scoped_to h ↦ ok (record { kind = scoped_to (minted h (spell p)) })
        ]
      ]
  unfolding with_principal principal_scope
  with_principal_lem c p = ground arith

  unprefixed_unchanged :
      (h : TreeSet) (p k : Str)
      → under_prefix k ≡ false
      → allows oxiri (record { kind = scoped_to (minted h (spell p)) }) k
        ≡ allows oxiri (record { kind = scoped_to h }) k
  unfolding allows
  unprefixed_unchanged h p k u = elim (eq_cases k (spell p)) [
    | inl same ↦ absurd (ground (arith, same, starts_with-append principal_scope_prefix p))
    | inr other ↦ ground (
      arith,
      contains-minted h (spell p) k,
      other,
      unprefixed_names_nobody k u,
      named_unprefixed (minted h (spell p)) k u,
      named_unprefixed h k u,
    )
  ]
    where
      named_unprefixed :
          (s : TreeSet) (j : Str) → under_prefix j ≡ false → named_by oxiri s j ≡ true
      named_unprefixed s j v = ground (arith, unprefixed_names_nobody j v)

  minted_of-ok :
      (h : TreeSet) (p : Str) (c : Capability)
      → with_principal oxiri (record { kind = scoped_to h }) p ≡ ok c
      → (check_principal oxiri p ≡ ok tt) × (c ≡ record { kind = scoped_to (minted h (spell p)) })
  unfolding with_principal principal_scope
  minted_of-ok h p c e = branch (check_principal oxiri p) refl
    where
      branch :
          (r : Result (Unit {0}) PrincipalError)
          → check_principal oxiri p ≡ r
          → (check_principal oxiri p ≡ ok tt)
            × (c ≡ record { kind = scoped_to (minted h (spell p)) })
      branch (ok u) q = (q, sym (ok-injective (rw q at e)))
      branch (err x) q = cc (rw q at e)

  -- A capability minted onto a scoped one acts as exactly that principal, and allows each scope
  -- outside the principal family as before.
  pub principal-with_principal :
      (h : TreeSet) (p : Str) (c : Capability)
      → IsSorted h
      → with_principal oxiri (record { kind = scoped_to h }) p ≡ ok c
      → (principal oxiri c ≡ some p)
        × ((k : Str)
            → under_prefix k ≡ false
            → allows oxiri c k ≡ allows oxiri (record { kind = scoped_to h }) k)
  principal-with_principal h p c s e =
      let (checks, same) = minted_of-ok h p c e in
      (
        rw same (unfold principal in single_principal-minted h p s checks),
        λ k u. rw same (unprefixed_unchanged h p k u),
      )
