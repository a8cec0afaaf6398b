-- ===== src/Capability/Clamping.antt =====
-- crates/ikigai-core/src/capability.rs: `clamp`, scope by scope.
use ikigai_core.Prelude.{
  Str, list_eq, nat_eq, option_eq, ◌≡◌, ◌≢◌, sym, ◌∙◌, Bool, true, false, ◌&&◌, ◌||◌, Option, none,
  some, arith, is_some, eq_cases, eq_refl, Option-cases, inl, inr,
}
use ikigai_core.TreeSet.{TreeSet, contains, insert, collect, contains-insert, contains-collect}
use ikigai_core.TreeSet.Sorted.{IsSorted}
use ikigai_core.Capability.Principal.{
  spell, principal_in, single_principal, eq-spell, not-deny_of-principal,
}
use ikigai_core.Capability.Ops.{
  Capability, Kind, root, scoped_to, attenuated, with_ceiling, clamp, allowed, allows,
}
use ikigai_core.Capability.Held.{named_mine, named_other, named_nobody, held_of-single_principal}
use ikigai_core.Capability.Narrowing.{allowed-attenuated}
use ikigai_core.Capability.Identity.{clamped_names}

module _ (oxiri : Str → Option Str) where
  -- What the carried capability lets through: root everything, another the scopes that it holds
  -- and, since identity is the ceiling's, the scopes that name a principal.
  abbrev pub lets_through : Kind → Str → Bool
  lets_through root k = true
  lets_through (scoped_to given) k = contains given k || is_some (principal_in oxiri k)

  nobody_allowed :
      (h : TreeSet) (k q : Str)
      → principal_in oxiri k ≡ some q
      → single_principal oxiri h ≢ some q
      → allowed oxiri h k ≡ false
  unfolding allowed
  nobody_allowed h k q n other = ground (arith, named_other oxiri h h k q n other)

  mine_allowed :
      (h : TreeSet) (k q : Str)
      → principal_in oxiri k ≡ some q
      → single_principal oxiri h ≡ some q
      → contains h k ≡ true
      → allowed oxiri h k ≡ true
  unfolding allowed
  mine_allowed h k q n mine held =
      ground (arith, held, not-deny_of-principal oxiri k q n, named_mine oxiri h h k q n mine)

  -- A scope beside the principal that was put back, which names nobody.
  allowed-insert_plain :
      (kept : TreeSet) (p k : Str)
      → principal_in oxiri k ≡ none
      → principal_in oxiri (spell p) ≡ some p
      → allowed oxiri (insert (spell p) kept) k ≡ allowed oxiri kept k
  unfolding allowed
  allowed-insert_plain kept p k n named = elim (eq_cases k (spell p)) [
    | inl same ↦ absurd (ground (arith, n, named, same))
    | inr other ↦ ground (
      arith,
      contains-insert (spell p) k kept,
      other,
      named_nobody oxiri kept kept k n,
      named_nobody oxiri (insert (spell p) kept) kept k n,
    )
  ]

  put_back_allows :
      (h given : TreeSet) (p k : Str)
      → IsSorted h
      → single_principal oxiri h ≡ some p
      → allowed oxiri (insert (spell p) (attenuated oxiri h (collect given))) k
        ≡ (allowed oxiri h k && (contains given k || is_some (principal_in oxiri k)))
  put_back_allows h given p k s e =
      let (held, named, others) = held_of-single_principal oxiri h p e in
      let kept = attenuated oxiri h (collect given) in
      elim (Option-cases (principal_in oxiri k)) [
        | inl n ↦ ground (
          arith,
          n,
          allowed-insert_plain kept p k n named,
          allowed-attenuated oxiri h (collect given) k s,
          contains-collect given k,
        )
        | inr (q, n) ↦ elim (eq_cases (single_principal oxiri h) (some q)) [
          | inl mine ↦
              let same : k ≡ spell p = ground (arith, eq-spell oxiri k q n, mine.0, e) in
              let inside : contains (insert (spell p) kept) k ≡ true =
                ground (arith, same, contains-insert (spell p) k kept, eq_refl k) in
              let here : contains h k ≡ true = ground (arith, same, held) in
              ground (
                arith,
                n,
                mine_allowed h k q n mine.0 here,
                mine_allowed (insert (spell p) kept) k q n
                    (clamped_names oxiri h (collect given) p s e ∙ sym e ∙ mine.0) inside,
              )
          | inr other ↦ ground (
            arith,
            nobody_allowed h k q n other.0,
            nobody_allowed (insert (spell p) kept) k q n
                (λ x. other.0 (e ∙ sym (clamped_names oxiri h (collect given) p s e) ∙ x)),
          )
        ]
      ]

  allows-clamp_kind :
      (h : TreeSet) (kind : Kind) (k : Str)
      → IsSorted h
      → allows oxiri (clamp oxiri (record { kind = scoped_to h }) (record { kind = kind })) k
        ≡ (allows oxiri (record { kind = scoped_to h }) k && lets_through kind k)
  unfolding clamp allows
  allows-clamp_kind h root k s = ground arith
  allows-clamp_kind h (scoped_to given) k s = elim (Option-cases (single_principal oxiri h)) [
    | inr (p, e) ↦ rw (e, with_ceiling) (put_back_allows h given p k s e)
    | inl e ↦
        rw (e, with_ceiling)
          (elim (Option-cases (principal_in oxiri k)) [
            | inl n ↦
                ground (
                  arith,
                  n,
                  allowed-attenuated oxiri h (collect given) k s,
                  contains-collect given k,
                )
            | inr (q, n) ↦ ground (
              arith,
              allowed-attenuated oxiri h (collect given) k s,
              nobody_allowed h k q n (λ x. ground (arith, x, e)),
            )
          ])
  ]

  -- A scoped capability clamped to a carried one allows a scope exactly when it allowed it before
  -- and the carried one lets it through: a carried root lets everything through, and another the
  -- scopes that it holds and every scope that names a principal.
  pub allows-clamp :
      (h : TreeSet) (carried : Capability) (k : Str)
      → IsSorted h
      → allows oxiri (clamp oxiri (record { kind = scoped_to h }) carried) k
        ≡ (allows oxiri (record { kind = scoped_to h }) k && lets_through carried.kind k)
  allows-clamp h carried k s = allows-clamp_kind h carried.kind k s
