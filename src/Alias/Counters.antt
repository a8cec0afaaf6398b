-- ===== src/Alias/Counters.antt =====
-- crates/ikigai-core/src/alias.rs: what a walk counts at each rule.
use ikigai_core.Prelude.{
  ℕ, zero, suc, ◌<◌, Str, ◌==◌, nat_eq, list_eq, option_eq, ◌≡◌, refl, sym, ap, ◌∙◌, inl, inr, List,
  [], ◌∷◌, Option, some, if◌then◌else◌, arith, Bool-cases,
}
use ikigai_core.Prelude.{
  ℕ, zero, suc, ◌<◌, Str, ◌==◌, nat_eq, list_eq, option_eq, ◌≡◌, refl, sym, ap, ◌∙◌, inl, inr, List,
  [], ◌∷◌, Option, some, if◌then◌else◌, arith, Bool-cases,
}
use ikigai_core.Prelude.{wrapping_add, u64_mod}
use ikigai_core.Prelude.{get_elem?}
use ikigai_core.Alias.Table.{AliasRule, AliasTable}
use ikigai_core.Alias.Walk.{
  Canonical, direct, aliased, refused, preview, bump, bump_all, count_hop, count_refused,
  count_walk, canonicalize,
}

-- How often an index stands in a list.
unfoldable pub tally : ℕ → List ℕ → ℕ
tally i [] = 0
tally i (j ∷ l) = let rest = tally i l in if j == i then suc rest else rest

iterate {ℓ} : {A : Type ℓ} → ℕ → (A → A) → A → A
iterate zero f x = x
iterate (suc n) f x = iterate n f (f x)

module _ (count : AliasRule → AliasRule) where
  get_elem?-bump :
      (i j : ℕ) (rules : List AliasRule) (r : AliasRule)
      → get_elem? rules i ≡ some r
      → get_elem? (bump count j rules) i ≡ some (if j == i then count r else r)
  unfolding bump
  get_elem?-bump i j [] r h = absurd (ground arith)
  get_elem?-bump zero zero (s ∷ rules) r h = ground arith
  get_elem?-bump zero (suc j) (s ∷ rules) r h = ground arith
  get_elem?-bump (suc i) zero (s ∷ rules) r h = ground arith
  get_elem?-bump (suc i) (suc j) (s ∷ rules) r h = ground (arith, get_elem?-bump i j rules r h)

  get_elem?-bump_all :
      (i : ℕ) (indices : List ℕ) (t : AliasTable) (r : AliasRule)
      → get_elem? t.rules i ≡ some r
      → get_elem? (bump_all count indices t).rules i ≡ some (iterate (tally i indices) count r)
  unfolding bump_all iterate tally
  get_elem?-bump_all i [] t r h = h
  get_elem?-bump_all i (j ∷ indices) t r h = elim (Bool-cases (j == i)) [
    | inl e ↦
        let more : tally i (j ∷ indices) ≡ suc (tally i indices) = rw e in
        get_elem?-bump_all i indices (record t { rules = bump count j t.rules }) (count r)
          (get_elem?-bump i j t.rules r h ∙ rw e)
        ∙ ap (λ n. some (iterate n count r)) (sym more)
    | inr e ↦
        let more : tally i (j ∷ indices) ≡ tally i indices = rw e in
        get_elem?-bump_all i indices (record t { rules = bump count j t.rules }) r
          (get_elem?-bump i j t.rules r h ∙ rw e)
        ∙ ap (λ n. some (iterate n count r)) (sym more)
  ]

iterate-count_hop :
    (n : ℕ) (r : AliasRule)
    → r.hops < u64_mod
    → iterate n count_hop r ≡ record r { hops = wrapping_add r.hops n }
unfolding iterate
iterate-count_hop zero r h =
    let same : r.hops ≡ wrapping_add r.hops 0 = omega arith in ap (λ m. record r { hops = m }) same
iterate-count_hop (suc n) r h =
    let same : wrapping_add (wrapping_add r.hops 1) n ≡ wrapping_add r.hops (suc n) = omega arith in
    iterate-count_hop n (count_hop r) (omega arith) ∙ ap (λ m. record r { hops = m }) same

iterate-count_refused :
    (n : ℕ) (r : AliasRule)
    → r.refused < u64_mod
    → iterate n count_refused r ≡ record r { refused = wrapping_add r.refused n }
unfolding iterate
iterate-count_refused zero r h =
    let same : r.refused ≡ wrapping_add r.refused 0 = omega arith in
    ap (λ m. record r { refused = m }) same
iterate-count_refused (suc n) r h =
    let same : wrapping_add (wrapping_add r.refused 1) n ≡ wrapping_add r.refused (suc n) =
      omega arith in
    iterate-count_refused n (count_refused r) (omega arith)
    ∙ ap (λ m. record r { refused = m }) same

-- The rule after a walk that answers `c`, where the rule has the index `i`.
abbrev pub counted : Canonical → ℕ → AliasRule → AliasRule
counted direct i r = r
counted (aliased hop) i r = record r { hops = wrapping_add r.hops (tally i hop.rules) }
counted (refused x) i r = record r { refused = wrapping_add r.refused (tally i x.rules) }

module _ (oxiri : Str → Option Str) (t : AliasTable) (target : Str) where
  count_walk-counted :
      (c : Canonical) (i : ℕ) (r : AliasRule)
      → r.hops < u64_mod
      → r.refused < u64_mod
      → get_elem? t.rules i ≡ some r
      → get_elem? (count_walk c t).rules i ≡ some (counted c i r)
  unfolding count_walk
  count_walk-counted direct i r h k e = e
  count_walk-counted (aliased hop) i r h k e =
      get_elem?-bump_all count_hop i hop.rules t r e
      ∙ ap some (iterate-count_hop (tally i hop.rules) r h)
  count_walk-counted (refused x) i r h k e =
      get_elem?-bump_all count_refused i x.rules t r e
      ∙ ap some (iterate-count_refused (tally i x.rules) r k)

  -- A recorded walk answers as one that counts nothing, and adds to the hops of each rule how
  -- often it was applied when the walk ends, and to its refusals when the walk is refused,
  -- wrapping as the machine's counters do.
  pub canonicalize-counts :
      (i : ℕ) (r : AliasRule)
      → r.hops < u64_mod
      → r.refused < u64_mod
      → get_elem? t.rules i ≡ some r
      → ((canonicalize oxiri t target).0 ≡ preview oxiri t target)
        × (get_elem? (canonicalize oxiri t target).1.rules i
            ≡ some (counted (preview oxiri t target) i r))
  unfolding canonicalize
  canonicalize-counts i r h k e = (refl, count_walk-counted (preview oxiri t target) i r h k e)
