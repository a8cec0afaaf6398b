-- ===== src/Cache/Policy/Budgets.antt =====
-- crates/ikigai-core/src/cache.rs: the victim of `Partitioned`, and the budgets of its partitions.
use ikigai_core.Prelude.{
  ℕ, zero, suc, ◌+◌, ◌≡◌, refl, ◌==◌, nat_eq, list_eq, true, List, [], ◌∷◌, Option, none, some, map,
  get_elem?, arith, Bool-cases, Option-cases, inl, inr, is_some, eq→≡, of_some,
}
use ikigai_core.Cache.Entry.{EntryFacts}
use ikigai_core.Cache.Policy.Partitioned.{
  Over, policy_at, Partitioned, partition_of, members, member_facts, overflow_of, further,
  furthest_over, all_partitions, victim_in, partitioned_victim,
}

module _ {S : Type 0} (p : Partitioned S) (resident : List EntryFacts) where
  further_keeps :
      (best : Option Over) (partition : ℕ) (over : ℕ × ℕ) (out : Over)
      → ((b : Over) → best ≡ some b → is_some (overflow_of p resident b.partition) ≡ true)
      → is_some (overflow_of p resident partition) ≡ true
      → further p best partition over ≡ some out
      → is_some (overflow_of p resident out.partition) ≡ true
  further_keeps none partition over out held here e = ground (arith, of_some e)
  further_keeps (some best) partition over out held here e = ground (arith, held best refl, here, e)

  -- The partition that gives up an entry is over its own bound.
  furthest_over-some :
      (best : Option Over) (more : List ℕ) (out : Over)
      → ((b : Over) → best ≡ some b → is_some (overflow_of p resident b.partition) ≡ true)
      → furthest_over p resident best more ≡ some out
      → is_some (overflow_of p resident out.partition) ≡ true
  unfolding furthest_over
  furthest_over-some best [] out held e = held out e
  furthest_over-some best (partition ∷ more) out held e =
      elim (Option-cases (overflow_of p resident partition)) [
        | inl within ↦ furthest_over-some best more out held (rw (within, furthest_over) at e)
        | inr (over, n) ↦
            furthest_over-some (further p best partition over) more out
              (λ b q. further_keeps best partition over b held (ground (arith, n)) q)
              (rw (n, furthest_over) at e)
      ]

  -- The place of a resident of a partition, behind the first `n`.
  abbrev PlaceIn : ℕ → ℕ → List EntryFacts → ℕ → Type 0
  PlaceIn partition n xs i =
      (k : ℕ) × (f : EntryFacts) × (i ≡ n + k)
      × (get_elem? xs k ≡ some f)
      × (partition_of p f.target ≡ partition)

  one_further :
      (partition n : ℕ) (x : EntryFacts) (xs : List EntryFacts) (i : ℕ)
      → PlaceIn partition (suc n) xs i
      → PlaceIn partition n (x ∷ xs) i
  one_further partition n x xs i (k, f, place, found, right) =
      (suc k, f, omega (arith, place), found, right)

  first_or_later :
      (partition n : ℕ) (x : EntryFacts) (xs : List EntryFacts) (chosen i : ℕ)
      → ((c : ℕ)
          → get_elem? (map (λ x. x.0) (members p partition (suc n) xs)) c ≡ some i
          → PlaceIn partition (suc n) xs i)
      → get_elem? (n ∷ map (λ x. x.0) (members p partition (suc n) xs)) chosen ≡ some i
      → partition_of p x.target ≡ partition
      → PlaceIn partition n (x ∷ xs) i
  first_or_later partition n x xs zero i later e mine = (0, x, omega (arith, of_some e), refl, mine)
  first_or_later partition n x xs (suc chosen) i later e mine =
      one_further partition n x xs i (later chosen e)

  place_of-members :
      (partition n : ℕ) (xs : List EntryFacts) (chosen i : ℕ)
      → get_elem? (map (λ x. x.0) (members p partition n xs)) chosen ≡ some i
      → PlaceIn partition n xs i
  unfolding members
  place_of-members partition n [] chosen i e = absurd (ground arith)
  place_of-members partition n (x ∷ xs) chosen i e =
      elim (Bool-cases (partition_of p x.target == partition)) [
        | inr other ↦
            one_further partition n x xs i
              (place_of-members partition (suc n) xs chosen i (rw other at e))
        | inl mine ↦
            first_or_later partition n x xs chosen i
              (λ c h. place_of-members partition (suc n) xs c i h) (rw mine at e)
              (eq→≡ (partition_of p x.target) partition mine)
      ]

  from_start :
      (partition i : ℕ)
      → is_some (overflow_of p resident partition) ≡ true
      → PlaceIn partition 0 resident i
      → (f : EntryFacts) × (get_elem? resident i ≡ some f)
        × (is_some (overflow_of p resident (partition_of p f.target)) ≡ true)
  from_start partition i over (k, f, place, found, right) =
      let same : i ≡ k = omega (arith, place) in (f, rw same found, rw right over)

  -- The victim of a partitioned policy is a resident, and the partition that its name belongs to
  -- is over its own bound, whatever the policies of the partitions choose.
  pub partitioned_victim-overflow :
      (kept : ℕ → S) (i : ℕ)
      → partitioned_victim p kept resident ≡ some i
      → (f : EntryFacts) × (get_elem? resident i ≡ some f)
        × (is_some (overflow_of p resident (partition_of p f.target)) ≡ true)
  unfolding partitioned_victim victim_in
  partitioned_victim-overflow kept i e =
      elim (Option-cases (furthest_over p resident none (all_partitions p))) [
        | inl n ↦ absurd (ground (arith, n))
        | inr (out, n) ↦
            let over =
              furthest_over-some none (all_partitions p) out (λ b q. absurd (ground arith)) n in
            elim (Option-cases (chosen_in out.partition)) [
              | inl m ↦ absurd (ground (arith, n, m))
              | inr (chosen, m) ↦ from_start out.partition i over (
                  place_of-members out.partition 0 resident chosen i
                    (rw (n, m, partitioned_victim, victim_in) at e))
            ]
      ]
    where
      chosen_in : ℕ → Option ℕ
      chosen_in partition =
          (policy_at p partition).victim (kept partition) (member_facts p partition resident)
