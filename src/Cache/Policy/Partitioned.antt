-- ===== src/Cache/Policy/Partitioned.antt =====
-- crates/ikigai-core/src/cache.rs: `Partitioned`, a policy and a budget for each prefix of a name.
-- `S` is what one of the policies keeps; each partition has its own, by its number.
use ikigai_core.Prelude.{
  ℕ, zero, suc, Str, ◌==◌, nat_eq, list_eq, Bool, true, ◌&&◌, ◌||◌, List, [], ◌∷◌, ◌++◌, map,
  Option, none, some, get_elem?, any, length, leb, ltb, saturating_add, saturating_sub, starts_with,
  is_some, if◌then◌else◌,
}
use ikigai_core.Cache.Entry.{EntryFacts, CacheBound}
use ikigai_core.Cache.Policy.{CachePolicy}

pub record Partitioned (S : Type 0) : Type 0 where
  pub partitions : List (Str × CachePolicy S)
  pub rest : CachePolicy S

-- The total of the bytes of residents, on top of a first part.
unfoldable pub bytes_from : ℕ → List EntryFacts → ℕ
bytes_from total [] = total
bytes_from total (facts ∷ resident) = bytes_from (saturating_add total facts.bytes) resident

-- The first numbers, in order.
abbrev count_from : ℕ → ℕ → List ℕ
count_from zero i = []
count_from (suc n) i = i ∷ count_from n (suc i)

-- `(usize, usize)` in its order
abbrev pair_lt : ℕ × ℕ → ℕ × ℕ → Bool
pair_lt a b = ltb a.0 b.0 || a.0 == b.0 && ltb a.1 b.1

-- A partition with what it is over by, in bytes and entries.
pub record Over : Type 0 where
  pub partition : ℕ
  pub amount : ℕ × ℕ

module _ {S : Type 0} where
  -- `Partitioned::new`
  abbrev pub unpartitioned : CachePolicy S → Partitioned S
  unpartitioned rest = record { partitions = []; rest = rest }

  -- `Partitioned::partition`: a prefix given twice keeps the first.
  unfoldable pub add_partition : Partitioned S → Str → CachePolicy S → Partitioned S
  add_partition p prefix policy =
      if any (λ given. given.0 == prefix) p.partitions
      then p
      else record p { partitions = p.partitions ++ (prefix, policy) ∷ [] }

  -- The last of the longest prefixes that a name starts with; `best` is its number and length.
  unfoldable pub longest_prefix :
      Str → ℕ → Option (ℕ × ℕ) → List (Str × CachePolicy S) → Option (ℕ × ℕ)
  unfolding starts_with
  longest_prefix target i best [] = best
  longest_prefix target i best ((prefix, _) ∷ rest) =
      longest_prefix target (suc i)
        (if starts_with prefix target
          then elim best [
            | none ↦ some (i, length prefix)
            | some b ↦ if leb b.1 (length prefix) then some (i, length prefix) else some b
          ]
          else best)
        rest

  abbrev sum_bounds : CacheBound → List (Str × CachePolicy S) → CacheBound
  sum_bounds total [] = total
  sum_bounds total ((_, policy) ∷ rest) =
      sum_bounds
        (record {
          max_entries = saturating_add total.max_entries policy.capacity.max_entries;
          max_bytes = saturating_add total.max_bytes policy.capacity.max_bytes;
        })
        rest

  module _ (p : Partitioned S) where
    unfoldable pub partition_of : Str → ℕ
    unfolding longest_prefix
    partition_of target = elim (longest_prefix target 0 none p.partitions) [
      | none ↦ length p.partitions
      | some b ↦ b.0
    ]

    unfoldable pub policy_at : ℕ → CachePolicy S
    policy_at partition = elim (get_elem? p.partitions partition) [ none ↦ p.rest | some x ↦ x.1 ]

    -- `members`: the residents of a partition, with their places.
    unfoldable pub members : ℕ → ℕ → List EntryFacts → List (ℕ × EntryFacts)
    unfolding partition_of
    members partition i [] = []
    members partition i (facts ∷ resident) =
        let rest = members partition (suc i) resident in
        if partition_of facts.target == partition then (i, facts) ∷ rest else rest

    abbrev pub member_facts : ℕ → List EntryFacts → List EntryFacts
    member_facts partition resident = map (λ x. x.1) (members partition 0 resident)

    unfoldable pub overflow : ℕ → List EntryFacts → Option (ℕ × ℕ)
    unfolding policy_at bytes_from
    overflow partition facts =
        let bound = (policy_at partition).capacity in
        let bytes = bytes_from 0 facts in
        if ltb bound.max_entries (length facts) || ltb bound.max_bytes bytes
        then some
            (saturating_sub bytes bound.max_bytes, saturating_sub (length facts) bound.max_entries)
        else none

    abbrev pub overflow_of : List EntryFacts → ℕ → Option (ℕ × ℕ)
    overflow_of resident partition = overflow partition (member_facts partition resident)

    -- The partition furthest over, the first of equals.
    abbrev pub further : Option Over → ℕ → ℕ × ℕ → Option Over
    further none partition over = some (record { partition = partition; amount = over })
    further (some best) partition over =
        if pair_lt best.amount over
        then some (record { partition = partition; amount = over })
        else some best

    unfoldable pub furthest_over : List EntryFacts → Option Over → List ℕ → Option Over
    unfolding members overflow
    furthest_over resident best [] = best
    furthest_over resident best (partition ∷ more) =
        furthest_over resident
          (elim (overflow_of resident partition) [
            | none ↦ best
            | some over ↦ further best partition over
          ])
          more

    abbrev pub all_partitions : List ℕ
    all_partitions = count_from (suc (length p.partitions)) 0

    -- The victim that the partition's own policy names among its own entries.
    unfoldable pub victim_in : (ℕ → S) → List EntryFacts → ℕ → Option ℕ
    unfolding members policy_at
    victim_in kept resident partition =
        elim ((policy_at partition).victim (kept partition) (member_facts partition resident)) [
          | none ↦ none
          | some chosen ↦ get_elem? (map (λ x. x.0) (members partition 0 resident)) chosen
        ]

    unfoldable pub partitioned_victim : (ℕ → S) → List EntryFacts → Option ℕ
    unfolding furthest_over victim_in
    partitioned_victim kept resident = elim (furthest_over resident none all_partitions) [
      | none ↦ none
      | some over ↦ victim_in kept resident over.partition
    ]

    unfoldable pub partitioned_contest : (ℕ → S) → EntryFacts → List EntryFacts → Bool
    unfolding partition_of policy_at members bytes_from
    partitioned_contest kept candidate resident =
        let partition = partition_of candidate.target in
        let facts = member_facts partition resident in
        let bound = (policy_at partition).capacity in
        if ltb (length facts) bound.max_entries
          && leb (bytes_from candidate.bytes facts) bound.max_bytes
        then true
        else (policy_at partition).contest (kept partition) candidate facts

    unfoldable pub partitioned_admit : (ℕ → S) → EntryFacts → Bool × (ℕ → S)
    unfolding partition_of policy_at
    partitioned_admit kept candidate =
        let partition = partition_of candidate.target in
        let (admitted, after) = (policy_at partition).admit (kept partition) candidate in
        (admitted, λ i. if i == partition then after else kept i)

    abbrev pub partitioned_policy : CachePolicy (ℕ → S)
    partitioned_policy = record {
      capacity = sum_bounds p.rest.capacity p.partitions;
      admit = partitioned_admit;
      victim = partitioned_victim;
      contest = partitioned_contest;
      partitioned = true;
      over_partition =
          λ resident. any (λ partition. is_some (overflow_of resident partition)) all_partitions;
    }
