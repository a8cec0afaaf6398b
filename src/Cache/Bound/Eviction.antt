-- ===== src/Cache/Bound/Eviction.antt =====
-- crates/ikigai-core/src/cache.rs: the loop of `enforce_bound`.
use ikigai_core.Prelude.{
  ℕ, zero, suc, ◌<◌, ◌≤◌, ◌≡◌, refl, ap, subst, true, ◌&&◌, ◌||◌, [], ◌∷◌, length, ltb, none, some,
  arith, Bool-cases, Option-cases, inl, inr, of_some,
}
use ikigai_core.HashMap
use ikigai_core.HashMap.{HashMap}
use ikigai_core.HashMap.Totals.{total, total-remove, length-remove, get_of-get_elem?}
use ikigai_core.Cache.Entry.{CacheKey, key_eq, Slot, slot_bytes, facts}
use ikigai_core.Cache.State.{CacheState, evict}
use ikigai_core.Cache.Policy.{CachePolicy}
use ikigai_core.Cache.Policy.Lawful.{IsLawful}
use ikigai_core.Cache.Store.{over, choose, resident, evict_one, enforce, enforce_bound}

module _ {Error : Type 0} where
  -- The running total is the sum over the entries.
  abbrev pub IsExact : CacheState Error → Type 0
  IsExact s = s.bytes ≡ total slot_bytes s.entries

  pub record Evicted (s s' : CacheState Error) : Type 0 where
    pub fewer : suc (length s'.entries) ≡ length s.entries
    pub exact : IsExact s → IsExact s'
    pub lighter : s'.bytes ≤ s.bytes

  pub evict-Evicted :
      (s : CacheState Error) (key : CacheKey)
      → HashMap.contains_key s.entries key ≡ true
      → Evicted s (evict s key)
  unfolding evict
  evict-Evicted s key c = elim (Option-cases (HashMap.get s.entries key)) [
    | inl n ↦ absurd (ground (arith, n))
    | inr (slot, n) ↦
        rw (n, evict)
          (record {
            fewer = ground (arith, n, length-remove s.entries key);
            exact = λ e. ground (arith, n, e, total-remove slot_bytes s.entries key);
            lighter = omega arith;
          })
  ]

length-resident : (m : HashMap CacheKey Slot) → length (resident m) ≡ length m
unfolding resident
length-resident [] = refl
length-resident ((k, slot) ∷ m) = ap suc (length-resident m)

total_empty : (m : HashMap CacheKey Slot) → length m ≤ 0 → total slot_bytes m ≡ 0
unfolding total
total_empty [] h = refl
total_empty (x ∷ m) h = elim h [ ]

chosen_key :
    {S : Type 0} (p : CachePolicy S) (kept : S)
    → IsLawful p
    → (m : HashMap CacheKey Slot) → 0 < length m
    → (key : CacheKey) × (choose p kept m ≡ some key) × (HashMap.contains_key m key ≡ true)
unfolding choose resident
chosen_key p kept lawful [] h = elim h [ ]
chosen_key p kept lawful ((k, slot) ∷ m) h =
    let (i, named, small) = lawful.chooses kept (facts k.request slot) (resident m) in
    let (key, found, there_it_is) =
      get_of-get_elem? ((k, slot) ∷ m) i (omega (arith, length-resident m)) in
    (key, rw (choose, named) found, there_it_is)

module _ {Error S : Type 0} (p : CachePolicy S) (kept : S) where
  pub evict_one-Evicted : (s s' : CacheState Error) → evict_one p kept s ≡ some s' → Evicted s s'
  unfolding evict_one
  evict_one-Evicted s s' e =
      elim (Bool-cases (over p s || p.partitioned && p.over_partition (resident s.entries))) [
        | inl much ↦ elim (Option-cases (choose p kept s.entries)) [
          | inl n ↦ absurd (ground (arith, n))
          | inr (key, n) ↦ elim (Bool-cases (HashMap.contains_key s.entries key)) [
            | inl there_it_is ↦
                subst (λ (x : CacheState Error). Evicted s x)
                  (of_some (rw (much, n, there_it_is, evict_one) at e))
                  (evict-Evicted s key there_it_is)
            | inr absent ↦ absurd (ground (arith, n, absent))
          ]
        ]
        | inr fine ↦ absurd (ground (arith, fine))
      ]

  -- The eviction loop returns for every policy and every state, within a round for each entry and
  -- one more.
  pub enforce_total :
      (fuel : ℕ) (s : CacheState Error)
      → length s.entries < fuel
      → (s' : CacheState Error) × (enforce p fuel kept s ≡ some s')
  unfolding enforce
  enforce_total zero s h = elim h [ ]
  enforce_total (suc fuel) s h = elim (Option-cases (evict_one p kept s)) [
    | inl n ↦ (s, rw (n, enforce))
    | inr (s', n) ↦
        rw (n, enforce) (enforce_total fuel s' (omega (arith, (evict_one-Evicted s s' n).fewer)))
  ]

  pub record Enforced (s s' : CacheState Error) : Type 0 where
    pub done : evict_one p kept s' ≡ none
    pub exact : IsExact s → IsExact s'
    pub lighter : s'.bytes ≤ s.bytes

  enforce_lem :
      (fuel : ℕ) (s s' : CacheState Error) → enforce p fuel kept s ≡ some s' → Enforced s s'
  unfolding enforce
  enforce_lem zero s s' e = absurd (ground arith)
  enforce_lem (suc fuel) s s' e = elim (Option-cases (evict_one p kept s)) [
    | inl n ↦
        subst (λ (x : CacheState Error). Enforced s x) (of_some (rw (n, enforce) at e))
          (record { done = n; exact = λ x. x; lighter = omega arith })
    | inr (s'', n) ↦
        let first = evict_one-Evicted s s'' n in
        let rest = enforce_lem fuel s'' s' (rw (n, enforce) at e) in
        record {
          done = rest.done;
          exact = λ x. rest.exact (first.exact x);
          lighter = omega (arith, first.lighter, rest.lighter);
        }
  ]

  -- `enforce_bound` returns by its loop's own test, whatever the policy.
  pub enforce_bound-Enforced : (s : CacheState Error) → Enforced s (enforce_bound p kept s)
  unfolding enforce_bound
  enforce_bound-Enforced s =
      let (s', e) = enforce_total (suc (length s.entries)) s (omega arith) in
      rw (e, enforce_bound) (enforce_lem (suc (length s.entries)) s s' e)

  busy : (s : CacheState Error) → IsExact s → over p s ≡ true → 0 < length s.entries
  unfolding over
  busy s exact much = elim (Bool-cases (ltb 0 (length s.entries))) [
    | inl some_left ↦ ground (arith, some_left)
    | inr nothing_left ↦
        absurd (ground (arith, much, exact, total_empty s.entries (ground (arith, nothing_left))))
  ]

  -- Where a lawful policy's loop stops, the bound holds.
  pub within_of-done :
      IsLawful p
      → (s : CacheState Error) → IsExact s
      → evict_one p kept s ≡ none
      → (length s.entries ≤ p.capacity.max_entries) × (s.bytes ≤ p.capacity.max_bytes)
  unfolding evict_one
  within_of-done lawful s exact done = elim (Bool-cases (over p s)) [
    | inr fine ↦ unfold over in ground arith
    | inl much ↦
        let (key, named, there_it_is) = chosen_key p kept lawful s.entries (busy s exact much) in
        absurd (ground (arith, named, there_it_is, much, done))
  ]
