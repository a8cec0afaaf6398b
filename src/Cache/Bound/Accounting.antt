-- ===== src/Cache/Bound/Accounting.antt =====
-- crates/ikigai-core/src/cache.rs: the count of bytes, through each operation on the state.
use ikigai_core.Repr.Lifetime.{Time}
use ikigai_core.Prelude.{
  ◌-◌, nat_eq, saturating_add, u64_max, is_some, saturating_mul, ◌==◌, u64_max, inr, max, leb, inl,
  ◌+◌, wrapping_add, ◌≤◌, some, length, saturating_add, arith, Option-cases, Bool-cases, ℕ, ◌≤◌,
  ◌≡◌, refl, ◌+◌, Option, none, some,
}
use ikigai_core.HashMap
use ikigai_core.HashMap.{HashMap}
use ikigai_core.HashMap.Totals.{
  share_of, total, total-remove, total-insert, total-modify, length-modify,
}
use ikigai_core.Repr.{Representation, share, origin_validator}
use ikigai_core.Repr.Content.{Body, share_body, bytes, replay, once}
use ikigai_core.Cache.Entry.{
  CacheKey, key_eq, Slot, slot_bytes, body_size, EntryState, live, cut, expired,
}
use ikigai_core.Cache.State.{CacheState, evict, sweep_generations}
use ikigai_core.Cache.Answer.{Offer, touch}
use ikigai_core.Cache.Serve.{
  count_hit, serve_live, serve_expired, serve_entry, serve_or_offer, discard,
}
use ikigai_core.Cache.Policy.{CachePolicy}
use ikigai_core.Cache.Policy.Lawful.{IsLawful}
use ikigai_core.Cache.Store.{file, enforce_bound, size_of}
use ikigai_core.Cache.Bound.Eviction.{
  IsExact, evict-Evicted, enforce_bound-Enforced, within_of-done,
}

-- The sum of the old total less the old part and the new part, where it does not saturate.
summed :
    (held old new before_sum after_sum : ℕ)
    → held ≡ before_sum
    → old ≤ before_sum
    → after_sum + old ≡ before_sum + new
    → held + new ≤ u64_max
    → saturating_add (held - old) new ≡ after_sum
summed held old new before_sum after_sum a b c d = omega arith

module _ {S : Type 0} (p : CachePolicy S) where
  -- At most the bound's entries and bytes, and the running total is exact.
  pub record IsWithin {Error : Type 0} (s : CacheState Error) : Type 0 where
    pub exact : IsExact s
    pub entries : length s.entries ≤ p.capacity.max_entries
    pub bytes : s.bytes ≤ p.capacity.max_bytes

  module _ {Error : Type 0} (s : CacheState Error) where
    pub evict-IsWithin : (key : CacheKey) → IsWithin s → IsWithin (evict s key)
    unfolding evict
    evict-IsWithin key w = elim (Option-cases (HashMap.get s.entries key)) [
      | inl n ↦ rw (n, evict) w
      | inr (slot, n) ↦
          let e = evict-Evicted s key (ground (arith, n)) in
          record {
            exact = e.exact w.exact;
            entries = omega (arith, e.fewer, w.entries);
            bytes = omega (arith, e.lighter, w.bytes);
          }
    ]

    count_hit-IsWithin : (key : CacheKey) → IsWithin s → IsWithin (count_hit s key)
    unfolding count_hit slot_bytes
    count_hit-IsWithin key w = record {
      exact = omega (
        arith,
        w.exact,
        total-modify slot_bytes s.entries key (touch (wrapping_add s.tick 1)) (λ v. refl),
      );
      entries =
          omega (arith, w.entries, length-modify s.entries key (touch (wrapping_add s.tick 1)));
      bytes = w.bytes;
    }

    module _ {T : Type 0} (face : Slot → Option T) (offer : Slot → Option Offer)
        (key : CacheKey) where
      serve_entry-IsWithin :
          (entry : Slot) (st : EntryState)
          → IsWithin s
          → IsWithin (serve_entry face offer s key entry st).0
      unfolding serve_entry
      serve_entry-IsWithin entry live w = elim (Option-cases (face entry)) [
        | inl e ↦ rw (e, serve_live) w
        | inr (a, e) ↦ rw (e, serve_live) (count_hit-IsWithin key w)
      ]
      serve_entry-IsWithin entry expired w =
          elim (Bool-cases (is_some (origin_validator entry.representation))) [
            | inl e ↦ rw (e, serve_expired) w
            | inr e ↦ rw (e, serve_expired) (evict-IsWithin key w)
          ]
      serve_entry-IsWithin entry cut w = evict-IsWithin key w

      pub serve_or_offer-IsWithin :
          (now : Option Time) → IsWithin s → IsWithin (serve_or_offer face offer s key now).0
      unfolding serve_or_offer
      serve_or_offer-IsWithin now w = elim (Option-cases (HashMap.get s.entries key)) [
        | inl n ↦ rw (n, serve_or_offer) w
        | inr (entry, n) ↦ rw (n, serve_or_offer) (serve_entry-IsWithin entry _ w)
      ]

    pub discard-IsWithin :
        (key : CacheKey) (offer : Option Offer) → IsWithin s → IsWithin (discard s key offer)
    unfolding discard
    discard-IsWithin key none w = w
    discard-IsWithin key (some o) w = elim (Option-cases (HashMap.get s.entries key)) [
      | inl n ↦ rw (n, discard) w
      | inr (entry, n) ↦ elim (Bool-cases (entry.stored_tick == o.stored_tick)) [
        | inl same ↦ rw (n, same, discard) (evict-IsWithin key w)
        | inr other ↦ rw (n, other, discard) w
      ]
    ]

    pub sweep-IsWithin : (max_entries : ℕ) → IsWithin s → IsWithin (sweep_generations s max_entries)
    unfolding sweep_generations
    sweep-IsWithin max_entries w =
        elim (Bool-cases (leb (length s.generations) (max (saturating_mul max_entries 2) 1024))) [
          | inl e ↦ rw (e, sweep_generations) w
          | inr e ↦
              rw (e, sweep_generations)
                (record { exact = w.exact; entries = w.entries; bytes = w.bytes })
        ]

    share_of-size_of :
        (key : CacheKey)
        → share_of slot_bytes (HashMap.get s.entries key) ≡ size_of (HashMap.get s.entries key)
    share_of-size_of key = elim (Option-cases (HashMap.get s.entries key)) [
      | inl n ↦ rw n refl
      | inr (slot, n) ↦ rw n refl
    ]

    -- The sum does not saturate, since both parts fit the bound.
    pub file-IsExact :
        (key : CacheKey) (slot : Slot)
        → p.capacity.max_bytes + p.capacity.max_bytes ≤ u64_max
        → slot_bytes slot ≤ p.capacity.max_bytes
        → IsWithin s
        → IsExact (file s key slot)
    unfolding file
    file-IsExact key slot half small w =
        let inserted = total-insert slot_bytes s.entries key slot in
        let removed = total-remove slot_bytes s.entries key in
        summed s.bytes _ (slot_bytes slot) (total slot_bytes s.entries) _ w.exact
          (omega (arith, removed, share_of-size_of key))
          (omega (arith, inserted, share_of-size_of key)) (omega (arith, w.bytes))

  -- A lawful policy's bound holds wherever the count is exact.
  pub enforce_bound-IsWithin :
      {Error : Type 0} (lawful : IsLawful p) (kept : S) (s : CacheState Error)
      → IsExact s
      → IsWithin (enforce_bound p kept s)
  enforce_bound-IsWithin lawful kept s exact =
      let e = enforce_bound-Enforced p kept s in
      let (few, small) =
        within_of-done p kept lawful (enforce_bound p kept s) (e.exact exact) e.done in
      record { exact = e.exact exact; entries = few; bytes = small }

  pub body_size-share :
      (r shared : Representation Body)
      → share r ≡ some shared
      → body_size shared.content ≡ body_size r.content
  unfolding share
  body_size-share r shared e = parts r.content refl
    where
      parts : (x : Body) → r.content ≡ x → body_size shared.content ≡ body_size r.content
      parts (bytes x) q = unfold share_body in ground (arith, q)
      parts (replay x) q = unfold share_body in ground (arith, q)
      parts (once x) q = unfold share_body in absurd (ground (arith, q))
