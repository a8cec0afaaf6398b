-- ===== src/Cache/Bound/Histories.antt =====
-- crates/ikigai-core/src/cache.rs: the bound of a cache over histories of calls.
use ikigai_core.HashMap.Totals.{total}
use ikigai_core.Prelude.{
  wrapping_add, u64_max, ℕ, ◌+◌, ◌≤◌, ◌≡◌, refl, Str, List, [], ◌∷◌, Option, none, Bool-cases,
  Option-cases, inl, inr, arith,
}
use ikigai_core.TreeSet.{TreeSet}
use ikigai_core.Repr.{share, copied, threads, Representation, Provenance}
use ikigai_core.Repr.Content.{Body, is_one_shot}
use ikigai_core.Repr.Lifetime.{Time}
use ikigai_core.HashMap
use ikigai_core.Cache.Entry.{
  key_eq, EntryState, live, cut, expired, EntryState, FailedSlot, slot_bytes, CacheKey, Edge,
}
use ikigai_core.Cache.State.{record_cut, CacheState, cut_since}
use ikigai_core.Cache.Serve.{state-hit_of, ReprCache, lookup, get, get_body, cut_thread}
use ikigai_core.Cache.Policy.{CachePolicy}
use ikigai_core.Cache.Policy.Lawful.{IsLawful}
use ikigai_core.Cache.Store.{settle, offer_to_policy, candidate_facts, loses_contest, store_outcome}
use ikigai_core.Cache.Failure.{store_failure, get_failure, failure_answer}
use ikigai_core.Cache.History.{Event, look, copy, read, drop, store, fail, recall, apply, run}
use ikigai_core.Cache.Bound.Accounting.{
  IsWithin, serve_or_offer-IsWithin, discard-IsWithin, sweep-IsWithin, file-IsExact,
  enforce_bound-IsWithin, body_size-share,
}

module _ {S : Type 0} (p : CachePolicy S) (lawful : IsLawful p)
    (half : p.capacity.max_bytes + p.capacity.max_bytes ≤ u64_max) where
  module _ {Error : Type 0} where
    same_entries :
        (s s' : CacheState Error)
        → s'.entries ≡ s.entries
        → s'.bytes ≡ s.bytes
        → IsWithin p s
        → IsWithin p s'
    same_entries s s' a b w = record {
      exact = rw (a, b) w.exact;
      entries = rw a w.entries;
      bytes = rw b w.bytes;
    }

    settle-IsWithin :
        (kept : S) (s : CacheState Error) (key : CacheKey) (target : Str) (r : Representation Body)
        (edges : List Edge) (cost : Option ℕ) (incoming : Option Provenance)
        → (candidate_facts p s key target r edges cost).bytes ≤ p.capacity.max_bytes
        → IsWithin p s
        → IsWithin p (settle p kept s key target r edges cost incoming).0
    unfolding settle candidate_facts slot_bytes
    settle-IsWithin kept s key target r edges cost incoming small w =
        elim (Option-cases (share r)) [
          | inl n ↦ rw (n, settle) w
          | inr (shared, n) ↦
              rw (n, settle)
                (sweep-IsWithin p _ p.capacity.max_entries (
                  enforce_bound-IsWithin p lawful kept _
                    (file-IsExact p s key _ half (rw (body_size-share p r shared n) small) w)))
        ]

    offer_to_policy-IsWithin :
        (c : ReprCache Error S) (key : CacheKey) (target : Str) (r : Representation Body)
        (edges : List Edge) (cost : Option ℕ) (incoming : Option Provenance)
        → IsWithin p c.state
        → IsWithin p (offer_to_policy p c key target r edges cost incoming).0.state
    unfolding offer_to_policy
    offer_to_policy-IsWithin c key target r edges cost incoming w =
        let s = record c.state { tick = wrapping_add c.state.tick 1 } in
        let candidate = candidate_facts p s key target r edges cost in
        let ticked = same_entries c.state s refl refl w in
        elim (Bool-cases (p.admit c.policy_state candidate).0) [
          | inr refused ↦ rw (refused, offer_to_policy) ticked
          | inl taken ↦
              elim (Bool-cases
                (loses_contest p (p.admit c.policy_state candidate).1 s key candidate)) [
                  | inl lost ↦ rw (taken, lost, offer_to_policy) ticked
                  | inr won ↦
                      rw (taken, won, offer_to_policy)
                        (settle-IsWithin (p.admit c.policy_state candidate).1 s key target r edges
                          cost incoming (lawful.fits c.policy_state candidate taken) ticked)
                ]
        ]

    store-IsWithin :
        (c : ReprCache Error S) (key : CacheKey) (target : Str) (r : Representation Body)
        (taken : ℕ) (cost : Option ℕ) (incoming : Option Provenance)
        → IsWithin p c.state
        → IsWithin p (store_outcome p c key target r taken cost incoming).0.state
    unfolding store_outcome
    store-IsWithin c key target r taken cost incoming w =
        elim (Bool-cases (is_one_shot r.content)) [
          | inl once ↦ rw (once, store_outcome) w
          | inr again ↦ elim (Bool-cases (cut_since c.state (threads r) taken)) [
            | inl raced ↦ rw (again, raced, store_outcome) w
            | inr calm ↦
                rw (again, calm, store_outcome)
                  (offer_to_policy-IsWithin c key target r _ cost incoming w)
          ]
        ]

    fail-IsWithin :
        (c : ReprCache Error S) (key : CacheKey) (target : Str) (error : Error) (until : Time)
        (ts : TreeSet) (taken : ℕ) (incoming : Option Provenance)
        → IsWithin p c.state
        → IsWithin p (store_failure c key target error until ts taken incoming).0.state
    unfolding store_failure
    fail-IsWithin c key target error until ts taken incoming w =
        elim (Bool-cases (cut_since c.state ts taken)) [
          | inl raced ↦ rw (raced, store_failure) w
          | inr calm ↦ rw (calm, store_failure) (same_entries c.state _ refl refl w)
        ]

    failure_answer-IsWithin :
        (s : CacheState Error) (key : CacheKey) (slot : FailedSlot Error)
        (incoming : Option Provenance) (st : EntryState)
        → IsWithin p s
        → IsWithin p (failure_answer s key slot incoming st).0
    unfolding failure_answer
    failure_answer-IsWithin s key slot incoming live w = w
    failure_answer-IsWithin s key slot incoming cut w = same_entries s _ refl refl w
    failure_answer-IsWithin s key slot incoming expired w = same_entries s _ refl refl w

    recall-IsWithin :
        (s : CacheState Error) (key : CacheKey) (now : Option Time) (incoming : Option Provenance)
        → IsWithin p s
        → IsWithin p (get_failure s key now incoming).0
    unfolding get_failure
    recall-IsWithin s key now incoming w = elim (Option-cases (HashMap.get s.failures key)) [
      | inl n ↦ rw (n, get_failure) w
      | inr (slot, n) ↦ rw (n, get_failure) (failure_answer-IsWithin s key slot incoming _ w)
    ]

    apply-IsWithin :
        (c : ReprCache Error S) (e : Event Error)
        → IsWithin p c.state
        → IsWithin p (apply p c e).state
    unfolding apply cut_thread record_cut lookup get get_body
    apply-IsWithin c (Event.cut t) w = same_entries c.state _ refl refl w
    apply-IsWithin c (look key now as_buffer incoming offering) w =
        serve_or_offer-IsWithin p c.state _ _ key now w
    apply-IsWithin c (copy key now) w =
        rw state-hit_of
          (serve_or_offer-IsWithin p c.state (λ x. copied x.representation) (λ _. none) key now w)
    apply-IsWithin c (read key now) w =
        rw state-hit_of
          (serve_or_offer-IsWithin p c.state (λ x. share x.representation) (λ _. none) key now w)
    apply-IsWithin c (drop key offer) w = discard-IsWithin p c.state key offer w
    apply-IsWithin c (store key target r taken cost incoming) w =
        store-IsWithin c key target r taken cost incoming w
    apply-IsWithin c (fail key target error until ts taken incoming) w =
        fail-IsWithin c key target error until ts taken incoming w
    apply-IsWithin c (recall key now incoming) w = recall-IsWithin c.state key now incoming w

    -- Under a lawful policy whose bound of bytes is at most half of the largest size, every
    -- history of calls leaves the cache within its bounds of entries and of bytes, and its count
    -- of bytes exact.
    pub run-IsWithin : (kept : S) (past : List (Event Error)) → IsWithin p (run p kept past).state
    unfolding run total
    run-IsWithin kept [] = record { exact = refl; entries = omega arith; bytes = omega arith }
    run-IsWithin kept (e ∷ past) = apply-IsWithin (run p kept past) e (run-IsWithin kept past)
