-- ===== src/Cache/Fresh/Calls.antt =====
-- crates/ikigai-core/src/cache.rs: the invariant through a cut, the reads, and the filing of an entry
-- or a failure.
use ikigai_core.Prelude.{
  suc, ◌<◌, ◌≡◌, refl, ◌==◌, nat_eq, list_eq, List, ◌∷◌, Option, none, some, length, Bool-cases,
  Option-cases, inl, inr, All-mono, u64_mod, is_some,
}
use ikigai_core.HashMap
use ikigai_core.HashMap.{HashMap}
use ikigai_core.HashMap.Laws.{All-insert, All-remove, All-modify}
use ikigai_core.Repr.{Thread, Provenance, origin_validator}
use ikigai_core.Repr.Lifetime.{Time}
use ikigai_core.Cache.Entry.{CacheKey, key_eq, Slot, FailedSlot, EntryState, live, cut, expired}
use ikigai_core.Cache.State.{CacheState, record_cut, state_of, failure_state}
use ikigai_core.Cache.Answer.{Offer}
use ikigai_core.Cache.Serve.{
  count_hit, serve_live, serve_expired, serve_entry, serve_or_offer, discard,
}
use ikigai_core.Cache.Store.{file}
use ikigai_core.Cache.Failure.{get_failure, failure_answer}
use ikigai_core.Cache.CutLog.{IsLogged, record_cut-IsLogged}
use ikigai_core.Cache.History.{Event, cut_threads, there}
use ikigai_core.Cache.Fresh.Edges.{cut-EdgeIsFresh, cut-Bounded}
use ikigai_core.Cache.Fresh.Invariant.{SlotIsFresh, FailedIsFresh, IsFresh, evict-IsFresh}

module _ {Error : Type 0} (past : List (Event Error)) (s : CacheState Error) where
  -- The log of another state with the same cuts.
  pub relogged :
      (s' : CacheState Error)
      → s'.seq ≡ s.seq
      → s'.cuts ≡ s.cuts
      → s'.horizon ≡ s.horizon
      → IsLogged (cut_threads past) s
      → IsLogged (cut_threads past) s'
  relogged s' a b c l = record {
    counted = cc (a, l.counted);
    forgotten = l.forgotten;
    log = rw b l.log;
    horizon = cc (c, l.horizon);
  }

  pub cut-IsFresh :
      (t : Thread)
      → suc (length (cut_threads past)) < u64_mod
      → IsFresh past s
      → IsFresh (Event.cut t ∷ past) (record_cut s t).0
  unfolding cut_threads record_cut
  cut-IsFresh t fits f = record {
    logged = record_cut-IsLogged (cut_threads past) s t f.logged fits;
    bounded = cut-Bounded (cut_threads past) s.generations t fits f.bounded;
    entries =
        All-mono
          (λ x h. record {
            since = h.since;
            origin = there (Event.cut t) h.origin;
            pins = h.pins;
            fresh =
                All-mono (cut-EdgeIsFresh (cut_threads past) s.generations t fits f.bounded h.since)
                  x.1.edges h.fresh;
          })
          s.entries f.entries;
    failures =
        All-mono
          (λ x h. record {
            since = h.since;
            origin = there (Event.cut t) h.origin;
            pins = h.pins;
            fresh =
                All-mono (cut-EdgeIsFresh (cut_threads past) s.generations t fits f.bounded h.since)
                  x.1.edges h.fresh;
          })
          s.failures f.failures;
  }

  count_hit-IsFresh : (key : CacheKey) → IsFresh past s → IsFresh past (count_hit s key)
  unfolding count_hit
  count_hit-IsFresh key f = record {
    logged = relogged (count_hit s key) refl refl refl f.logged;
    bounded = f.bounded;
    entries =
        All-modify (SlotIsFresh past s.generations) s.entries key _
          (λ j v h. record { since = h.since; origin = h.origin; pins = h.pins; fresh = h.fresh })
          f.entries;
    failures = f.failures;
  }

  module _ {T : Type 0} (face : Slot → Option T) (offer : Slot → Option Offer)
      (key : CacheKey) where
    serve_entry-IsFresh :
        (entry : Slot) (st : EntryState)
        → IsFresh past s
        → IsFresh past (serve_entry face offer s key entry st).0
    unfolding serve_entry
    serve_entry-IsFresh entry live f = elim (Option-cases (face entry)) [
      | inl e ↦ rw (e, serve_live) f
      | inr (a, e) ↦ rw (e, serve_live) (count_hit-IsFresh key f)
    ]
    serve_entry-IsFresh entry expired f =
        elim (Bool-cases (is_some (origin_validator entry.representation))) [
          | inl e ↦ rw (e, serve_expired) f
          | inr e ↦ rw (e, serve_expired) (evict-IsFresh past s key f)
        ]
    serve_entry-IsFresh entry cut f = evict-IsFresh past s key f

    pub serve_or_offer-IsFresh :
        (now : Option Time) → IsFresh past s → IsFresh past (serve_or_offer face offer s key now).0
    unfolding serve_or_offer
    serve_or_offer-IsFresh now f = elim (Option-cases (HashMap.get s.entries key)) [
      | inl e ↦ rw (e, serve_or_offer) f
      | inr (entry, e) ↦ rw (e, serve_or_offer) (serve_entry-IsFresh entry (state_of s entry now) f)
    ]

  pub discard-IsFresh :
      (key : CacheKey) (offer : Option Offer) → IsFresh past s → IsFresh past (discard s key offer)
  unfolding discard
  discard-IsFresh key none f = f
  discard-IsFresh key (some o) f = elim (Option-cases (HashMap.get s.entries key)) [
    | inl e ↦ rw (e, discard) f
    | inr (entry, e) ↦ elim (Bool-cases (entry.stored_tick == o.stored_tick)) [
      | inl same ↦ rw (e, same, discard) (evict-IsFresh past s key f)
      | inr other ↦ rw (e, other, discard) f
    ]
  ]

  pub without_failure-IsFresh :
      (key : CacheKey)
      → IsFresh past s
      → IsFresh past (record s { failures = HashMap.remove key s.failures })
  without_failure-IsFresh key f = record {
    logged =
        relogged (record s { failures = HashMap.remove key s.failures }) refl refl refl f.logged;
    bounded = f.bounded;
    entries = f.entries;
    failures = All-remove (FailedIsFresh past s.generations) s.failures key f.failures;
  }

  failure_answer-IsFresh :
      (key : CacheKey) (slot : FailedSlot Error) (incoming : Option Provenance) (st : EntryState)
      → IsFresh past s
      → IsFresh past (failure_answer s key slot incoming st).0
  unfolding failure_answer
  failure_answer-IsFresh key slot incoming live f = f
  failure_answer-IsFresh key slot incoming cut f = without_failure-IsFresh key f
  failure_answer-IsFresh key slot incoming expired f = without_failure-IsFresh key f

  pub get_failure-IsFresh :
      (key : CacheKey) (now : Option Time) (incoming : Option Provenance)
      → IsFresh past s
      → IsFresh past (get_failure s key now incoming).0
  unfolding get_failure
  get_failure-IsFresh key now incoming f = elim (Option-cases (HashMap.get s.failures key)) [
    | inl e ↦ rw (e, get_failure) f
    | inr (slot, e) ↦
        rw (e, get_failure) (failure_answer-IsFresh key slot incoming (failure_state s slot now) f)
  ]

  pub file-IsFresh :
      (key : CacheKey) (slot : Slot)
      → SlotIsFresh past s.generations (key, slot)
      → IsFresh past s
      → IsFresh past (file s key slot)
  unfolding file
  file-IsFresh key slot new f = record {
    logged = relogged (file s key slot) refl refl refl f.logged;
    bounded = f.bounded;
    entries = All-insert (SlotIsFresh past s.generations) s.entries key slot f.entries new;
    failures = All-remove (FailedIsFresh past s.generations) s.failures key f.failures;
  }
