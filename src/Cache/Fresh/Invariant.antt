-- ===== src/Cache/Fresh/Invariant.antt =====
-- crates/ikigai-core/src/cache.rs: the invariant of a cache beside its history.
use ikigai_core.Prelude.{ℕ, ◌≡◌, nat_eq, list_eq, List, ◌∷◌, Option-cases, inl, inr, All, All-mono}
use ikigai_core.HashMap
use ikigai_core.HashMap.{HashMap, retain}
use ikigai_core.HashMap.Laws.{All-remove}
use ikigai_core.Repr.{Thread, threads}
use ikigai_core.Cache.Entry.{CacheKey, key_eq, Edge, Slot, FailedSlot}
use ikigai_core.Cache.State.{CacheState, edge_threads, evict}
use ikigai_core.Cache.CutLog.{IsLogged}
use ikigai_core.Cache.Failure.{answered}
use ikigai_core.Cache.History.{Event, cut_threads, Stored, StoredFailure, there}
use ikigai_core.Cache.Fresh.Edges.{EdgeIsFresh, Bounded}

module _ {Error : Type 0} where
  -- The entry stands as a call stored it, with its pins, and they are fresh since its snapshot.
  pub record SlotIsFresh (past : List (Event Error)) (gens : HashMap Thread ℕ) (x : CacheKey × Slot)
      : Type 0 where
    pub since : ℕ
    pub origin : Stored x.0 x.1.representation since past
    pub pins : edge_threads x.1.edges ≡ threads x.1.representation
    pub fresh : All (EdgeIsFresh (cut_threads past) since gens) x.1.edges

  pub record FailedIsFresh (past : List (Event Error)) (gens : HashMap Thread ℕ)
      (x : CacheKey × FailedSlot Error) : Type 0 where
    pub since : ℕ
    pub origin : StoredFailure x.0 (answered x.1) since past
    pub pins : edge_threads x.1.edges ≡ x.1.threads
    pub fresh : All (EdgeIsFresh (cut_threads past) since gens) x.1.edges

  pub record IsFresh (past : List (Event Error)) (s : CacheState Error) : Type 0 where
    pub logged : IsLogged (cut_threads past) s
    pub bounded : Bounded (cut_threads past) s.generations
    pub entries : All (SlotIsFresh past s.generations) s.entries
    pub failures : All (FailedIsFresh past s.generations) s.failures

  -- A call that cuts nothing leaves what the past says of every entry.
  module _ (past : List (Event Error)) (e : Event Error)
      (calm : cut_threads (e ∷ past) ≡ cut_threads past) (gens : HashMap Thread ℕ) where
    edges_later :
        (n : ℕ) (edges : List Edge)
        → All (EdgeIsFresh (cut_threads past) n gens) edges
        → All (EdgeIsFresh (cut_threads (e ∷ past)) n gens) edges
    edges_later n edges a = rw calm a

    slot_later : (x : CacheKey × Slot) → SlotIsFresh past gens x → SlotIsFresh (e ∷ past) gens x
    slot_later x f = record {
      since = f.since;
      origin = there e f.origin;
      pins = f.pins;
      fresh = edges_later f.since x.1.edges f.fresh;
    }

    failed_later :
        (x : CacheKey × FailedSlot Error)
        → FailedIsFresh past gens x
        → FailedIsFresh (e ∷ past) gens x
    failed_later x f = record {
      since = f.since;
      origin = there e f.origin;
      pins = f.pins;
      fresh = edges_later f.since x.1.edges f.fresh;
    }

  pub IsFresh-later :
      (past : List (Event Error)) (e : Event Error) (s : CacheState Error)
      → cut_threads (e ∷ past) ≡ cut_threads past
      → IsFresh past s
      → IsFresh (e ∷ past) s
  IsFresh-later past e s calm f = record {
    logged = rw calm f.logged;
    bounded = rw calm f.bounded;
    entries = All-mono (slot_later past e calm s.generations) s.entries f.entries;
    failures = All-mono (failed_later past e calm s.generations) s.failures f.failures;
  }

  module _ (past : List (Event Error)) (s : CacheState Error) where
    pub evict-IsFresh : (key : CacheKey) → IsFresh past s → IsFresh past (evict s key)
    unfolding evict
    evict-IsFresh key f = elim (Option-cases (HashMap.get s.entries key)) [
      | inl none_there ↦ rw (none_there, evict) f
      | inr (slot, there_it_is) ↦
          rw (there_it_is, evict)
            (record {
              logged = record {
                counted = f.logged.counted;
                forgotten = f.logged.forgotten;
                log = f.logged.log;
                horizon = f.logged.horizon;
              };
              bounded = f.bounded;
              entries = All-remove (SlotIsFresh past s.generations) s.entries key f.entries;
              failures = f.failures;
            })
    ]
