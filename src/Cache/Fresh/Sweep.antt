-- ===== src/Cache/Fresh/Sweep.antt =====
-- crates/ikigai-core/src/cache.rs: the invariant through a sweep of the generations.
use ikigai_core.Prelude.{
  ℕ, ◌≡◌, refl, nat_eq, list_eq, Bool, true, ◌||◌, List, [], ◌∷◌, ◌++◌, max, leb, length, arith,
  Bool-cases, inl, inr, All, eq_refl, saturating_mul,
}
use ikigai_core.TreeSet.{contains}
use ikigai_core.HashMap.{HashMap, retain}
use ikigai_core.Repr.{Thread}
use ikigai_core.Cache.Entry.{CacheKey, key_eq, Edge, Slot, FailedSlot}
use ikigai_core.Cache.State.{
  CacheState, edge_threads, entry_threads, failure_threads, sweep_generations,
}
use ikigai_core.Cache.History.{Event, cut_threads}
use ikigai_core.Cache.Fresh.Edges.{EdgeIsFresh, retain-EdgeIsFresh, retain-Bounded}
use ikigai_core.Cache.Fresh.Invariant.{SlotIsFresh, FailedIsFresh, IsFresh}

abbrev PinnedIn : List Thread → List Edge → Type 0
PinnedIn ts edges = All (λ e. contains ts e.0 ≡ true) edges

contains-append :
    (ts us : List Thread) (t : Thread) → contains (ts ++ us) t ≡ (contains ts t || contains us t)
unfolding contains
contains-append [] us t = refl
contains-append (u ∷ ts) us t = ground (arith, contains-append ts us t)

edges_in :
    (edges : List Edge) (l : List Thread)
    → ((t : Thread) → contains (edge_threads edges) t ≡ true → contains l t ≡ true)
    → PinnedIn l edges
unfolding edge_threads contains
edges_in [] l h = tt
edges_in (x ∷ edges) l h =
    (h x.0 (ground (arith, eq_refl x.0)), edges_in edges l (λ t c. h t (ground arith)))

entries_in :
    (m : HashMap CacheKey Slot) (l : List Thread)
    → ((t : Thread) → contains (entry_threads m) t ≡ true → contains l t ≡ true)
    → All (λ x. PinnedIn l x.1.edges) m
unfolding entry_threads
entries_in [] l h = tt
entries_in ((k, slot) ∷ m) l h = (
  edges_in slot.edges l
      (λ t c. h t (ground (arith, contains-append (edge_threads slot.edges) (entry_threads m) t))),
  entries_in m l
      (λ t c. h t (ground (arith, contains-append (edge_threads slot.edges) (entry_threads m) t))),
)

module _ {Error : Type 0} where
  failures_in :
      (m : HashMap CacheKey (FailedSlot Error)) (l : List Thread)
      → ((t : Thread) → contains (failure_threads m) t ≡ true → contains l t ≡ true)
      → All (λ x. PinnedIn l x.1.edges) m
  unfolding failure_threads
  failures_in [] l h = tt
  failures_in ((k, slot) ∷ m) l h = (
    edges_in slot.edges l (λ t c.
        h t (ground (arith, contains-append (edge_threads slot.edges) (failure_threads m) t))),
    failures_in m l (λ t c.
        h t (ground (arith, contains-append (edge_threads slot.edges) (failure_threads m) t))),
  )

module _ (h : List Thread) (n : ℕ) (keep : Thread → Bool) (gens : HashMap Thread ℕ) where
  edges_swept :
      (edges : List Edge)
      → All (λ e. keep e.0 ≡ true) edges
      → All (EdgeIsFresh h n gens) edges
      → All (EdgeIsFresh h n (retain (λ u _. keep u) gens)) edges
  edges_swept [] a b = tt
  edges_swept (x ∷ edges) a b =
      (retain-EdgeIsFresh h n keep gens x a.0 b.0, edges_swept edges a.1 b.1)

module _ {Error : Type 0} (past : List (Event Error)) (keep : Thread → Bool)
    (gens : HashMap Thread ℕ) where
  slots_swept :
      (m : HashMap CacheKey Slot)
      → All (λ x. All (λ e. keep e.0 ≡ true) x.1.edges) m
      → All (SlotIsFresh past gens) m
      → All (SlotIsFresh past (retain (λ u _. keep u) gens)) m
  slots_swept [] a b = tt
  slots_swept (x ∷ m) a b = (
    record {
      since = b.0.since;
      origin = b.0.origin;
      pins = b.0.pins;
      fresh = edges_swept (cut_threads past) b.0.since keep gens x.1.edges a.0 b.0.fresh;
    },
    slots_swept m a.1 b.1,
  )

  failures_swept :
      (m : HashMap CacheKey (FailedSlot Error))
      → All (λ x. All (λ e. keep e.0 ≡ true) x.1.edges) m
      → All (FailedIsFresh past gens) m
      → All (FailedIsFresh past (retain (λ u _. keep u) gens)) m
  failures_swept [] a b = tt
  failures_swept (x ∷ m) a b = (
    record {
      since = b.0.since;
      origin = b.0.origin;
      pins = b.0.pins;
      fresh = edges_swept (cut_threads past) b.0.since keep gens x.1.edges a.0 b.0.fresh;
    },
    failures_swept m a.1 b.1,
  )

module _ {Error : Type 0} (past : List (Event Error)) (s : CacheState Error) where
  -- A sweep forgets only generations that nothing pins.
  pub sweep-IsFresh : (n : ℕ) → IsFresh past s → IsFresh past (sweep_generations s n)
  unfolding sweep_generations
  sweep-IsFresh n f =
      elim (Bool-cases (leb (length s.generations) (max (saturating_mul n 2) 1024))) [
        | inl small ↦ rw small f
        | inr large ↦
            let pinned = entry_threads s.entries ++ failure_threads s.failures in
            rw large (record {
              logged = record {
                counted = f.logged.counted;
                forgotten = f.logged.forgotten;
                log = f.logged.log;
                horizon = f.logged.horizon;
              };
              bounded = retain-Bounded (cut_threads past) (contains pinned) s.generations f.bounded;
              entries =
                  slots_swept past (contains pinned) s.generations s.entries
                    (entries_in s.entries pinned (λ t c. ground (
                      arith,
                      contains-append (entry_threads s.entries) (failure_threads s.failures) t,
                    )))
                    f.entries;
              failures =
                  failures_swept past (contains pinned) s.generations s.failures
                    (failures_in s.failures pinned (λ t c. ground (
                      arith,
                      contains-append (entry_threads s.entries) (failure_threads s.failures) t,
                    )))
                    f.failures;
            })
      ]
