-- ===== src/Cache/State.antt =====
-- crates/ikigai-core/src/cache.rs: `CacheState`, the cuts of golden threads and the check for a
-- cut in flight. `Error` is the program's error type.
use ikigai_core.Prelude.{
  or_zero, ℕ, ◌-◌, ◌==◌, nat_eq, list_eq, Bool, true, false, ◌&&◌, ◌||◌, List, [], ◌∷◌, ◌++◌, map,
  reverse, Option, none, some, length, max, ltb, leb, if◌then◌else◌, wrapping_add, saturating_add,
  saturating_mul,
}
use ikigai_core.TreeSet.{TreeSet, contains}
use ikigai_core.HashMap
use ikigai_core.HashMap.{HashMap}
use ikigai_core.Repr.{Thread}
use ikigai_core.Repr.Lifetime.{Time, Expiry, always, at, never}
use ikigai_core.Cache.Entry.{
  CacheKey, key_eq, Edge, Slot, FailedSlot, EntryState, live, cut, expired, slot_bytes,
}

abbrev pub cut_log : ℕ
cut_log = 4096

pub record CacheState (Error : Type 0) : Type 0 where
  pub entries : HashMap CacheKey Slot
  pub failures : HashMap CacheKey (FailedSlot Error)
  pub generations : HashMap Thread ℕ
  pub cuts : List (Thread × ℕ)
  pub horizon : ℕ
  pub seq : ℕ
  pub tick : ℕ
  pub bytes : ℕ
  pub evictions : ℕ

-- A generation that is absent is 0.
unfoldable pub generation_in : HashMap Thread ℕ → Thread → ℕ
generation_in generations thread = or_zero (HashMap.get generations thread)

unfoldable pub edges_current : HashMap Thread ℕ → List Edge → Bool
unfolding generation_in
edges_current generations [] = true
edges_current generations ((thread, pinned) ∷ edges) =
    generation_in generations thread == pinned && edges_current generations edges

-- `now.is_some_and(|now| now < deadline)`
abbrev pub before : Option Time → Time → Bool
before none deadline = false
before (some now) deadline = ltb now deadline

-- `pop_front`, with the horizon that it moves.
abbrev pop_front : ℕ → List (Thread × ℕ) → ℕ × List (Thread × ℕ)
pop_front horizon [] = (horizon, [])
pop_front horizon ((_, forgotten) ∷ rest) = (forgotten, rest)

-- The log makes room before a cut is pushed.
unfoldable pub make_room : ℕ → List (Thread × ℕ) → ℕ × List (Thread × ℕ)
make_room horizon cuts =
    if leb cut_log (length cuts) then pop_front horizon cuts else (horizon, cuts)

-- `iter().rev().take_while(|(_, seq)| *seq > taken).any(|(thread, _)| threads.contains(thread))`
unfoldable pub cut_after : TreeSet → ℕ → List (Thread × ℕ) → Bool
unfolding contains
cut_after threads taken [] = false
cut_after threads taken ((thread, seq) ∷ older) =
    let rest = cut_after threads taken older in
    if ltb taken seq then contains threads thread || rest else false

abbrev expiry_state : Option Time → Expiry → EntryState
expiry_state now always = live
expiry_state now (at deadline) = if before now deadline then live else expired
expiry_state now never = live

-- The threads that an entry or a failure pins.
unfoldable pub edge_threads : List Edge → List Thread
edge_threads edges = map (λ e. e.0) edges

unfoldable pub entry_threads : HashMap CacheKey Slot → List Thread
unfolding edge_threads
entry_threads [] = []
entry_threads ((k, slot) ∷ m) = edge_threads slot.edges ++ entry_threads m

module _ {Error : Type 0} where
  unfoldable pub generation_of : CacheState Error → Thread → ℕ
  unfolding generation_in
  generation_of s thread = generation_in s.generations thread

  unfoldable pub record_cut : CacheState Error → Thread → CacheState Error × ℕ
  unfolding generation_of make_room
  record_cut s thread =
      let seq = wrapping_add s.seq 1 in
      let (horizon, kept) = make_room s.horizon s.cuts in
      (
        record s {
          generations =
              HashMap.insert thread (wrapping_add (generation_of s thread) 1) s.generations;
          cuts = kept ++ (thread, seq) ∷ [];
          horizon = horizon;
          seq = seq;
        },
        seq,
      )

  unfoldable pub state_of : CacheState Error → Slot → Option Time → EntryState
  unfolding edges_current
  state_of s entry now =
      if edges_current s.generations entry.edges
      then expiry_state now entry.representation.expiry
      else cut

  unfoldable pub failure_state : CacheState Error → FailedSlot Error → Option Time → EntryState
  unfolding edges_current
  failure_state s slot now =
      if edges_current s.generations slot.edges
      then (if before now slot.until then live else expired)
      else cut

  unfoldable pub cut_since : CacheState Error → TreeSet → ℕ → Bool
  unfolding cut_after
  cut_since s [] taken = false
  cut_since s (t ∷ ts) taken =
      if ltb taken s.horizon then true else cut_after (t ∷ ts) taken (reverse s.cuts)

  unfoldable pub failure_threads : HashMap CacheKey (FailedSlot Error) → List Thread
  unfolding edge_threads
  failure_threads [] = []
  failure_threads ((k, slot) ∷ m) = edge_threads slot.edges ++ failure_threads m

  unfoldable pub sweep_generations : CacheState Error → ℕ → CacheState Error
  unfolding contains entry_threads failure_threads
  sweep_generations s max_entries =
      if leb (length s.generations) (max (saturating_mul max_entries 2) 1024)
      then s
      else let pinned = entry_threads s.entries ++ failure_threads s.failures in
        record s { generations = HashMap.retain (λ thread _. contains pinned thread) s.generations }

  -- The removal of an entry, with what it does to the counters.
  unfoldable pub evict : CacheState Error → CacheKey → CacheState Error
  unfolding slot_bytes
  evict s key = elim (HashMap.get s.entries key) [
    | none ↦ s
    | some evicted ↦ record s {
      entries = HashMap.remove key s.entries;
      bytes = s.bytes - slot_bytes evicted;
      evictions = saturating_add s.evictions 1;
    }
  ]
