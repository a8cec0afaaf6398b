-- ===== src/Cache/Tests.antt =====
-- crates/ikigai-core/src/cache.rs: a small cache in use.
use ikigai_core.HashMap
use ikigai_core.TreeSet.{contains}
use ikigai_core.Cache.Dependents.{cut_with-lists, cut_with, is_dependent}
use ikigai_core.Prelude.{
  ◌&&◌, any, list_eq, ℕ, zero, suc, Str, codes, ◌+◌, ◌==◌, nat_eq, ◌≡◌, ◌||◌, ◌<◌, ◌≤◌, refl, true,
  false, List, [], ◌∷◌, Option, none, some, arith, is_some, u64_max, u64_mod, length, ltb,
}
use ikigai_core.Repr.{Representation, threads, no_facts}
use ikigai_core.Repr.Content.{Body, bytes}
use ikigai_core.Repr.Lifetime.{at, always}
use ikigai_core.Cache.Entry.{key_eq, Slot, CacheKey, EntryFacts, CacheBound}
use ikigai_core.Cache.Policy.{lru, lru_victim, fifo_victim}
use ikigai_core.Cache.Policy.Lawful.{lru-IsLawful}
use ikigai_core.Cache.State.{
  edges_current, edge_threads, generation_of, CacheState, cut_since, record_cut, before,
}
use ikigai_core.Cache.Answer.{Served, Answer, answer_body, hit}
use ikigai_core.Cache.Serve.{ReprCache, lookup}
use ikigai_core.Cache.Store.{enforce}
use ikigai_core.Cache.Failure.{CachedFailure, get_failure}
use ikigai_core.Cache.CutLog.{numbered, was_cut, IsLogged, cut_since-was_cut, record_cut-IsLogged}
use ikigai_core.Cache.History.{Event, cut_threads, Stored, StoredFailure, run}
use ikigai_core.Cache.Fresh.Served.{IsReusable, lookup-uncut, get_failure-uncut}
use ikigai_core.Cache.Bound.Eviction.{enforce_total}
use ikigai_core.Cache.Bound.Accounting.{IsWithin}
use ikigai_core.Cache.Bound.Histories.{run-IsWithin}

abbrev key : CacheKey
key = record { request = codes "r"; capability = 7; scope = 0 }

abbrev other_key : CacheKey
other_key = record { request = codes "s"; capability = 7; scope = 0 }

abbrev greeting : Representation Body
greeting = record {
  repr_type = record { media_type = codes "text/plain"; params = [] };
  content = bytes (codes "hi");
  expiry = at 100;
  facts = some (record no_facts { threads = codes "t" ∷ [] });
}

-- One entry fits.
abbrev bound : CacheBound
bound = record { max_entries = 1; max_bytes = 64 }

-- A cut, then an answer and a failure that were computed since, newest first.
abbrev past : List (Event ℕ)
past =
    Event.fail other_key (codes "urn:b") 9 200 (codes "t" ∷ []) 1 none
    ∷ Event.store key (codes "urn:a") greeting 1 (some 5) none
    ∷ Event.cut (codes "t")
    ∷ []

few : length past < u64_mod
few = omega arith

served :
    (lookup (run (lru bound) tt past).state key (some 50) false none false).1
    ≡ hit (Answer.body greeting)
unfolding run lookup ikigai_core.HashMap.get ikigai_core.HashMap.insert ikigai_core.Prelude.list_beq
served = refl

lookup-uncut_example :
    (since : ℕ) × Stored key greeting since past
    × (was_cut (threads greeting) since (cut_threads past) ≡ false)
    × IsReusable (some 50) (at 100)
unfolding answer_body
lookup-uncut_example =
    lookup-uncut (lru bound) tt past few key (some 50) false none false (Answer.body greeting)
      served

-- An answer that is always expired is stored and served.
abbrev volatile : Representation Body
volatile = record greeting { expiry = always }

abbrev volatile_past : List (Event ℕ)
volatile_past = Event.store key (codes "urn:a") volatile 0 none none ∷ []

volatile_served :
    (lookup (run (lru bound) tt volatile_past).state key (some 50) false none false).1
    ≡ hit (Answer.body volatile)
unfolding run lookup ikigai_core.HashMap.get ikigai_core.HashMap.insert ikigai_core.Prelude.list_beq
volatile_served = refl

-- Behind a cut of its thread the entry is not served.
uncached :
    (lookup
      (run (lru bound) tt (Event.cut (codes "t") ∷ past)).state
      key
      (some 50)
      false
      none
      false).1
    ≡ Served.miss
unfolding run lookup ikigai_core.HashMap.get ikigai_core.HashMap.insert ikigai_core.Prelude.list_beq
uncached = refl

abbrev failure : CachedFailure ℕ
failure = record { error = 9; until = 200; threads = codes "t" ∷ [] }

failed : (get_failure (run (lru bound) tt past).state other_key (some 50) none).1 ≡ some failure
unfolding run get_failure ikigai_core.HashMap.get ikigai_core.HashMap.insert
    ikigai_core.HashMap.remove ikigai_core.Prelude.list_beq
failed = refl

get_failure-uncut_example :
    (since : ℕ) × StoredFailure other_key failure since past
    × (was_cut (codes "t" ∷ []) since (cut_threads past) ≡ false)
    × (before (some 50) 200 ≡ true)
get_failure-uncut_example =
    get_failure-uncut (lru bound) tt past few other_key (some 50) none failure failed

half : 64 + 64 ≤ u64_max
half = omega arith

-- Two stores under a bound of one entry.
abbrev two_stores : List (Event ℕ)
two_stores = Event.store other_key (codes "urn:b") greeting 1 none none ∷ past

run-IsWithin_example : IsWithin (lru bound) (run (lru bound) tt two_stores).state
run-IsWithin_example = run-IsWithin (lru bound) (lru-IsLawful bound) half tt two_stores

one_entry : length (run (lru bound) tt past).state.entries ≡ 1
unfolding run ikigai_core.HashMap.get ikigai_core.HashMap.insert
one_entry = refl

fits_fuel : length (run (lru bound) tt past).state.entries < 2
fits_fuel = omega (arith, one_entry)

enforce_total_example :
    (s : CacheState ℕ) × (enforce (lru bound) 2 tt (run (lru bound) tt past).state ≡ some s)
enforce_total_example = enforce_total (lru bound) tt 2 (run (lru bound) tt past).state fits_fuel

abbrev resident_facts : ℕ → EntryFacts
resident_facts tick = record {
  request = codes "r";
  target = codes "urn:a";
  media_type = codes "text/plain";
  bytes = 2;
  cost_millis = none;
  hits = 0;
  threads = 0;
  stored_tick = tick;
  last_used_tick = tick;
}

lru_picks : lru_victim (resident_facts 5 ∷ resident_facts 3 ∷ []) ≡ some 1
unfolding lru_victim
lru_picks = refl

fifo_picks : fifo_victim (resident_facts 5 ∷ resident_facts 3 ∷ []) ≡ some 1
unfolding fifo_victim
fifo_picks = refl

-- The state behind one cut.
abbrev cut_once : CacheState ℕ
cut_once = (run (lru bound) tt (Event.cut (codes "t") ∷ [])).state

cut_once-IsLogged : IsLogged (codes "t" ∷ []) cut_once
unfolding run numbered
cut_once-IsLogged = record { counted = refl; forgotten = []; log = refl; horizon = refl }

cut_since-was_cut_example : cut_since cut_once (codes "t" ∷ []) 0 ≡ (
    ltb 0 (length (codes "t" ∷ [])) && ltb 0 cut_once.horizon
    || was_cut (codes "t" ∷ []) 0 (codes "t" ∷ []))
cut_since-was_cut_example =
    cut_since-was_cut (codes "t" ∷ []) cut_once (codes "t" ∷ []) 0 cut_once-IsLogged

two_fit : suc (length (codes "t" ∷ [])) < u64_mod
two_fit = omega arith

record_cut-IsLogged_example :
    IsLogged (codes "u" ∷ codes "t" ∷ []) (record_cut cut_once (codes "u")).0
record_cut-IsLogged_example =
    record_cut-IsLogged (codes "t" ∷ []) cut_once (codes "u") cut_once-IsLogged two_fit

abbrev stored_slot : Slot
stored_slot = record {
  incoming = none;
  target = codes "urn:a";
  representation = greeting;
  edges = (codes "t", 1) ∷ [];
  cost_millis = some 5;
  hits = 0;
  stored_tick = 1;
  last_used_tick = 1;
}

abbrev cache_then : ReprCache ℕ (Unit {0})
cache_then = run (lru bound) tt past

one_cut : generation_of cache_then.state (codes "t") ≡ 1
unfolding run generation_of HashMap.get HashMap.insert ikigai_core.Prelude.list_beq
one_cut = refl

counter_fits : suc (generation_of cache_then.state (codes "t")) < u64_mod
counter_fits = omega (arith, one_cut)

slot_is_there : HashMap.get cache_then.state.entries key ≡ some stored_slot
unfolding run HashMap.get HashMap.insert ikigai_core.Prelude.list_beq
slot_is_there = refl

slot_is_current : edges_current cache_then.state.generations stored_slot.edges ≡ true
unfolding run edges_current ikigai_core.HashMap.get ikigai_core.HashMap.insert
    ikigai_core.Prelude.list_beq
slot_is_current = refl

slot_depends : contains (edge_threads stored_slot.edges) (codes "t") ≡ true
unfolding contains edge_threads ikigai_core.Prelude.list_beq
slot_depends = refl

cut_with-lists_example :
    any (is_dependent key stored_slot) (cut_with cache_then (codes "t")).2 ≡ true
cut_with-lists_example =
    cut_with-lists cache_then (codes "t") key stored_slot counter_fits slot_is_there slot_is_current
      slot_depends
