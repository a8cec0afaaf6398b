-- ===== src/Cache/Policy/Tests.antt =====
-- crates/ikigai-core/src/cache.rs: the scan-resistant and the partitioned policy on small caches.
use ikigai_core.Prelude.{
  ℕ, Str, codes, ◌≡◌, ◌<◌, refl, true, false, List, [], ◌∷◌, none, some, arith, get_elem?, is_some,
  u64_mod,
}
use ikigai_core.Cache.Entry.{EntryFacts}
use ikigai_core.Cache.Policy.{CachePolicy, lru}
use ikigai_core.Cache.Policy.Sketch.{Sketch}
use ikigai_core.Cache.Policy.ScanResistant.{Settings, is_probationary, protected_over, scan_victim}
use ikigai_core.Cache.Policy.Probation.{Picks, scan_victim-Picks}
use ikigai_core.Cache.Policy.Counting.{IsSketch}
use ikigai_core.Cache.Policy.Partitioned.{
  Partitioned, partition_of, overflow_of, partitioned_victim,
}
use ikigai_core.Cache.Policy.Budgets.{partitioned_victim-overflow}

abbrev settings : Settings
settings = record { bound = record { max_entries = 10; max_bytes = 1000 }; protected_percent = 80 }

-- A resident under a name, with its hits and the tick of its last use.
abbrev entry : Str → ℕ → ℕ → EntryFacts
entry target hits used = record {
  request = codes "r";
  target = target;
  media_type = codes "text/plain";
  bytes = 2;
  cost_millis = none;
  hits = hits;
  threads = 0;
  stored_tick = 1;
  last_used_tick = used;
}

-- Served long ago, then two that were never served.
abbrev scanned : List EntryFacts
scanned = entry (codes "urn:a") 4 1 ∷ entry (codes "urn:b") 0 9 ∷ entry (codes "urn:c") 0 8 ∷ []

scan_takes_the_older : scan_victim settings scanned ≡ some 2
unfolding scan_victim
scan_takes_the_older = refl

within_share : protected_over settings scanned ≡ false
unfolding protected_over
within_share = refl

scan_victim-Picks_example : Picks is_probationary scanned (scan_victim settings scanned)
scan_victim-Picks_example = scan_victim-Picks settings scanned within_share refl

abbrev small_sketch : Sketch
small_sketch = record { counters = 0 ∷ 3 ∷ 15 ∷ 1 ∷ []; mask = 3; additions = 2; sample = 64 }

small_sketch-IsSketch : IsSketch small_sketch
small_sketch-IsSketch = record {
  small = (omega arith, (omega arith, (omega arith, (omega arith, tt))));
  wide = refl;
}

room : 3 < 64
room = omega arith

fits : 64 < u64_mod
fits = omega arith

-- One entry for feeds, and eight for the rest.
abbrev budgets : Partitioned (Unit {0})
budgets = record {
  partitions = (codes "urn:feed:", lru (record { max_entries = 1; max_bytes = 100 })) ∷ [];
  rest = lru (record { max_entries = 8; max_bytes = 100 });
}

abbrev river : List EntryFacts
river =
    entry (codes "urn:a") 0 1 ∷ entry (codes "urn:feed:x") 0 3 ∷ entry (codes "urn:feed:y") 0 2 ∷ []

a_feed_goes : partitioned_victim budgets (λ _. tt) river ≡ some 2
unfolding partitioned_victim ikigai_core.Cache.Policy.lru_victim
a_feed_goes = refl

partitioned_victim-overflow_example :
    (f : EntryFacts) × (get_elem? river 2 ≡ some f)
    × (is_some (overflow_of budgets river (partition_of budgets f.target)) ≡ true)
partitioned_victim-overflow_example =
    partitioned_victim-overflow budgets river (λ _. tt) 2 a_feed_goes
