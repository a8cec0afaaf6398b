-- ===== src/Cache/Policy/Sketch.antt =====
-- crates/ikigai-core/src/cache.rs: `Sketch`, the count of how often a request has been wanted.
use ikigai_core.Prelude.{
  ℕ, zero, suc, ◌+◌, ◌*◌, ◌/◌, ◌%◌, ◌^◌, ◌-◌, min, max, List, [], ◌∷◌, map, get_elem?, or_zero, leb,
  wrapping_add, saturating_mul, if◌then◌else◌,
}
use ikigai_core.Cache.Entry.{RequestId}

pub record Sketch : Type 0 where
  pub counters : List ℕ
  pub mask : ℕ
  pub additions : ℕ
  pub sample : ℕ

-- `Sketch::MAX`
abbrev pub max_counter : ℕ
max_counter = 15

-- `usize::next_power_of_two`: doubling, from a power of two.
unfoldable pub next_power_from : ℕ → ℕ → ℕ → ℕ
next_power_from zero power n = power
next_power_from (suc fuel) power n =
    let rest = next_power_from fuel (2 * power) n in if leb n power then power else rest

abbrev repeat_zero : ℕ → List ℕ
repeat_zero zero = []
repeat_zero (suc n) = 0 ∷ repeat_zero n

-- The width is at most 2 ^ 22, so that 64 doublings reach it.
unfoldable pub sketch_width : ℕ → ℕ
unfolding next_power_from
sketch_width max_entries =
    next_power_from 64 1 (min (max (saturating_mul max_entries 4) 64) (4 * 2 ^ 20))

-- `Sketch::new`
unfoldable pub new_sketch : ℕ → Sketch
unfolding sketch_width
new_sketch max_entries = record {
  counters = repeat_zero (sketch_width max_entries);
  mask = sketch_width max_entries - 1;
  additions = 0;
  sample = max (saturating_mul max_entries 10) 64;
}

-- `u64::from_le_bytes` of the first eight bytes.
unfoldable pub from_le_bytes : ℕ → List ℕ → ℕ
from_le_bytes zero bytes = 0
from_le_bytes (suc n) [] = 0
from_le_bytes (suc n) (b ∷ bytes) = b + 256 * from_le_bytes n bytes

abbrev drop_bytes : ℕ → List ℕ → List ℕ
drop_bytes zero bytes = bytes
drop_bytes (suc n) [] = []
drop_bytes (suc n) (b ∷ bytes) = drop_bytes n bytes

-- `& self.mask` is a remainder, since the mask is a power of two less one.
unfoldable pub cells_from : ℕ → ℕ → List ℕ → List ℕ
unfolding from_le_bytes
cells_from mask zero bytes = []
cells_from mask (suc rows) bytes =
    from_le_bytes 8 bytes % suc mask ∷ cells_from mask rows (drop_bytes 8 bytes)

-- `Sketch::cells`: one for each of the four rows.
unfoldable pub cells : Sketch → RequestId → List ℕ
unfolding cells_from
cells s request = cells_from s.mask 4 request

abbrev pub counter_at : List ℕ → ℕ → ℕ
counter_at counters cell = or_zero (get_elem? counters cell)

unfoldable pub least_counter : List ℕ → List ℕ → ℕ
least_counter counters [] = 0
least_counter counters (cell ∷ []) = counter_at counters cell
least_counter counters (cell ∷ rest) = min (counter_at counters cell) (least_counter counters rest)

unfoldable pub estimate : Sketch → RequestId → ℕ
unfolding cells least_counter
estimate s request = least_counter s.counters (cells s request)

-- `saturating_add(1).min(Self::MAX)` of one counter
unfoldable pub bump : List ℕ → ℕ → List ℕ
bump [] cell = []
bump (c ∷ counters) zero = min (suc c) max_counter ∷ counters
bump (c ∷ counters) (suc cell) = c ∷ bump counters cell

unfoldable pub bump_all : List ℕ → List ℕ → List ℕ
unfolding bump
bump_all counters [] = counters
bump_all counters (cell ∷ rest) = bump_all (bump counters cell) rest

unfoldable pub increment : Sketch → RequestId → Sketch
unfolding cells bump_all
increment s request =
    let counters = bump_all s.counters (cells s request) in
    let additions = wrapping_add s.additions 1 in
    if leb s.sample additions
    then record s { counters = map (λ c. c / 2) counters; additions = 0 }
    else record s { counters = counters; additions = additions }
