-- ===== src/Cache/Policy/Counting.antt =====
-- crates/ikigai-core/src/cache.rs: the counters of `Sketch` when a request is counted.
use ikigai_core.Prelude.{
  false, ℕ, zero, suc, ◌<◌, ◌≤◌, ◌≡◌, refl, min, ◌/◌, List, [], ◌∷◌, All, Bool-cases, inl, inr,
  arith, length, map, leb, wrapping_add, u64_mod,
}
use ikigai_core.Cache.Entry.{RequestId}
use ikigai_core.Cache.Policy.Sketch.{
  Sketch, max_counter, counter_at, least_counter, estimate, bump, bump_all, increment, cells,
  cells_from,
}

abbrev Small : List ℕ → Type 0
Small = All (λ c. c ≤ max_counter)

-- No counter is past four bits, and the mask fits their number.
pub record IsSketch (s : Sketch) : Type 0 where
  pub small : Small s.counters
  pub wide : length s.counters ≡ suc s.mask

length-bump : (cs : List ℕ) (cell : ℕ) → length (bump cs cell) ≡ length cs
unfolding bump
length-bump [] cell = refl
length-bump (c ∷ cs) zero = refl
length-bump (c ∷ cs) (suc cell) = omega (arith, length-bump cs cell)

bump-Small : (cs : List ℕ) (cell : ℕ) → Small cs → Small (bump cs cell)
unfolding bump
bump-Small [] cell h = tt
bump-Small (c ∷ cs) zero h = (omega arith, h.1)
bump-Small (c ∷ cs) (suc cell) h = (h.0, bump-Small cs cell h.1)

counter_at-bump :
    (cs : List ℕ) (cell j : ℕ) → Small cs → counter_at cs j ≤ counter_at (bump cs cell) j
unfolding bump
counter_at-bump [] cell j h = omega arith
counter_at-bump (c ∷ cs) zero zero h = omega (arith, h.0)
counter_at-bump (c ∷ cs) zero (suc j) h = omega arith
counter_at-bump (c ∷ cs) (suc cell) zero h = omega arith
counter_at-bump (c ∷ cs) (suc cell) (suc j) h = counter_at-bump cs cell j h.1

counter_at-bump_self :
    (cs : List ℕ) (cell : ℕ)
    → cell < length cs
    → min max_counter (suc (counter_at cs cell)) ≤ counter_at (bump cs cell) cell
unfolding bump
counter_at-bump_self [] cell h = absurd (omega (arith, h))
counter_at-bump_self (c ∷ cs) zero h = omega arith
counter_at-bump_self (c ∷ cs) (suc cell) h = counter_at-bump_self cs cell (omega (arith, h))

bump_all-Small : (cs ks : List ℕ) → Small cs → Small (bump_all cs ks)
unfolding bump_all
bump_all-Small cs [] h = h
bump_all-Small cs (k ∷ ks) h = bump_all-Small (bump cs k) ks (bump-Small cs k h)

length-bump_all : (cs ks : List ℕ) → length (bump_all cs ks) ≡ length cs
unfolding bump_all
length-bump_all cs [] = refl
length-bump_all cs (k ∷ ks) = omega (arith, length-bump_all (bump cs k) ks, length-bump cs k)

counter_at-bump_all :
    (cs ks : List ℕ) (j : ℕ) → Small cs → counter_at cs j ≤ counter_at (bump_all cs ks) j
unfolding bump_all
counter_at-bump_all cs [] j h = omega arith
counter_at-bump_all cs (k ∷ ks) j h =
    omega
      (arith, counter_at-bump cs k j h, counter_at-bump_all (bump cs k) ks j (bump-Small cs k h))

-- The counters of the cells that were bumped, and those of all cells.
abbrev Raised : List ℕ → List ℕ → ℕ → Type 0
Raised cs ds k = min max_counter (suc (counter_at cs k)) ≤ counter_at ds k

bump_all-raises :
    (cs ds ks : List ℕ)
    → ((k : ℕ) → counter_at ds k ≤ counter_at cs k)
    → Small cs
    → All (λ k. k < length cs) ks
    → All (Raised ds (bump_all cs ks)) ks
unfolding bump_all
bump_all-raises cs ds [] low h inside = tt
bump_all-raises cs ds (k ∷ ks) low h inside = (
  omega (
    arith,
    low k,
    counter_at-bump_self cs k inside.0,
    counter_at-bump_all (bump cs k) ks k (bump-Small cs k h),
  ),
  bump_all-raises (bump cs k) ds ks (λ j. omega (arith, low j, counter_at-bump cs k j h))
      (bump-Small cs k h) (rw (length-bump cs k) inside.1),
)

least_counter_mono :
    (cs ds ks : List ℕ)
    → ((k : ℕ) → counter_at cs k ≤ counter_at ds k)
    → least_counter cs ks ≤ least_counter ds ks
unfolding least_counter
least_counter_mono cs ds [] h = omega arith
least_counter_mono cs ds (k ∷ []) h = h k
least_counter_mono cs ds (k ∷ j ∷ ks) h = omega (arith, h k, least_counter_mono cs ds (j ∷ ks) h)

least_counter-Raised :
    (cs ds ks : List ℕ)
    → 0 < length ks
    → All (Raised cs ds) ks
    → min max_counter (suc (least_counter cs ks)) ≤ least_counter ds ks
unfolding least_counter
least_counter-Raised cs ds [] some_cell h = absurd (omega (arith, some_cell))
least_counter-Raised cs ds (k ∷ []) some_cell h = h.0
least_counter-Raised cs ds (k ∷ j ∷ ks) some_cell h =
    omega (arith, h.0, least_counter-Raised cs ds (j ∷ ks) (omega arith) h.1)

cells_from-inside :
    (mask rows : ℕ) (bytes : List ℕ) → All (λ k. k < suc mask) (cells_from mask rows bytes)
unfolding cells_from
cells_from-inside mask zero bytes = tt
cells_from-inside mask (suc rows) bytes = (omega arith, cells_from-inside mask rows _)

module _ (s : Sketch) (ok_so_far : IsSketch s) (request : RequestId) where
  -- Counting a request keeps every counter of the sketch within four bits, and the mask within
  -- their number.
  pub increment-IsSketch : IsSketch (increment s request)
  unfolding increment
  increment-IsSketch = elim (Bool-cases (leb s.sample (wrapping_add s.additions 1))) [
    | inl full ↦
        rw (full, increment) (record { small = halved _ bumped; wide = rw halved_length wide })
    | inr room ↦ rw (room, increment) (record { small = bumped; wide = wide })
  ]
    where
      bumped : Small (bump_all s.counters (cells s request))
      bumped = bump_all-Small s.counters (cells s request) ok_so_far.small

      wide : length (bump_all s.counters (cells s request)) ≡ suc s.mask
      wide = omega (arith, length-bump_all s.counters (cells s request), ok_so_far.wide)

      halved : (cs : List ℕ) → Small cs → Small (map (λ c. c / 2) cs)
      halved [] h = tt
      halved (c ∷ cs) h = (omega (arith, h.0), halved cs h.1)

      halved_length : (cs : List ℕ) → length (map (λ c. c / 2) cs) ≡ length cs
      halved_length [] = refl
      halved_length (c ∷ cs) = omega (arith, halved_length cs)

  -- Until the sketch is halved, counting a request raises its own estimate by one, up to the
  -- largest count, and lowers no other estimate.
  pub estimate-increment :
      suc s.additions < s.sample
      → s.sample < u64_mod
      → (other : RequestId)
      → (min max_counter (suc (estimate s request)) ≤ estimate (increment s request) request)
        × (estimate s other ≤ estimate (increment s request) other)
  unfolding estimate increment cells cells_from
  estimate-increment room small other =
      let fresh : leb s.sample (wrapping_add s.additions 1) ≡ false = ground (arith, room, small) in
      let kept = counter_at-bump_all s.counters (cells s request) in
      rw (fresh, increment)
        (
          least_counter-Raised s.counters _ (cells s request) (omega arith) (
              bump_all-raises s.counters s.counters (cells s request) (λ k. omega arith)
                ok_so_far.small (rw ok_so_far.wide (cells_from-inside s.mask 4 request))),
          least_counter_mono s.counters _ (cells s other) (λ k. kept k ok_so_far.small),
        )
