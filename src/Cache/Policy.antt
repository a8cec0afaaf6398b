-- ===== src/Cache/Policy.antt =====
-- crates/ikigai-core/src/cache.rs: `CachePolicy` as an interface, with `Lru`, `Fifo` and
-- `CostAware`. `S` is what a policy keeps between calls.
pub mod Lawful
pub mod Least
pub mod Sketch
pub mod ScanResistant
pub mod Probation
pub mod Counting
pub mod Partitioned
pub mod Budgets
mod Tests
use ikigai_core.Prelude.{
  ℕ, suc, ◌/◌, Bool, true, false, ◌&&◌, ◌||◌, ◌==◌, nat_eq, List, [], ◌∷◌, Option, none, some, max,
  ltb, leb, saturating_add, saturating_mul, all, is_none, if◌then◌else◌,
}
use ikigai_core.Cache.Entry.{EntryFacts, CacheBound}

pub record CachePolicy (S : Type 0) : Type 0 where
  pub capacity : CacheBound
  -- the answer, and what the policy keeps
  pub admit : S → EntryFacts → Bool × S
  pub victim : S → List EntryFacts → Option ℕ
  pub contest : S → EntryFacts → List EntryFacts → Bool
  pub partitioned : Bool
  pub over_partition : List EntryFacts → Bool

-- The trait's own `admit`, `contest`, `partitioned` and `over_partition`, round a choice of victim.
abbrev pub with_defaults : CacheBound → (List EntryFacts → Option ℕ) → CachePolicy (Unit {0})
with_defaults bound victim = record {
  capacity = bound;
  admit = λ s candidate. (leb candidate.bytes bound.max_bytes, s);
  victim = λ s resident. victim resident;
  contest = λ s candidate resident. true;
  partitioned = false;
  over_partition = λ resident. false;
}

-- A score, compared as the pair `(u64, u64)` is.
abbrev pub score_lt : ℕ × ℕ → ℕ × ℕ → Bool
score_lt a b = ltb a.0 b.0 || a.0 == b.0 && ltb a.1 b.1

-- `enumerate().min_by_key(..)`: the first of the least. `best` is the position found so far.
unfoldable pub argmin_from : (EntryFacts → ℕ × ℕ) → ℕ → ℕ × EntryFacts → List EntryFacts → ℕ
argmin_from score i best [] = best.0
argmin_from score i best (x ∷ xs) =
    argmin_from score (suc i) (if score_lt (score x) (score best.1) then (i, x) else best) xs

unfoldable pub argmin : List EntryFacts → (EntryFacts → ℕ × ℕ) → Option ℕ
unfolding argmin_from
argmin [] score = none
argmin (x ∷ xs) score = some (argmin_from score 1 (0, x) xs)

-- A score of one part.
abbrev pub by_last_used : EntryFacts → ℕ × ℕ
by_last_used facts = (facts.last_used_tick, 0)

abbrev pub by_stored : EntryFacts → ℕ × ℕ
by_stored facts = (facts.stored_tick, 0)

abbrev cost_or_zero : Option ℕ → ℕ
cost_or_zero none = 0
cost_or_zero (some cost) = cost

-- Cost saved for each byte held, weighted by hits.
unfoldable pub density : EntryFacts → ℕ
density facts =
    saturating_mul (saturating_mul (cost_or_zero facts.cost_millis) 1024)
      (saturating_add facts.hits 1)
    / max facts.bytes 1

abbrev pub by_density : EntryFacts → ℕ × ℕ
by_density facts = (density facts, facts.last_used_tick)

unfoldable pub lru_victim : List EntryFacts → Option ℕ
unfolding argmin
lru_victim resident = argmin resident by_last_used

unfoldable pub fifo_victim : List EntryFacts → Option ℕ
unfolding argmin
fifo_victim resident = argmin resident by_stored

unfoldable pub cost_aware_victim : List EntryFacts → Option ℕ
unfolding argmin density
cost_aware_victim resident =
    if all (λ facts. is_none facts.cost_millis) resident
    then argmin resident by_last_used
    else argmin resident by_density

abbrev pub lru : CacheBound → CachePolicy (Unit {0})
lru bound = with_defaults bound lru_victim

abbrev pub fifo : CacheBound → CachePolicy (Unit {0})
fifo bound = with_defaults bound fifo_victim

abbrev pub cost_aware : CacheBound → CachePolicy (Unit {0})
cost_aware bound = with_defaults bound cost_aware_victim
