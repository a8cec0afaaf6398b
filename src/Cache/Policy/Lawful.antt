-- ===== src/Cache/Policy/Lawful.antt =====
-- crates/ikigai-core/src/cache.rs: what the cache needs of a policy, and the policies that ship.
use ikigai_core.Prelude.{
  ℕ, suc, ◌+◌, ◌<◌, ◌≤◌, ◌≡◌, refl, true, nat_eq, List, [], ◌∷◌, Option, some, length, all, is_none,
  arith, Bool-cases, inl, inr,
}
use ikigai_core.Cache.Entry.{EntryFacts, CacheBound}
use ikigai_core.Cache.Policy.{
  CachePolicy, with_defaults, argmin_from, argmin, score_lt, lru_victim, fifo_victim,
  cost_aware_victim, lru, fifo, cost_aware, by_last_used, by_stored, by_density,
}

pub record IsLawful {S : Type 0} (p : CachePolicy S) : Type 0 where
  -- Only a body that fits the bound is admitted.
  pub fits :
      (kept : S) (facts : EntryFacts)
      → (p.admit kept facts).0 ≡ true
      → facts.bytes ≤ p.capacity.max_bytes
  -- Among residents there is a victim.
  pub chooses :
      (kept : S) (x : EntryFacts) (resident : List EntryFacts)
      → (i : ℕ) × (p.victim kept (x ∷ resident) ≡ some i) × (i < length (x ∷ resident))

argmin_from-lt :
    (score : EntryFacts → ℕ × ℕ) (i : ℕ) (best : ℕ × EntryFacts) (xs : List EntryFacts)
    → best.0 < i
    → argmin_from score i best xs < i + length xs
unfolding argmin_from
argmin_from-lt score i best [] h = omega arith
argmin_from-lt score i best (x ∷ xs) h = elim (Bool-cases (score_lt (score x) (score best.1))) [
  | inl less ↦ rw less (omega (arith, argmin_from-lt score (suc i) (i, x) xs (omega arith)))
  | inr more ↦ rw more (omega (arith, argmin_from-lt score (suc i) best xs (omega arith)))
]

argmin-some :
    (x : EntryFacts) (xs : List EntryFacts) (score : EntryFacts → ℕ × ℕ)
    → (i : ℕ) × (argmin (x ∷ xs) score ≡ some i) × (i < length (x ∷ xs))
unfolding argmin
argmin-some x xs score = (
  argmin_from score 1 (0, x) xs,
  refl,
  omega (arith, argmin_from-lt score 1 (0, x) xs (omega arith)),
)

default-IsLawful :
    (bound : CacheBound) (victim : List EntryFacts → Option ℕ)
    → ((x : EntryFacts) (xs : List EntryFacts)
        → (i : ℕ) × (victim (x ∷ xs) ≡ some i) × (i < length (x ∷ xs)))
    → IsLawful (with_defaults bound victim)
default-IsLawful bound victim h = record {
  fits = λ kept facts e. ground arith;
  chooses = λ kept x xs. h x xs;
}

pub lru-IsLawful : (bound : CacheBound) → IsLawful (lru bound)
lru-IsLawful bound =
    default-IsLawful bound lru_victim (λ x xs. unfold lru_victim in argmin-some x xs by_last_used)

pub fifo-IsLawful : (bound : CacheBound) → IsLawful (fifo bound)
fifo-IsLawful bound =
    default-IsLawful bound fifo_victim (λ x xs. unfold fifo_victim in argmin-some x xs by_stored)

cost_aware_some :
    (x : EntryFacts) (xs : List EntryFacts)
    → (i : ℕ) × (cost_aware_victim (x ∷ xs) ≡ some i) × (i < length (x ∷ xs))
unfolding cost_aware_victim
cost_aware_some x xs = elim (Bool-cases (all (λ facts. is_none facts.cost_millis) (x ∷ xs))) [
  | inl free ↦ rw (free, cost_aware_victim) (argmin-some x xs by_last_used)
  | inr costly ↦ rw (costly, cost_aware_victim) (argmin-some x xs by_density)
]

-- The cost-aware policy admits only a body that fits its bound, and names a resident as the victim
-- wherever there is one.
pub cost_aware-IsLawful : (bound : CacheBound) → IsLawful (cost_aware bound)
cost_aware-IsLawful bound = default-IsLawful bound cost_aware_victim cost_aware_some
