-- ===== src/Run/Narrowed.antt =====
-- crates/ikigai-core/src/run.rs: what is left along a pool, and what `try_take` and `narrowed`
-- make of it.
use ikigai_core.Run.Taking.{try_take-Outcome, Outcome, IsU64}
use ikigai_core.Run.Pools.{
  try_take, Cells, child, remaining, set_left, minted, alloc, narrowed, Pool, least_from,
  take_along, Left,
}
use ikigai_core.Prelude.{u64_max, u64_mod, leb→le}
use ikigai_core.Prelude.{
  ℕ, ◌-◌, ◌<◌, min, nat_eq, list_eq, option_eq, eq_cases, eq_refl, ◌≡◌, inl, inr, Bool, ◌&&◌, List,
  [], ◌∷◌, ◌++◌, leb, arith, Bool-cases,
}

-- A cell is made after the ones above it.
abbrev pub IsBelow : ℕ → Pool → Type 0
IsBelow n (minted cell) = cell < n
IsBelow n (child cell above) = (cell < n) × IsBelow n above

abbrev pub IsOrdered : Pool → Type 0
IsOrdered (minted cell) = Unit
IsOrdered (child cell above) = IsBelow cell above × IsOrdered above

-- Every cell along the pool can cover the amount.
abbrev covers : ℕ → Left → Pool → Bool
covers amount left (minted cell) = leb amount (left cell)
covers amount left (child cell above) = leb amount (left cell) && covers amount left above

leb-least_from :
    (amount : ℕ) (left : Left) (p : Pool) (m : ℕ)
    → leb amount (least_from left p m) ≡ (leb amount m && covers amount left p)
unfolding least_from
leb-least_from amount left (minted cell) m = ground arith
leb-least_from amount left (child cell above) m =
    ground (arith, leb-least_from amount left above (min m (left cell)))

covers-set_left :
    (amount cell n : ℕ) (left : Left) (p : Pool)
    → IsBelow cell p
    → covers amount (set_left cell n left) p ≡ covers amount left p
covers-set_left amount cell n left (minted c) b = elim (eq_cases c cell) [
  | inl e ↦ absurd (omega (arith, e.0, b))
  | inr e ↦ ground (arith, e)
]
covers-set_left amount cell n left (child c above) b = elim (eq_cases c cell) [
  | inl e ↦ absurd (omega (arith, e.0, b.0))
  | inr e ↦ ground (arith, e, covers-set_left amount cell n left above b.1)
]

take_along-covers :
    (amount : ℕ) (p : Pool) (taken : List ℕ) (left : Left)
    → IsOrdered p
    → (take_along amount p taken left).1 ≡ covers amount left p
unfolding take_along
take_along-covers amount (minted cell) taken left o = ground arith
take_along-covers amount (child cell above) taken left o =
    elim (Bool-cases (leb amount (left cell))) [
      | inl e ↦
          let ih =
            take_along-covers amount above (taken ++ cell ∷ [])
              (set_left cell (left cell - amount) left) o.1 in
          ground (arith, e, ih, covers-set_left amount cell (left cell - amount) left above o.0)
      | inr e ↦ ground (arith, e)
    ]

-- A taking of a 64-bit amount from a pool whose cells were made in order succeeds exactly when the
-- least that is left along the pool covers it: it then takes the amount from each cell of the
-- pool, once, and from no other, and when it fails every cell is as it was.
pub try_take-remaining :
    (left : Left) (p : Pool) (amount : ℕ)
    → IsU64 left
    → IsOrdered p
    → amount < u64_mod
    → ((try_take left p amount).1 ≡ leb amount (remaining left p))
      × Outcome left left amount p (try_take left p amount)
unfolding remaining
try_take-remaining left p amount u o b =
    let counted = leb-least_from amount left p u64_max in
    let taken : (try_take left p amount).1 ≡ covers amount left p =
      unfold try_take in take_along-covers amount p [] left o in
    (ground (arith, counted, taken, b), try_take-Outcome left p amount u)

pub least_from-set_left :
    (cell n : ℕ) (left : Left) (p : Pool) (m : ℕ)
    → IsBelow cell p
    → least_from (set_left cell n left) p m ≡ least_from left p m
unfolding least_from
least_from-set_left cell n left (minted c) m b = elim (eq_cases c cell) [
  | inl e ↦ absurd (omega (arith, e.0, b))
  | inr e ↦ ground (arith, e)
]
least_from-set_left cell n left (child c above) m b = elim (eq_cases c cell) [
  | inl e ↦ absurd (omega (arith, e.0, b.0))
  | inr e ↦ ground (arith, e, least_from-set_left cell n left above (min m (left c)) b.1)
]

least_from-min :
    (left : Left) (p : Pool) (m k : ℕ) → least_from left p (min m k) ≡ min k (least_from left p m)
unfolding least_from
least_from-min left (minted c) m k = omega arith
least_from-min left (child c above) m k = omega (
  arith,
  least_from-min left above (min m k) (left c),
  least_from-min left above m (left c),
  least_from-min left above m k,
)

-- Of a pool whose cells exist, a view has left the least of its limit and of what the pool has
-- left.
pub remaining-narrowed :
    (s : Cells) (p : Pool) (limit : ℕ)
    → IsBelow s.next p
    → remaining (narrowed s p limit).0.left (narrowed s p limit).1 ≡ min limit (remaining s.left p)
unfolding narrowed alloc
remaining-narrowed s p limit b = elim (Bool-cases (leb (remaining s.left p) limit)) [
  | inl e ↦ rw e (omega (arith, leb→le (remaining s.left p) limit e))
  | inr e ↦ rw e (
      unfold remaining least_from in
      ground (
        arith,
        eq_refl s.next,
        least_from-set_left s.next limit s.left p (min u64_max limit) b,
        least_from-min s.left p u64_max limit,
      ))
]
