-- ===== src/Run/Pools.antt =====
-- crates/ikigai-core/src/run.rs: `Pool`, `RetryBudget` and `MemoryBudget`. A cell is named by its
-- number, and what is left in the cells is the state. A call of a pool is one step here: a
-- compare-and-swap that meets no other call takes the amount at its first round.
use ikigai_core.Prelude.{
  wrapping_add, u64_max, ℕ, suc, ◌-◌, ◌^◌, min, ◌==◌, nat_eq, list_eq, option_eq, Bool, true, false,
  List, [], ◌∷◌, ◌++◌, Option, none, some, ltb, leb, if◌then◌else◌,
}

abbrev pub Left : Type 0
Left = ℕ → ℕ

-- The pool's own cell, and the pools above it.
pub data Pool : Type 0 where
  minted : ℕ → Pool
  child : ℕ → Pool → Pool

pub record Cells : Type 0 where
  pub next : ℕ
  pub left : Left

abbrev pub set_left : ℕ → ℕ → Left → Left
set_left cell n left = λ c. if c == cell then n else left c

-- `PoolCell` in an `Arc`: a new cell.
unfoldable pub alloc : Cells → ℕ → Cells
alloc s amount = record { next = suc s.next; left = set_left s.next amount s.left }

-- `Pool::new`
unfoldable pub new_pool : Cells → ℕ → Cells × Pool
unfolding alloc
new_pool s amount = (alloc s amount, minted s.next)

-- The loop of `remaining`.
unfoldable pub least_from : Left → Pool → ℕ → ℕ
least_from left (minted cell) least = min least (left cell)
least_from left (child cell above) least = least_from left above (min least (left cell))

unfoldable pub remaining : Left → Pool → ℕ
unfolding least_from
remaining left p = least_from left p u64_max

-- `take`: `checked_sub`.
abbrev pub take : ℕ → ℕ → Option ℕ
take current amount = if leb amount current then some (current - amount) else none

-- `fetch_add`
abbrev pub fetch_add : ℕ → ℕ → Left → Left
fetch_add cell amount left = set_left cell (wrapping_add (left cell) amount) left

-- What was taken below a pool that cannot cover the amount.
unfoldable pub return_taken : ℕ → List ℕ → Left → Left
return_taken amount [] left = left
return_taken amount (cell ∷ taken) left = return_taken amount taken (fetch_add cell amount left)

-- The loop of `try_take`, with the cells it has taken from.
unfoldable pub take_along : ℕ → Pool → List ℕ → Left → Left × Bool
unfolding return_taken
take_along amount (minted cell) taken left = elim (take (left cell) amount) [
  | none ↦ (return_taken amount taken left, false)
  | some next ↦ (set_left cell next left, true)
]
take_along amount (child cell above) taken left = elim (take (left cell) amount) [
  | none ↦ (return_taken amount taken left, false)
  | some next ↦ take_along amount above (taken ++ cell ∷ []) (set_left cell next left)
]

unfoldable pub try_take : Left → Pool → ℕ → Left × Bool
unfolding take_along
try_take left p amount = take_along amount p [] left

unfoldable pub give_back : Left → Pool → ℕ → Left
give_back left (minted cell) amount = fetch_add cell amount left
give_back left (child cell above) amount = give_back (fetch_add cell amount left) above amount

unfoldable pub narrowed : Cells → Pool → ℕ → Cells × Pool
unfolding remaining alloc
narrowed s p limit =
    if leb (remaining s.left p) limit then (s, p) else (alloc s limit, child s.next p)

-- `RetryBudget::remaining`
unfoldable pub retries_left : Left → Pool → ℕ
unfolding remaining
retries_left left p = let n = remaining left p in if ltb n (2 ^ 32) then n else 2 ^ 32 - 1

unfoldable pub try_spend : Left → Pool → Left × Bool
unfolding try_take
try_spend left p = try_take left p 1
