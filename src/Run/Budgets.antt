-- ===== src/Run/Budgets.antt =====
-- crates/ikigai-core/src/run.rs: a run's pools as the result of calls. A pool, a reservation and
-- what was drawn for good are named by their places in lists, the newest first.
use ikigai_core.Run.Reservations.{
  drop, keep_bytes, shrink, try_grow, reserve, OverBudget, Reservation,
}
use ikigai_core.Run.Pools.{
  try_spend, try_take, set_left, give_back, narrowed, Left, new_pool, Cells, Pool,
}
use ikigai_core.Run.Reservations.{keep_bytes}
use ikigai_core.Prelude.{
  remove_at, get_elem?, ℕ, ◌==◌, nat_eq, list_eq, option_eq, Bool, true, false, List, [], ◌∷◌,
  Option, none, some, Result, ok, err, if◌then◌else◌,
}

pub data Call : Type 0 where
  open_pool : ℕ → Call
  narrow_at draw_at reserve_at grow_at shrink_at : ℕ → ℕ → Call
  spend_at keep_at drop_at refund_at : ℕ → Call

-- The cells, the limit that each was made with, the pools, the live reservations, and what was
-- drawn for good: what is gone by `try_draw` and `try_spend`, and what `keep` let go.
pub record World : Type 0 where
  pub cells : Cells
  pub limits : ℕ → ℕ
  pub pools : List Pool
  pub live : List Reservation
  pub gone : List Reservation

abbrev pub empty_world : World
empty_world = record {
  cells = record { next = 0; left = λ c. 0 };
  limits = λ c. 0;
  pools = [];
  live = [];
  gone = [];
}

abbrev pub with_left : Cells → Left → Cells
with_left s left = record { next = s.next; left = left }

-- A pool that was made has its limit if its cell is new.
abbrev pub with_pool : World → ℕ → Cells × Pool → World
with_pool w limit (s, p) = record {
  cells = s;
  limits = if s.next == w.cells.next then w.limits else set_left w.cells.next limit w.limits;
  pools = p ∷ w.pools;
  live = w.live;
  gone = w.gone;
}

abbrev pub with_reservations : World → Left → List Reservation → List Reservation → World
with_reservations w left live gone = record {
  cells = with_left w.cells left;
  limits = w.limits;
  pools = w.pools;
  live = live;
  gone = gone;
}

abbrev pub with_drawn : World → Pool → ℕ → Left × Bool → World
with_drawn w p bytes (after, true) =
    with_reservations w after w.live (record { pool = p; bytes = bytes } ∷ w.gone)
with_drawn w p bytes (after, false) = with_reservations w after w.live w.gone

abbrev pub with_reserved : World → Left × Result Reservation OverBudget → World
with_reserved w (after, ok r) = with_reservations w after (r ∷ w.live) w.gone
with_reserved w (after, err _) = with_reservations w after w.live w.gone

abbrev pub with_refunded : World → ℕ → Option Reservation → World
with_refunded w i none = w
with_refunded w i (some r) =
    with_reservations w (give_back w.cells.left r.pool r.bytes) w.live (remove_at w.gone i)

-- The reservation at a place grows or shrinks, is let go of, or is dropped.
abbrev pub with_grown : World → ℕ → Left × Reservation × Result (Unit {0}) OverBudget → World
with_grown w i (after, r, _) = with_reservations w after (r ∷ remove_at w.live i) w.gone

abbrev pub with_shrunk : World → ℕ → Left × Reservation → World
with_shrunk w i (after, r) = with_reservations w after (r ∷ remove_at w.live i) w.gone

unfoldable pub step : World → Call → World
unfolding new_pool narrowed try_take try_spend give_back remove_at reserve try_grow shrink
    keep_bytes drop
step w (open_pool amount) = with_pool w amount (new_pool w.cells amount)
step w (narrow_at i limit) = elim (get_elem? w.pools i) [
  | none ↦ w
  | some p ↦ with_pool w limit (narrowed w.cells p limit)
]
step w (draw_at i bytes) = elim (get_elem? w.pools i) [
  | none ↦ w
  | some p ↦ with_drawn w p bytes (try_take w.cells.left p bytes)
]
step w (spend_at i) = elim (get_elem? w.pools i) [
  | none ↦ w
  | some p ↦ with_drawn w p 1 (try_spend w.cells.left p)
]
step w (reserve_at i bytes) = elim (get_elem? w.pools i) [
  | none ↦ w
  | some p ↦ with_reserved w (reserve w.cells.left p bytes)
]
step w (grow_at i more) = elim (get_elem? w.live i) [
  | none ↦ w
  | some r ↦ with_grown w i (try_grow w.cells.left r more)
]
step w (shrink_at i fewer) = elim (get_elem? w.live i) [
  | none ↦ w
  | some r ↦ with_shrunk w i (shrink w.cells.left r fewer)
]
step w (keep_at i) = elim (get_elem? w.live i) [
  | none ↦ w
  | some r ↦ with_reservations w (keep_bytes w.cells.left r) (remove_at w.live i) (r ∷ w.gone)
]
step w (drop_at i) = elim (get_elem? w.live i) [
  | none ↦ w
  | some r ↦ with_reservations w (drop w.cells.left r) (remove_at w.live i) w.gone
]
step w (refund_at i) = with_refunded w i (get_elem? w.gone i)

unfoldable pub run : List Call → World
unfolding step
run [] = empty_world
run (call ∷ older) = step (run older) call
