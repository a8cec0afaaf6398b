-- ===== src/Run/Reservations.antt =====
-- crates/ikigai-core/src/run.rs: `Reservation`. An `OverBudget` is what `over_reservation` writes
-- into its text.
use ikigai_core.Run.Pools.{remaining, Pool, Left, give_back, try_take}
use ikigai_core.Prelude.{
  wrapping_add, ℕ, ◌-◌, min, nat_eq, list_eq, option_eq, true, false, Result, ok, err, ltb,
  if◌then◌else◌,
}

pub record OverBudget : Type 0 where
  pub wanted : ℕ
  pub left : ℕ

pub record Reservation : Type 0 where
  pub pool : Pool
  pub bytes : ℕ

unfoldable pub over_reservation : Left → Pool → ℕ → OverBudget
unfolding remaining
over_reservation left p wanted = record { wanted = wanted; left = remaining left p }

unfoldable pub reserve : Left → Pool → ℕ → Left × Result Reservation OverBudget
unfolding try_take over_reservation
reserve left p bytes =
    let (after, taken) = try_take left p bytes in
    elim taken [
      | true ↦ (after, ok (record { pool = p; bytes = bytes }))
      | false ↦ (after, err (over_reservation after p bytes))
    ]

unfoldable pub try_grow : Left → Reservation → ℕ → Left × Reservation × Result (Unit {0}) OverBudget
unfolding try_take over_reservation
try_grow left r more =
    let (after, taken) = try_take left r.pool more in
    elim taken [
      | true ↦ (after, record { pool = r.pool; bytes = wrapping_add r.bytes more }, ok tt)
      | false ↦ (after, r, err (over_reservation after r.pool more))
    ]

unfoldable pub shrink : Left → Reservation → ℕ → Left × Reservation
unfolding give_back
shrink left r fewer =
    let less = min fewer r.bytes in
    (give_back left r.pool less, record { pool = r.pool; bytes = r.bytes - less })

-- `Drop`
unfoldable pub drop : Left → Reservation → Left
unfolding give_back
drop left r = if ltb 0 r.bytes then give_back left r.pool r.bytes else left

-- `keep`: it drops the reservation emptied.
unfoldable pub keep_bytes : Left → Reservation → Left
unfolding drop
keep_bytes left r = drop left (record { pool = r.pool; bytes = 0 })
