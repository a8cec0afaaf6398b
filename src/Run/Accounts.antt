-- ===== src/Run/Accounts.antt =====
-- crates/ikigai-core/src/run.rs: the accounts of a run after any history of calls.
use ikigai_core.Run.Reservations.{drop, keep_bytes, shrink, try_grow, reserve}
use ikigai_core.Run.Taking.{try_take-Outcome}
use ikigai_core.Run.Totals.{total_fresh, total, IsBelow-suc, All-get_elem?}
use ikigai_core.Run.Narrowed.{IsBelow}
use ikigai_core.Run.Conserved.{
  refunded-IsSound, dropped-IsSound, kept-IsSound, shrunk-IsSound, grown-IsSound, reserved-IsSound,
  sound-IsU64, drawn-IsSound, IsSound,
}
use ikigai_core.Run.Reservations.{try_grow}
use ikigai_core.Run.Conserved.{refunded-IsSound}
use ikigai_core.Prelude.{
  remove_at, get_elem?, u64_mod, subst, All-mono, ℕ, suc, ◌+◌, ◌<◌, ◌==◌, nat_eq, list_eq,
  option_eq, eq_cases, eq_refl, ◌≡◌, refl, sym, inl, inr, true, false, List, [], ◌∷◌, none, some,
  leb, All, if◌then◌else◌, arith, Option-cases,
}
use ikigai_core.Run.Budgets.{
  World, Call, open_pool, narrow_at, draw_at, reserve_at, grow_at, shrink_at, spend_at, keep_at,
  drop_at, refund_at, with_pool, with_reservations, with_drawn, with_reserved, with_refunded,
  with_grown, with_shrunk, step, run,
}
use ikigai_core.Run.Pools.{
  Pool, minted, child, narrowed, new_pool, alloc, try_take, try_spend, remaining, set_left,
}

-- A pool is made with a 64-bit number.
abbrev pub IsWord : Call → Type 0
IsWord (open_pool amount) = amount < u64_mod
IsWord (narrow_at _ limit) = limit < u64_mod
IsWord _ = Unit

-- A new cell holds its limit, and nothing is held of it.
alloc-IsSound :
    (w : World) (amount : ℕ) (p : Pool)
    → amount < u64_mod
    → IsSound w
    → IsBelow (suc w.cells.next) p
    → IsSound (with_pool w amount (alloc w.cells amount, p))
unfolding alloc
alloc-IsSound w amount p small s b = record {
  exact = λ c. elim (eq_cases c w.cells.next) [
    | inl e ↦
        subst
          (λ z.
            set_left w.cells.next amount w.cells.left z + (total w.live z + total w.gone z)
            ≡ (if suc w.cells.next == w.cells.next
                  then w.limits
                  else set_left w.cells.next amount w.limits)
                z)
          (sym e.0)
          (ground (
            arith,
            eq_refl w.cells.next,
            total_fresh w.cells.next w.live s.live,
            total_fresh w.cells.next w.gone s.gone,
          ))
    | inr e ↦ ground (arith, e, s.exact c)
  ];
  limited = λ c. elim (eq_cases c w.cells.next) [
    | inl e ↦ ground (arith, e)
    | inr e ↦ ground (arith, e, s.limited c)
  ];
  pools = (b, All-mono (IsBelow-suc w.cells.next) w.pools s.pools);
  live = All-mono (λ r. IsBelow-suc w.cells.next r.pool) w.live s.live;
  gone = All-mono (λ r. IsBelow-suc w.cells.next r.pool) w.gone s.gone;
}

narrowed-IsSound :
    (w : World) (p : Pool) (limit : ℕ)
    → limit < u64_mod
    → IsSound w
    → IsBelow w.cells.next p
    → IsSound (with_pool w limit (narrowed w.cells p limit))
unfolding narrowed
narrowed-IsSound w p limit small s b =
    elim (leb (remaining w.cells.left p) limit)
      as (λ t. IsSound (
        with_pool w limit
          (if t then (w.cells, p) else (alloc w.cells limit, child w.cells.next p)))) [
            | true ↦ record {
              exact = λ c. ground (arith, eq_refl w.cells.next, s.exact c);
              limited = λ c. ground (arith, eq_refl w.cells.next, s.limited c);
              pools = (b, s.pools);
              live = s.live;
              gone = s.gone;
            }
            | false ↦
                alloc-IsSound w limit (child w.cells.next p) small s
                  (omega arith, IsBelow-suc w.cells.next p b)
          ]

-- A call about a pool or a reservation that is not there changes nothing.
at_place {ℓ} :
    {A : Type ℓ} (w : World) (xs : List A) (i : ℕ) (f : A → World)
    → IsSound w
    → ((a : A) → get_elem? xs i ≡ some a → IsSound (f a))
    → IsSound (elim (get_elem? xs i) [ none ↦ w | some a ↦ f a ])
at_place w xs i f s h = elim (Option-cases (get_elem? xs i)) [
  | inl e ↦ rw e s
  | inr (a, e) ↦ rw e (h a e)
]

step-IsSound : (w : World) (call : Call) → IsWord call → IsSound w → IsSound (step w call)
unfolding step
step-IsSound w (open_pool amount) a s =
    unfold new_pool in alloc-IsSound w amount (minted w.cells.next) a s (omega arith)
step-IsSound w (narrow_at i limit) a s =
    at_place w w.pools i (λ p. with_pool w limit (narrowed w.cells p limit)) s
      λ p e.
        narrowed-IsSound w p limit a s (All-get_elem? (IsBelow w.cells.next) w.pools i p s.pools e)
step-IsSound w (draw_at i bytes) a s =
    at_place w w.pools i (λ p. with_drawn w p bytes (try_take w.cells.left p bytes)) s
      λ p e.
        drawn-IsSound w p bytes (try_take w.cells.left p bytes) s
          (All-get_elem? (IsBelow w.cells.next) w.pools i p s.pools e)
          (try_take-Outcome w.cells.left p bytes (sound-IsU64 w s))
step-IsSound w (spend_at i) a s =
    at_place w w.pools i (λ p. with_drawn w p 1 (try_spend w.cells.left p)) s
      λ p e.
        unfold try_spend in
        drawn-IsSound w p 1 (try_take w.cells.left p 1) s
          (All-get_elem? (IsBelow w.cells.next) w.pools i p s.pools e)
          (try_take-Outcome w.cells.left p 1 (sound-IsU64 w s))
step-IsSound w (reserve_at i bytes) a s =
    at_place w w.pools i (λ p. with_reserved w (reserve w.cells.left p bytes)) s
      λ p e.
        unfold reserve in
        reserved-IsSound w p bytes (try_take w.cells.left p bytes) s
          (All-get_elem? (IsBelow w.cells.next) w.pools i p s.pools e)
          (try_take-Outcome w.cells.left p bytes (sound-IsU64 w s))
step-IsSound w (grow_at i more) a s =
    at_place w w.live i (λ r. with_grown w i (try_grow w.cells.left r more)) s
      λ r e.
        unfold try_grow in
        grown-IsSound w i r more (try_take w.cells.left r.pool more) s e
          (try_take-Outcome w.cells.left r.pool more (sound-IsU64 w s))
step-IsSound w (shrink_at i fewer) a s =
    at_place w w.live i (λ r. with_shrunk w i (shrink w.cells.left r fewer)) s
      λ r e. shrunk-IsSound w i r fewer s e
step-IsSound w (keep_at i) a s =
    at_place w w.live i
      (λ r. with_reservations w (keep_bytes w.cells.left r) (remove_at w.live i) (r ∷ w.gone)) s
      λ r e. kept-IsSound w i r s e
step-IsSound w (drop_at i) a s =
    at_place w w.live i (λ r. with_reservations w (drop w.cells.left r) (remove_at w.live i) w.gone)
      s λ r e. dropped-IsSound w i r s e
step-IsSound w (refund_at i) a s = elim (Option-cases (get_elem? w.gone i)) [
  | inl e ↦ rw (e, with_refunded) s
  | inr (r, e) ↦ rw (e, with_refunded) (refunded-IsSound w i r s e)
]

run-IsSound : (calls : List Call) → All IsWord calls → IsSound (run calls)
unfolding run
run-IsSound [] a = record {
  exact = λ c. refl;
  limited = λ c. omega arith;
  pools = tt;
  live = tt;
  gone = tt;
}
run-IsSound (call ∷ older) a = step-IsSound (run older) call a.0 (run-IsSound older a.1)

-- After any history of calls on a run's pools, each made with a 64-bit number, what is left in a
-- cell, what the live reservations hold of it and what is gone of it make up the limit that the
-- cell was made with.
pub run-limits :
    (calls : List Call) (c : ℕ)
    → All IsWord calls
    → (run calls).cells.left c + (total (run calls).live c + total (run calls).gone c)
      ≡ (run calls).limits c
run-limits calls c a = (run-IsSound calls a).exact c
