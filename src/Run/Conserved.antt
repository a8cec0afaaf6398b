-- ===== src/Run/Conserved.antt =====
-- crates/ikigai-core/src/run.rs: no call makes or loses what a cell was given.
-- Each cell holds its limit but for what is reserved of it and what is gone, and what the program
-- holds was made.
use ikigai_core.Run.Totals.{
  drawn-IsU64, IsHeld, All-get_elem?, All-remove_at, total, drawn_zero, drawn_add, drawn_less,
  total-remove_at,
}
use ikigai_core.Run.Narrowed.{IsBelow}
use ikigai_core.Run.Taking.{drawn, give_back-drawn, IsU64, Outcome}
use ikigai_core.Run.Budgets.{
  World, with_reservations, with_drawn, with_reserved, with_grown, with_shrunk,
}
use ikigai_core.Run.Reservations.{Reservation, over_reservation, shrink, drop, keep_bytes}
use ikigai_core.Run.Pools.{Left, Pool, give_back}
use ikigai_core.Prelude.{
  remove_at, get_elem?, wrapping_add, u64_mod, subst, ℕ, ◌+◌, ◌-◌, ◌<◌, min, nat_eq, list_eq,
  option_eq, ◌≡◌, sym, ◌∙◌, inl, inr, Bool, true, false, List, ◌∷◌, some, ok, err, ltb, All, arith,
  Bool-cases,
}

pub record IsSound (w : World) : Type 0 where
  pub exact : (c : ℕ) → w.cells.left c + (total w.live c + total w.gone c) ≡ w.limits c
  pub limited : (c : ℕ) → w.limits c < u64_mod
  pub pools : All (IsBelow w.cells.next) w.pools
  pub live : All (IsHeld w.cells.next) w.live
  pub gone : All (IsHeld w.cells.next) w.gone

pub sound-IsU64 : (w : World) → IsSound w → IsU64 w.cells.left
sound-IsU64 w s c = let e = s.exact c in let b = s.limited c in omega arith

moved :
    (w : World) (left : Left) (live gone : List Reservation)
    → IsSound w
    → ((c : ℕ)
        → left c + (total live c + total gone c)
          ≡ w.cells.left c + (total w.live c + total w.gone c))
    → All (IsHeld w.cells.next) live
    → All (IsHeld w.cells.next) gone
    → IsSound (with_reservations w left live gone)
moved w left live gone s h l g = record {
  exact = λ c. h c ∙ s.exact c;
  limited = s.limited;
  pools = s.pools;
  live = l;
  gone = g;
}

pub drawn-IsSound :
    (w : World) (p : Pool) (bytes : ℕ) (r : Left × Bool)
    → IsSound w
    → IsBelow w.cells.next p
    → Outcome w.cells.left w.cells.left bytes p r
    → IsSound (with_drawn w p bytes r)
drawn-IsSound w p bytes (after, true) s b o =
    moved w after w.live (record { pool = p; bytes = bytes } ∷ w.gone) s
      (λ c. let h = o c in omega arith) s.live (b, s.gone)
drawn-IsSound w p bytes (after, false) s b o =
    moved w after w.live w.gone s (λ c. let h = o c in omega arith) s.live s.gone

pub reserved-IsSound :
    (w : World) (p : Pool) (bytes : ℕ) (r : Left × Bool)
    → IsSound w
    → IsBelow w.cells.next p
    → Outcome w.cells.left w.cells.left bytes p r
    → IsSound (
        with_reserved w (
          let (after, taken) = r in
          elim taken [
            | true ↦ (after, ok (record { pool = p; bytes = bytes }))
            | false ↦ (after, err (over_reservation after p bytes))
          ]))
reserved-IsSound w p bytes (after, true) s b o =
    moved w after (record { pool = p; bytes = bytes } ∷ w.live) w.gone s
      (λ c. let h = o c in omega arith) (b, s.live) s.gone
reserved-IsSound w p bytes (after, false) s b o =
    moved w after w.live w.gone s (λ c. let h = o c in omega arith) s.live s.gone

module _ (w : World) (i : ℕ) (r : Reservation) where
  -- A live reservation is part of what is held.
  held_part :
      IsSound w
      → get_elem? w.live i ≡ some r
      → (c : ℕ) → w.cells.left c + drawn r.bytes r.pool c < u64_mod
  held_part s e c =
      let t = total-remove_at w.live i r c e in
      let x = s.exact c in let l = s.limited c in omega arith

  changed :
      (left : Left) (bytes : ℕ)
      → IsSound w
      → get_elem? w.live i ≡ some r
      → ((c : ℕ) → left c + drawn bytes r.pool c ≡ w.cells.left c + drawn r.bytes r.pool c)
      → IsSound (
          with_reservations w left
            (record { pool = r.pool; bytes = bytes } ∷ remove_at w.live i)
            w.gone)
  changed left bytes s e h =
      moved w left (record { pool = r.pool; bytes = bytes } ∷ remove_at w.live i) w.gone s
        (λ c. let t = total-remove_at w.live i r c e in let hc = h c in omega arith)
        (
          All-get_elem? (IsHeld w.cells.next) w.live i r s.live e,
          All-remove_at (IsHeld w.cells.next) w.live i s.live,
        )
        s.gone

  pub grown-IsSound :
      (more : ℕ) (t : Left × Bool)
      → IsSound w
      → get_elem? w.live i ≡ some r
      → Outcome w.cells.left w.cells.left more r.pool t
      → IsSound (
          with_grown w i (
            let (after, taken) = t in
            elim taken [
              | true ↦ (after, record { pool = r.pool; bytes = wrapping_add r.bytes more }, ok tt)
              | false ↦ (after, r, err (over_reservation after r.pool more))
            ]))
  grown-IsSound more (after, true) s e o =
      let both : (c : ℕ)
          → drawn (r.bytes + more) r.pool c ≡ drawn r.bytes r.pool c + drawn more r.pool c =
        λ c. drawn_add r.bytes more r.pool c in
      let small : r.bytes + more < u64_mod =
        drawn-IsU64 (r.bytes + more) r.pool
          λ c. let hc = o c in let bc = both c in let pc = held_part s e c in omega arith in
      let same : wrapping_add r.bytes more ≡ r.bytes + more = omega arith in
      changed after (wrapping_add r.bytes more) s e (
        subst (λ n. (c : ℕ) → after c + drawn n r.pool c ≡ w.cells.left c + drawn r.bytes r.pool c)
          (sym same) λ c. let hc = o c in let bc = both c in omega arith)
  grown-IsSound more (after, false) s e o =
      changed after r.bytes s e λ c. let hc = o c in omega arith

  pub shrunk-IsSound :
      (fewer : ℕ)
      → IsSound w
      → get_elem? w.live i ≡ some r
      → IsSound (with_shrunk w i (shrink w.cells.left r fewer))
  unfolding shrink
  shrunk-IsSound fewer s e =
      let less : (c : ℕ)
          → drawn (r.bytes - min fewer r.bytes) r.pool c + drawn (min fewer r.bytes) r.pool c
            ≡ drawn r.bytes r.pool c =
        λ c. drawn_less r.bytes (min fewer r.bytes) r.pool c (omega arith) in
      let back =
        give_back-drawn r.pool w.cells.left (min fewer r.bytes)
          λ c. let l = less c in let p = held_part s e c in omega arith in
      changed (give_back w.cells.left r.pool (min fewer r.bytes)) (r.bytes - min fewer r.bytes) s e
        λ c. let l = less c in let b = back c in omega arith

  -- What is let go of stays drawn.
  pub kept-IsSound :
      IsSound w
      → get_elem? w.live i ≡ some r
      → IsSound (with_reservations w (keep_bytes w.cells.left r) (remove_at w.live i) (r ∷ w.gone))
  unfolding keep_bytes drop
  kept-IsSound s e =
      moved w w.cells.left (remove_at w.live i) (r ∷ w.gone) s
        (λ c. let t = total-remove_at w.live i r c e in omega arith)
        (All-remove_at (IsHeld w.cells.next) w.live i s.live)
        (All-get_elem? (IsHeld w.cells.next) w.live i r s.live e, s.gone)

  drop-drawn :
      IsSound w
      → get_elem? w.live i ≡ some r
      → (c : ℕ) → drop w.cells.left r c ≡ w.cells.left c + drawn r.bytes r.pool c
  unfolding drop
  drop-drawn s e c = elim (Bool-cases (ltb 0 r.bytes)) [
    | inl h ↦ rw h (give_back-drawn r.pool w.cells.left r.bytes (held_part s e) c)
    | inr h ↦
        let none_held : r.bytes ≡ 0 = ground (arith, h) in
        rw h (ground (arith, none_held, drawn_zero r.pool c))
  ]

  pub dropped-IsSound :
      IsSound w
      → get_elem? w.live i ≡ some r
      → IsSound (with_reservations w (drop w.cells.left r) (remove_at w.live i) w.gone)
  dropped-IsSound s e =
      moved w (drop w.cells.left r) (remove_at w.live i) w.gone s
        (λ c. let t = total-remove_at w.live i r c e in let d = drop-drawn s e c in omega arith)
        (All-remove_at (IsHeld w.cells.next) w.live i s.live) s.gone

  pub refunded-IsSound :
      IsSound w
      → get_elem? w.gone i ≡ some r
      → IsSound
          (with_reservations w (give_back w.cells.left r.pool r.bytes) w.live (remove_at w.gone i))
  refunded-IsSound s e =
      let back = give_back-drawn r.pool w.cells.left r.bytes λ c.
        let t = total-remove_at w.gone i r c e in
        let x = s.exact c in let l = s.limited c in omega arith in
      moved w (give_back w.cells.left r.pool r.bytes) w.live (remove_at w.gone i) s
        (λ c. let t = total-remove_at w.gone i r c e in let b = back c in omega arith) s.live
        (All-remove_at (IsHeld w.cells.next) w.gone i s.gone)
