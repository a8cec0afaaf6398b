-- ===== src/Content/Live.antt =====
-- crates/ikigai-core/src/content_store.rs: the count of handles over histories of calls.
use ikigai_core.Prelude.{
  remove_at, ℕ, zero, suc, ◌<◌, ◌≤◌, refl, Str, nat_eq, list_eq, List, [], ◌∷◌, Option, arith, inl,
  inr, length, get_elem?, u64_mod, u64_max, Option-cases,
}
use ikigai_core.HashMap
use ikigai_core.HashMap.{HashMap}
use ikigai_core.HashMap.Totals.{total}
use ikigai_core.Repr.Content.{bytes, replay, Replay, share_body}
use ikigai_core.Content
use ikigai_core.Content.{
  err, ok, Refusal, Result, ContentId, Holder, holder_eq, Entry, State, Handle, put_held,
  put_replay_held, get, get_for, admits, root, holder_of, hold,
}
use ikigai_core.Content.Holders.{counted}
use ikigai_core.Content.Histories.{
  World, Call, put, put_for, put_replay, put_replay_for, clone_at, drop_at, received, step, run,
}
use ikigai_core.Content.Held.{IsCounted, handles_on}
use ikigai_core.Content.Steps.{hold-IsCounted, clone-IsCounted}
use ikigai_core.Content.Dropping.{drop-IsCounted}

remove_at-le : (live : List Handle) (i : ℕ) → length (remove_at live i) ≤ length live
unfolding remove_at
remove_at-le [] i = omega arith
remove_at-le (x ∷ live) zero = omega arith
remove_at-le (x ∷ live) (suc i) = omega (arith, remove_at-le live i)

module _ (digest : Str → ContentId) (oxiri : Str → Option Str) (max_bytes : ℕ) where
  module _ (w : World) (bound : max_bytes < u64_max) (fits : suc (length w.live) < u64_mod)
      (c : IsCounted max_bytes w) where
    replayed :
        (holder : Holder) (r : Replay)
        → IsCounted max_bytes (received w.live (put_replay_held max_bytes w.state holder r))
    unfolding put_replay_held
    replayed holder r = elim (Option-cases r.validator) [
      | inl n ↦ rw (n, put_replay_held) c
      | inr (id, n) ↦ elim (Option-cases r.len_hint) [
        | inl m ↦ rw (n, m, put_replay_held) c
        | inr (size, m) ↦
            rw (n, m, put_replay_held)
              (hold-IsCounted max_bytes w id holder size (replay r) bound
                (unfold share_body in refl) fits c)
      ]
    ]

    put_bytes :
        (holder : Holder) (b : Str)
        → IsCounted max_bytes (received w.live (put_held digest max_bytes w.state holder b))
    unfolding put_held
    put_bytes holder b =
        hold-IsCounted max_bytes w (digest b) holder (length b) (bytes b) bound
          (unfold share_body in refl) fits c

    step-IsCounted : (call : Call) → IsCounted max_bytes (step digest oxiri max_bytes w call)
    unfolding step Content.put_for Content.put_replay_for
    step-IsCounted (put b) = put_bytes root b
    step-IsCounted (put_for cap b) = put_bytes (holder_of oxiri cap) b
    step-IsCounted (put_replay r) = replayed root r
    step-IsCounted (put_replay_for cap r) = replayed (holder_of oxiri cap) r
    step-IsCounted (clone_at i) = elim (Option-cases (get_elem? w.live i)) [
      | inl n ↦ rw (n, step) c
      | inr (handle, n) ↦ rw (n, step) (clone-IsCounted max_bytes w i handle n fits c)
    ]
    step-IsCounted (drop_at i) = elim (Option-cases (get_elem? w.live i)) [
      | inl n ↦ rw (n, step) c
      | inr (handle, n) ↦
          rw (n, step) (drop-IsCounted max_bytes w i handle n (omega (arith, fits)) c)
    ]

  received-le :
      (live : List Handle) (x : State × Result Handle Refusal)
      → length (received live x).live ≤ suc (length live)
  received-le live (s, ok handle) = omega arith
  received-le live (s, err refusal) = omega arith

  step-le :
      (w : World) (call : Call)
      → length (step digest oxiri max_bytes w call).live ≤ suc (length w.live)
  unfolding step
  step-le w (put b) = received-le w.live _
  step-le w (put_for cap b) = received-le w.live _
  step-le w (put_replay r) = received-le w.live _
  step-le w (put_replay_for cap r) = received-le w.live _
  step-le w (clone_at i) = elim (Option-cases (get_elem? w.live i)) [
    | inl n ↦ rw (n, step) (omega arith)
    | inr (handle, n) ↦ rw (n, step) (omega arith)
  ]
  step-le w (drop_at i) = elim (Option-cases (get_elem? w.live i)) [
    | inl n ↦ rw (n, step) (omega arith)
    | inr (handle, n) ↦ rw (n, step) (omega (arith, remove_at-le w.live i))
  ]

  run-le : (past : List Call) → length (run digest oxiri max_bytes past).live ≤ length past
  unfolding run
  run-le [] = omega arith
  run-le (call ∷ past) = omega (arith, run-le past, step-le (run digest oxiri max_bytes past) call)

  pub run-IsCounted :
      (past : List Call)
      → max_bytes < u64_max
      → length past < u64_mod
      → IsCounted max_bytes (run digest oxiri max_bytes past)
  unfolding run total handles_on counted
  run-IsCounted [] bound fits = record {
    distinct = tt;
    entries = tt;
    counts = λ id holder. unfold HashMap.get in refl;
    exact = refl;
    bounded = omega arith;
  }
  run-IsCounted (call ∷ past) bound fits =
      step-IsCounted (run digest oxiri max_bytes past) bound (omega (arith, fits, run-le past))
        (run-IsCounted past bound (omega arith)) call
