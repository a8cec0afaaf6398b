-- ===== src/Content/Addressed.antt =====
-- crates/ikigai-core/src/content_store.rs: what a store keeps under an address, and the size that it
-- counts for it.
use ikigai_core.Repr.Content.{once, len_hint}
use ikigai_core.Prelude.{
  or_zero, get_elem?, saturating_add, ℕ, Str, nat_eq, list_eq, option_eq, ◌≡◌, refl, inl, inr, List,
  [], ◌∷◌, Option, some, ltb, All, length, arith, Bool-cases, Option-cases,
}
use ikigai_core.HashMap
use ikigai_core.HashMap.{HashMap}
use ikigai_core.HashMap.Laws.{All-insert, All-remove, All-modify}
use ikigai_core.HashMap.Totals.{total}
use ikigai_core.Content
use ikigai_core.Content.{
  replay, bytes, Replay, Body, ContentId, Holder, holder_eq, Entry, State, Handle, Refusal, hold,
  put_held, put_replay_held, clone, drop, add_handle, take_handle, is_empty, root, holder_of,
}
use ikigai_core.Content.Histories.{
  World, Call, put, put_for, put_replay, put_replay_for, clone_at, drop_at, received, step, run,
}
use ikigai_core.Content.Dropping.{size-take_handle, body-take_handle}

-- The bytes of a body by its own account: their number, or the length that a replay states.
abbrev pub bytes_of : Entry → ℕ
bytes_of entry = or_zero (len_hint entry.body)

module _ (digest : Str → ContentId) where
  -- A body stands under its address: bytes under their digest, and what can be read again under
  -- the validator that it states.
  abbrev pub IsContentOf : ContentId → Body → Type 0
  IsContentOf id (bytes b) = digest b ≡ id
  IsContentOf id (replay r) = r.validator ≡ some id
  IsContentOf id (once s) = ⊥

  pub record IsAddressed (x : ContentId × Entry) : Type 0 where
    pub content : IsContentOf x.0 x.1.body
    pub sized : len_hint x.1.body ≡ some x.1.size

  abbrev pub IsStore : State → Type 0
  IsStore s = All IsAddressed s.entries

  module _ (max_bytes : ℕ) (live : List Handle) (s : State) (a : IsStore s) where
    hold-IsStore :
        (holder : Holder) (id : ContentId) (size : ℕ) (body : Body)
        → IsContentOf id body
        → len_hint body ≡ some size
        → IsStore (received live (hold max_bytes s holder id size body)).state
    unfolding hold
    hold-IsStore holder id size body content sized =
        elim (Option-cases (HashMap.get s.entries id)) [
          | inr (entry, e) ↦
              rw (e, hold)
                (All-modify IsAddressed s.entries id (add_handle holder)
                  (λ j v h. unfold add_handle in record { content = h.content; sized = h.sized }) a)
          | inl absent ↦ elim (Bool-cases (ltb max_bytes (saturating_add s.held size))) [
            | inl much ↦ rw (absent, much, hold) a
            | inr room ↦
                rw (absent, room, hold)
                  (All-insert IsAddressed s.entries id
                    (record { body = body; size = size; holders = (holder, 1) ∷ [] }) a
                    (record { content = content; sized = sized }))
          ]
        ]

    put_held-IsStore :
        (holder : Holder) (b : Str)
        → IsStore (received live (put_held digest max_bytes s holder b)).state
    unfolding put_held len_hint
    put_held-IsStore holder b = hold-IsStore holder (digest b) (length b) (bytes b) refl refl

    put_replay_held-IsStore :
        (holder : Holder) (r : Replay)
        → IsStore (received live (put_replay_held max_bytes s holder r)).state
    unfolding put_replay_held
    put_replay_held-IsStore holder r = elim (Option-cases r.validator) [
      | inl n ↦ rw (n, put_replay_held) a
      | inr (id, n) ↦ elim (Option-cases r.len_hint) [
        | inl m ↦ rw (n, m, put_replay_held) a
        | inr (size, m) ↦
            rw (n, m, put_replay_held)
              (hold-IsStore holder id size (replay r) n (unfold len_hint in m))
      ]
    ]

    drop-IsStore : (handle : Handle) → IsStore (drop s handle)
    unfolding drop
    drop-IsStore handle = elim (Option-cases (HashMap.get s.entries handle.id)) [
      | inl n ↦ rw (n, drop) a
      | inr (entry, n) ↦ elim (Bool-cases (is_empty (take_handle handle.holder entry).holders)) [
        | inl last ↦ rw (n, last, drop) (All-remove IsAddressed s.entries handle.id a)
        | inr more ↦
            rw (n, more, drop)
              (All-modify IsAddressed s.entries handle.id (take_handle handle.holder)
                (λ j v h. record {
                  content = rw (body-take_handle handle.holder v) h.content;
                  sized =
                      rw (body-take_handle handle.holder v, size-take_handle handle.holder v)
                        h.sized;
                })
                a)
      ]
    ]

  module _ (oxiri : Str → Option Str) (max_bytes : ℕ) where
    step-IsStore :
        (w : World) (call : Call)
        → IsStore w.state
        → IsStore (step digest oxiri max_bytes w call).state
    unfolding step Content.put_for Content.put_replay_for clone
    step-IsStore w (put b) a = put_held-IsStore max_bytes w.live w.state a root b
    step-IsStore w (put_for cap b) a =
        put_held-IsStore max_bytes w.live w.state a (holder_of oxiri cap) b
    step-IsStore w (put_replay r) a = put_replay_held-IsStore max_bytes w.live w.state a root r
    step-IsStore w (put_replay_for cap r) a =
        put_replay_held-IsStore max_bytes w.live w.state a (holder_of oxiri cap) r
    step-IsStore w (clone_at i) a = elim (Option-cases (get_elem? w.live i)) [
      | inl n ↦ rw (n, step) a
      | inr (handle, n) ↦
          rw (n, step)
            (All-modify IsAddressed w.state.entries handle.id (add_handle handle.holder)
              (λ j v h. unfold add_handle in record { content = h.content; sized = h.sized }) a)
    ]
    step-IsStore w (drop_at i) a = elim (Option-cases (get_elem? w.live i)) [
      | inl n ↦ rw (n, step) a
      | inr (handle, n) ↦ rw (n, step) (drop-IsStore max_bytes w.live w.state a handle)
    ]

    pub run-IsStore : (past : List Call) → IsStore (run digest oxiri max_bytes past).state
    unfolding run
    run-IsStore [] = tt
    run-IsStore (call ∷ past) =
        step-IsStore (run digest oxiri max_bytes past) call (run-IsStore past)

  -- The sizes that are counted are the bytes of the bodies.
  pub total-bytes_of :
      (m : HashMap ContentId Entry)
      → All IsAddressed m
      → total (λ (entry : Entry). entry.size) m ≡ total bytes_of m
  unfolding total
  total-bytes_of [] a = refl
  total-bytes_of ((id, entry) ∷ m) a = ground (arith, a.0.sized, total-bytes_of m a.1)
