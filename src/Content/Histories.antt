-- ===== src/Content/Histories.antt =====
-- crates/ikigai-core/src/content_store.rs: a store and its live handles, as the result of calls.
-- A handle is dropped once, since the program owns it. Histories are newest first.
use ikigai_core.Prelude.{
  remove_at, ℕ, Str, List, [], ◌∷◌, Option, none, some, Result, ok, err, get_elem?,
}
use ikigai_core.Repr.Content.{Replay}
use ikigai_core.Content
use ikigai_core.Content.{
  ContentId, Holder, State, Handle, Refusal, hold, put_held, put_replay_held, holder_of, clone,
  drop, root,
}
use ikigai_core.Capability.Ops.{Capability}

-- The calls, and the place of a live handle that is cloned or dropped.
pub data Call : Type 0 where
  put : Str → Call
  put_for : Capability → Str → Call
  put_replay : Replay → Call
  put_replay_for : Capability → Replay → Call
  clone_at drop_at : ℕ → Call

-- A store with its live handles.
pub record World : Type 0 where
  pub state : State
  pub live : List Handle

abbrev pub empty_world : World
empty_world = record { state = record { entries = []; held = 0 }; live = [] }

-- A handle that was given is live.
abbrev pub received : List Handle → State × Result Handle Refusal → World
received live (s, ok handle) = record { state = s; live = handle ∷ live }
received live (s, err _) = record { state = s; live = live }

module _ (digest : Str → ContentId) (oxiri : Str → Option Str) (max_bytes : ℕ) where
  unfoldable pub step : World → Call → World
  unfolding Content.put_for Content.put_replay_for put_held put_replay_held clone drop remove_at
  step w (put b) = received w.live (put_held digest max_bytes w.state root b)
  step w (put_for c b) = received w.live (Content.put_for oxiri digest max_bytes w.state c b)
  step w (put_replay r) = received w.live (put_replay_held max_bytes w.state root r)
  step w (put_replay_for c r) = received w.live (Content.put_replay_for oxiri max_bytes w.state c r)
  step w (clone_at i) = elim (get_elem? w.live i) [
    | none ↦ w
    | some handle ↦
        let (s, second) = clone w.state handle in record { state = s; live = second ∷ w.live }
  ]
  step w (drop_at i) = elim (get_elem? w.live i) [
    | none ↦ w
    | some handle ↦ record { state = drop w.state handle; live = remove_at w.live i }
  ]

  unfoldable pub run : List Call → World
  unfolding step
  run [] = empty_world
  run (call ∷ older) = step (run older) call
