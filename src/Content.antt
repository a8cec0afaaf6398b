-- ===== src/Content.antt =====
-- crates/ikigai-core/src/content_store.rs: the in-memory content store. `digest` is the hash
-- behind `ContentId::of`, and `oxiri` the parser behind `Iri::parse`. The locks are held for the
-- whole of an operation, so an operation is one step; the store outlives its handles.
pub mod Holders
pub mod Histories
pub mod Held
pub mod Steps
pub mod Dropping
pub mod Addressed
pub mod Live
pub mod Readers
pub mod Delivery
pub mod Address
mod Tests
use ikigai_core.Prelude.{
  ap, ℕ, ◌-◌, Str, ◌==◌, nat_eq, list_eq, option_eq, ◌≡◌, refl, ap, ◌↔◌, Eq, eq→≡, eq_refl, arith,
  Bool, true, false, ◌||◌, List, [], ◌∷◌, Option, none, some, Result, ok, err, any, length, ltb,
  wrapping_add, wrapping_sub, saturating_add, saturating_sub, or_zero, if◌then◌else◌,
}
use ikigai_core.HashMap
use ikigai_core.HashMap.{HashMap}
use ikigai_core.Repr.Content.{Body, bytes, replay, Replay, share_body}
use ikigai_core.Capability.Ops
use ikigai_core.Capability.Ops.{Capability, is_root}

-- `ContentId`: the bytes of a digest.
abbrev pub ContentId : Type 0
ContentId = Str

pub data Holder : Type 0 where
  root : Holder
  principal : Str → Holder

abbrev pub holder_beq : Holder → Holder → Bool
holder_beq root root = true
holder_beq (principal a) (principal b) = a == b
holder_beq _ _ = false

pub holder_beq_iff : (a b : Holder) → (holder_beq a b ≡ true) ↔ (a ≡ b)
holder_beq_iff root root = ((λ h. refl), λ h. refl)
holder_beq_iff (principal a) (principal b) =
    ((λ h. ap principal (eq→≡ a b h)), λ h. ground (arith, eq_refl a))
holder_beq_iff root (principal b) = ((λ h. ground arith), λ h. ground arith)
holder_beq_iff (principal a) root = ((λ h. ground arith), λ h. ground arith)

instance abbrev pub holder_eq : Eq Holder
holder_eq = record { test = holder_beq; test_iff = holder_beq_iff }

-- `Entry`, with the number of live handles of each holder
pub record Entry : Type 0 where
  pub body : Body
  pub size : ℕ
  pub holders : HashMap Holder ℕ

pub record State : Type 0 where
  pub entries : HashMap ContentId Entry
  pub held : ℕ

-- `ContentHandle`
pub record Handle : Type 0 where
  pub id : ContentId
  pub holder : Holder

-- The refusals, less the text of their detail.
pub data Refusal : Type 0 where
  invalid_argument over_budget : Refusal

-- `*entry.holders.entry(holder).or_default() += 1`
unfoldable pub add_handle : Holder → Entry → Entry
add_handle holder entry = record entry {
  holders =
      HashMap.insert holder (wrapping_add (or_zero (HashMap.get entry.holders holder)) 1)
        entry.holders;
}

-- One handle less, and no holder without a handle.
unfoldable pub take_handle : Holder → Entry → Entry
take_handle holder entry = elim (HashMap.get entry.holders holder) [
  | none ↦ entry
  | some handles ↦
      let left = wrapping_sub handles 1 in
      record entry {
        holders =
            if left == 0
            then HashMap.remove holder entry.holders
            else HashMap.insert holder left entry.holders;
      }
]

abbrev pub is_empty : HashMap Holder ℕ → Bool
is_empty [] = true
is_empty (_ ∷ _) = false

unfoldable pub hold : ℕ → State → Holder → ContentId → ℕ → Body → State × Result Handle Refusal
unfolding add_handle
hold max_bytes s holder id size body = elim (HashMap.get s.entries id) [
  | some _ ↦ (
    record s { entries = HashMap.modify id (add_handle holder) s.entries },
    ok (record { id = id; holder = holder }),
  )
  | none ↦
      let held = saturating_add s.held size in
      if ltb max_bytes held then (s, err over_budget) else (
        record {
          held = held;
          entries =
              HashMap.insert id (record { body = body; size = size; holders = (holder, 1) ∷ [] })
                s.entries;
        },
        ok (record { id = id; holder = holder }),
      )
]

unfoldable pub put_held :
    (Str → ContentId) → ℕ → State → Holder → Str → State × Result Handle Refusal
unfolding hold
put_held digest max_bytes s holder b = hold max_bytes s holder (digest b) (length b) (bytes b)

unfoldable pub put_replay_held : ℕ → State → Holder → Replay → State × Result Handle Refusal
unfolding hold
put_replay_held max_bytes s holder r = elim r.validator [
  | none ↦ (s, err invalid_argument)
  | some id ↦ elim r.len_hint [
    | none ↦ (s, err over_budget)
    | some size ↦ hold max_bytes s holder id size (replay r)
  ]
]

-- `Clone for ContentHandle`: the store, beside the second handle.
unfoldable pub clone : State → Handle → State × Handle
unfolding add_handle
clone s handle =
    (record s { entries = HashMap.modify handle.id (add_handle handle.holder) s.entries }, handle)

-- `Drop for ContentHandle`
unfoldable pub drop : State → Handle → State
unfolding take_handle
drop s handle = elim (HashMap.get s.entries handle.id) [
  | none ↦ s
  | some entry ↦
      if is_empty (take_handle handle.holder entry).holders
      then record {
        entries = HashMap.remove handle.id s.entries;
        held = saturating_sub s.held entry.size;
      }
      else record s { entries = HashMap.modify handle.id (take_handle handle.holder) s.entries }
]

-- `ContentStore::get`
unfoldable pub get : State → ContentId → Option Body
unfolding share_body
get s id = elim (HashMap.get s.entries id) [ none ↦ none | some entry ↦ share_body entry.body ]

module _ (oxiri : Str → Option Str) where
  -- `Holder::of`
  unfoldable pub holder_of : Capability → Holder
  holder_of c = elim (Ops.principal oxiri c) [ none ↦ root | some p ↦ principal p ]

  unfoldable pub admits : Holder → Capability → Bool
  admits root c = false
  admits (principal p) c = Ops.acts_as oxiri c p

  -- `ContentStore::get_for`
  unfoldable pub get_for : State → ContentId → Capability → Option Body
  unfolding share_body admits
  get_for s id c = elim (HashMap.get s.entries id) [
    | none ↦ none
    | some entry ↦
        if is_root c || any (λ h. admits h c) (HashMap.keys entry.holders)
        then share_body entry.body
        else none
  ]

  unfoldable pub put_for :
      (Str → ContentId) → ℕ → State → Capability → Str → State × Result Handle Refusal
  unfolding put_held holder_of
  put_for digest max_bytes s c b = put_held digest max_bytes s (holder_of c) b

  unfoldable pub put_replay_for : ℕ → State → Capability → Replay → State × Result Handle Refusal
  unfolding put_replay_held holder_of
  put_replay_for max_bytes s c r = put_replay_held max_bytes s (holder_of c) r
