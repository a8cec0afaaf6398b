-- ===== src/Cache/Entry.antt =====
-- crates/ikigai-core/src/cache.rs: keys, resident entries, failures and the facts a policy sees.
use ikigai_core.Prelude.{
  ℕ, ◌^◌, Str, Eq, ◌==◌, nat_eq, list_eq, ◌≡◌, ◌↔◌, Bool, true, false, ◌&&◌, List, Option, none,
  some, length, u64_max, arith, eq→≡, eq_refl, if◌then◌else◌, ltb,
}
use ikigai_core.TreeSet.{TreeSet}
use ikigai_core.Repr.{Thread, Representation, Provenance}
use ikigai_core.Repr.Content.{Body, len_hint}
use ikigai_core.Repr.Lifetime.{Time}

-- `RequestId`: the bytes of the content address of a request.
abbrev pub RequestId : Type 0
RequestId = Str

pub record CacheKey : Type 0 where
  pub request : RequestId
  pub capability : ℕ
  pub scope : ℕ

unfoldable pub new_key : RequestId → ℕ → CacheKey
new_key request capability = record { request = request; capability = capability; scope = 0 }

unfoldable pub in_scope : CacheKey → ℕ → CacheKey
in_scope key scope = record key { scope = scope }

abbrev pub key_beq : CacheKey → CacheKey → Bool
key_beq a b = a.request == b.request && a.capability == b.capability && a.scope == b.scope

pub key_beq_iff : (a b : CacheKey) → (key_beq a b ≡ true) ↔ (a ≡ b)
key_beq_iff a b =
    (λ h. ground (arith, eq→≡ a.request b.request), λ h. ground (arith, eq_refl a.request))

instance abbrev pub key_eq : Eq CacheKey
key_eq = record { test = key_beq; test_iff = key_beq_iff }

-- A thread with the generation at which an entry pins it.
abbrev pub Edge : Type 0
Edge = Thread × ℕ

-- `Slot`
pub record Slot : Type 0 where
  pub incoming : Option Provenance
  pub target : Str
  pub representation : Representation Body
  pub edges : List Edge
  pub cost_millis : Option ℕ
  pub hits : ℕ
  pub stored_tick : ℕ
  pub last_used_tick : ℕ

-- `FailedSlot`, over the program's errors
pub record FailedSlot (Error : Type 0) : Type 0 where
  pub incoming : Option Provenance
  pub target : Str
  pub error : Error
  pub until : Time
  pub threads : TreeSet
  pub edges : List Edge

pub record EntryFacts : Type 0 where
  pub request : RequestId
  pub target : Str
  pub media_type : Str
  pub bytes : ℕ
  pub cost_millis : Option ℕ
  pub hits : ℕ
  pub threads : ℕ
  pub stored_tick : ℕ
  pub last_used_tick : ℕ

pub record CacheBound : Type 0 where
  pub max_entries : ℕ
  pub max_bytes : ℕ

abbrev pub default_bound : CacheBound
default_bound = record { max_entries = 4096; max_bytes = 2 ^ 26 }

pub data EntryState : Type 0 where
  live cut expired : EntryState

-- `EntryState::is_live`
abbrev pub is_live : EntryState → Bool
is_live live = true
is_live _ = false

-- `body_size`: a body of unknown length counts as the largest size. `usize` has 64 bits.
unfoldable pub body_size : Body → ℕ
unfolding len_hint
body_size body = elim (len_hint body) [
  | none ↦ u64_max
  | some len ↦ if ltb u64_max len then u64_max else len
]

-- `Slot::bytes`
unfoldable pub slot_bytes : Slot → ℕ
unfolding body_size
slot_bytes slot = body_size slot.representation.content

-- `Slot::facts`
unfoldable pub facts : RequestId → Slot → EntryFacts
unfolding slot_bytes
facts request slot = record {
  request = request;
  target = slot.target;
  media_type = slot.representation.repr_type.media_type;
  bytes = slot_bytes slot;
  cost_millis = slot.cost_millis;
  hits = slot.hits;
  threads = length slot.edges;
  stored_tick = slot.stored_tick;
  last_used_tick = slot.last_used_tick;
}
