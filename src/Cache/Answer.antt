-- ===== src/Cache/Answer.antt =====
-- crates/ikigai-core/src/cache.rs: what a read hands back, and the faces that build it.
use ikigai_core.Prelude.{
  ℕ, Str, ◌==◌, nat_eq, list_eq, Bool, true, false, ◌&&◌, Option, none, some, if◌then◌else◌,
  wrapping_add, is_some,
}
use ikigai_core.Repr.{
  Provenance, Stale, OriginValidator, Representation, origin_validator, copied, share, into_body,
}
use ikigai_core.Repr.Content.{Body, as_bytes}
use ikigai_core.Repr.Lifetime.{Expiry, always, at, never}
use ikigai_core.Cache.Entry.{key_eq, Slot}

-- A handle on a pool of bytes, by what is left of it.
pub record MemoryBudget : Type 0 where
  pub remaining : ℕ

pub data Answer : Type 0 where
  body : Representation Body → Answer
  streamed : Representation Body → MemoryBudget → Answer
  buffer : Representation Str → Answer

-- `Answer::into_body`
unfoldable pub answer_body : Answer → Representation Body
unfolding into_body
answer_body (body r) = r
answer_body (streamed r _) = r
answer_body (buffer r) = into_body r

-- `Answer::budgeted`
unfoldable pub budgeted : Answer → Option MemoryBudget → Answer
unfolding as_bytes
budgeted (body r) pool =
    if is_some (as_bytes r.content)
    then body r
    else elim pool [ none ↦ body r | some p ↦ streamed r p ]
budgeted other pool = other

pub record Offer : Type 0 where
  pub stale : Stale
  pub stored : Representation Body
  pub stored_tick : ℕ

pub data Served (T : Type 0) : Type 0 where
  hit : T → Served T
  offered : Offer → Served T
  miss : Served T

-- `entry.incoming.as_ref() == incoming`, by the fields of a provenance
abbrev expiry_beq : Expiry → Expiry → Bool
expiry_beq always always = true
expiry_beq (at a) (at b) = a == b
expiry_beq never never = true
expiry_beq _ _ = false

abbrev pub provenance_beq : Option Provenance → Option Provenance → Bool
provenance_beq none none = true
provenance_beq (some a) (some b) = expiry_beq a.expiry b.expiry && a.threads == b.threads
provenance_beq _ _ = false

abbrev pub touch : ℕ → Slot → Slot
touch tick entry = record entry { hits = wrapping_add entry.hits 1; last_used_tick = tick }

-- The face of `lookup`.
unfoldable pub answer_face : Bool → Option Provenance → Slot → Option Answer
unfolding copied share
answer_face as_buffer incoming entry =
    if provenance_beq entry.incoming incoming
    then (let shared : Option Answer = elim (share entry.representation) [
      | none ↦ none
      | some r ↦ some (body r)
    ] in
        (if as_buffer
          then elim (copied entry.representation) [ none ↦ shared | some r ↦ some (buffer r) ]
          else shared))
    else none

make_offer : ℕ → Representation Body → Option OriginValidator → Option Offer
make_offer tick stored none = none
make_offer tick stored (some v) = some (record {
  stale = record { validator = v; repr_type = stored.repr_type };
  stored = stored;
  stored_tick = tick;
})

-- The offer of `lookup`.
unfoldable pub offer_face : Bool → Option Provenance → Slot → Option Offer
unfolding share origin_validator make_offer
offer_face offering incoming entry =
    if offering && provenance_beq entry.incoming incoming
    then elim (share entry.representation) [
      | none ↦ none
      | some stored ↦ make_offer entry.stored_tick stored (origin_validator stored)
    ]
    else none
