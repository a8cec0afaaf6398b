-- ===== src/Content/Delivery.antt =====
-- crates/ikigai-core/src/content_store.rs: `put_for` and then `get_for`.
use ikigai_core.Prelude.{
  none, ℕ, suc, ◌<◌, ◌≡◌, Str, list_eq, nat_eq, List, Option, some, length, u64_mod, u64_max,
}
use ikigai_core.HashMap
use ikigai_core.Repr.Content.{bytes, replay, once, Body}
use ikigai_core.Capability.Ops
use ikigai_core.Capability.Ops.{Capability}
use ikigai_core.Content
use ikigai_core.Content.{ContentId, holder_eq}
use ikigai_core.Content.Histories.{World, Call, run}

-- What is read behind a delivery: the body that was held before, if there was one.
abbrev pub body_for : Str → Option Body → Body
body_for b none = bytes b
body_for b (some body) = body

-- The bytes that were delivered, or a body to be read again that states their digest.
abbrev pub IsDelivery : (Str → ContentId) → Str → Body → Type 0
IsDelivery digest b (bytes x) = x ≡ b
IsDelivery digest b (replay r) = r.validator ≡ some (digest b)
IsDelivery digest b (once s) = ⊥

module _ (digest : Str → ContentId) (oxiri : Str → Option Str) (max_bytes : ℕ) (past : List Call)
    (bound : max_bytes < u64_max) (fits : suc (length past) < u64_mod) where
  abbrev after : World
  after = run digest oxiri max_bytes past
