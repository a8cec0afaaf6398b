-- ===== src/Repr/Lifetime.antt =====
-- crates/ikigai-core/src/repr.rs: `Time` and `Expiry`.
use ikigai_core.Prelude.{ℕ, Bool, true, false, ◌&&◌, ◌≡◌, refl, min, ltb, saturating_add, arith}

-- Milliseconds.
abbrev pub Time : Type 0
Time = ℕ

unfoldable pub plus_millis : Time → ℕ → Time
plus_millis t millis = saturating_add t millis

pub data Expiry : Type 0 where
  always : Expiry
  at : Time → Expiry
  never : Expiry

unfoldable pub most_restrictive : Expiry → Expiry → Expiry
most_restrictive always _ = always
most_restrictive _ always = always
most_restrictive (at a) (at b) = at (min a b)
most_restrictive (at t) never = at t
most_restrictive never (at t) = at t
most_restrictive never never = never

-- Whether an answer with this expiry may be used again at a time.
abbrev pub reusable_at : Time → Expiry → Bool
reusable_at now always = false
reusable_at now (at deadline) = ltb now deadline
reusable_at now never = true

-- An answer with the stricter of two expiries may be reused at a time exactly when answers with
-- either of them may.
pub reusable-most_restrictive :
    (now : Time) (a b : Expiry)
    → reusable_at now (most_restrictive a b) ≡ (reusable_at now a && reusable_at now b)
unfolding most_restrictive
reusable-most_restrictive now always b = refl
reusable-most_restrictive now (at a) always = ground arith
reusable-most_restrictive now (at a) (at b) = ground arith
reusable-most_restrictive now (at a) never = ground arith
reusable-most_restrictive now never always = refl
reusable-most_restrictive now never (at b) = refl
reusable-most_restrictive now never never = refl

-- The stricter of two expiries does not depend on their order.
pub most_restrictive_comm : (a b : Expiry) → most_restrictive a b ≡ most_restrictive b a
unfolding most_restrictive
most_restrictive_comm always always = refl
most_restrictive_comm always (at b) = refl
most_restrictive_comm always never = refl
most_restrictive_comm (at a) always = refl
most_restrictive_comm (at a) (at b) = ground arith
most_restrictive_comm (at a) never = refl
most_restrictive_comm never always = refl
most_restrictive_comm never (at b) = refl
most_restrictive_comm never never = refl

-- The fold of expiries does not depend on how it is grouped.
pub most_restrictive_assoc :
    (a b c : Expiry)
    → most_restrictive (most_restrictive a b) c ≡ most_restrictive a (most_restrictive b c)
unfolding most_restrictive
most_restrictive_assoc always b c = refl
most_restrictive_assoc (at a) b c = ground arith
most_restrictive_assoc never b c = ground arith
