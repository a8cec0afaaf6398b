-- ===== src/Repr/Content.antt =====
-- crates/ikigai-core/src/body.rs: the body of a representation.
use ikigai_core.Prelude.{arith, ◌≡◌, ℕ, Str, Bool, true, false, List, Option, none, some, length}

-- A stream is the chunks that it yields. Nothing modelled here reads one.
abbrev pub ByteStream : Type 0
ByteStream = List Str

-- `dyn Replay`: what its methods answer.
pub record Replay : Type 0 where
  pub open_stream : ByteStream
  pub len_hint : Option ℕ
  pub validator : Option Str

pub data Body : Type 0 where
  bytes : Str → Body
  replay : Replay → Body
  once : ByteStream → Body

unfoldable pub len_hint : Body → Option ℕ
len_hint (bytes b) = some (length b)
len_hint (replay r) = r.len_hint
len_hint (once s) = none

unfoldable pub is_one_shot : Body → Bool
is_one_shot (once s) = true
is_one_shot _ = false

unfoldable pub as_bytes : Body → Option Str
as_bytes (bytes b) = some b
as_bytes _ = none

-- `Body::share`
unfoldable pub share_body : Body → Option Body
share_body (bytes b) = some (bytes b)
share_body (replay r) = some (replay r)
share_body (once s) = none

-- A second handle is the same body.
pub share_body-eq : (b b' : Body) → share_body b ≡ some b' → b' ≡ b
unfolding share_body
share_body-eq (bytes x) b' e = ground arith
share_body-eq (replay x) b' e = ground arith
share_body-eq (once x) b' e = ground arith
