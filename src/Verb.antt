-- ===== src/Verb.antt =====
-- crates/ikigai-core/src/verb.rs: the verbs of a request.
use ikigai_core.Prelude.{ℕ, nat_eq, list_eq, option_eq, Bool, true, false}

pub data Verb : Type 0 where
  source : Verb
  sink : Verb
  exists : Verb
  delete : Verb
  meta : Verb

unfoldable pub is_cacheable : Verb → Bool
is_cacheable source = true
is_cacheable exists = true
is_cacheable meta = true
is_cacheable _ = false

unfoldable pub is_mutating : Verb → Bool
is_mutating sink = true
is_mutating delete = true
is_mutating _ = false

unfoldable pub is_idempotent : Verb → Bool
is_idempotent sink = false
is_idempotent _ = true

unfoldable pub code : Verb → ℕ
code source = 1
code sink = 2
code exists = 3
code delete = 4
code meta = 5
