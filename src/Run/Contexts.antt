-- ===== src/Run/Contexts.antt =====
-- crates/ikigai-core/src/run.rs: `IssueContext`, without the body that is attached to it, which
-- these operations carry as it is.
use ikigai_core.Capability.Ops.{Capability}
use ikigai_core.Run.Limits.{Limits, memory_for, retries_for}
use ikigai_core.Repr.Lifetime.{Time}
use ikigai_core.Prelude.{ℕ, min, Str, nat_eq, list_eq, option_eq, Option, none, some}
use ikigai_core.Run.Pools.{Cells, Pool, narrowed, new_pool}

pub record IssueContext : Type 0 where
  pub retries : Option Pool
  pub not_after : Option Time
  pub memory : Option Pool

abbrev pub new_context : IssueContext
new_context = record { retries = none; not_after = none; memory = none }

unfoldable pub with_not_after : IssueContext → Time → IssueContext
with_not_after x deadline = record {
  retries = x.retries;
  not_after = some (elim x.not_after [ none ↦ deadline | some d ↦ min d deadline ]);
  memory = x.memory;
}

-- The pool there is, narrowed, or a new one.
unfoldable pub narrowed_or_new : Cells → Option Pool → ℕ → Cells × Pool
unfolding narrowed new_pool
narrowed_or_new s none amount = new_pool s amount
narrowed_or_new s (some p) amount = narrowed s p amount

unfoldable pub with_retry_limit : Cells → IssueContext → ℕ → Cells × IssueContext
unfolding narrowed_or_new
with_retry_limit s x retries =
    let (after, p) = narrowed_or_new s x.retries retries in
    (after, record { retries = some p; not_after = x.not_after; memory = x.memory })

unfoldable pub with_memory_limit : Cells → IssueContext → ℕ → Cells × IssueContext
unfolding narrowed_or_new
with_memory_limit s x bytes =
    let (after, p) = narrowed_or_new s x.memory bytes in
    (after, record { retries = x.retries; not_after = x.not_after; memory = some p })

module _ (oxiri : Str → Option Str) where
  -- The retries of `admitted`.
  unfoldable pub admit_retries :
      Cells → IssueContext → Option Limits → Capability → Cells × Option Pool
  unfolding narrowed_or_new retries_for
  admit_retries s x none c = (s, none)
  admit_retries s x (some l) c =
      let (after, p) = narrowed_or_new s x.retries (retries_for oxiri l c) in (after, some p)

  unfoldable pub admitted :
      Cells → IssueContext → Option Limits → Limits → Capability → Cells × IssueContext
  unfolding admit_retries memory_for
  admitted s x limits memory c =
      let (between, retries) = admit_retries s x limits c in
      let (after, p) = narrowed_or_new between x.memory (memory_for oxiri memory c) in
      (after, record { retries = retries; not_after = x.not_after; memory = some p })
