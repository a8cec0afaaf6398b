-- ===== src/Run/Tests.antt =====
-- crates/ikigai-core/src/run.rs: budgets as a door makes them.
use ikigai_core.Run.Admitted.{admitted_again}
use ikigai_core.Run.Contexts.{admitted, IssueContext}
use ikigai_core.Capability.WellFormed.{scoped-IsWellFormed}
use ikigai_core.Run.Attenuating.{for_capability-attenuate}
use ikigai_core.Capability.Ops.{root_capability, attenuate, scoped}
use ikigai_core.Run.Limits.{
  default_spill, spill_for, default_memory, memory_for, limits, retries_for,
}
use ikigai_core.Run.Taking.{Outcome, IsU64}
use ikigai_core.Run.Narrowed.{try_take-remaining, IsOrdered}
use ikigai_core.Run.Accounts.{run-limits, IsWord}
use ikigai_core.Run.Totals.{total}
use ikigai_core.Prelude.{
  ℕ, zero, suc, ◌+◌, ◌-◌, ◌*◌, ◌/◌, ◌%◌, ◌^◌, ◌≤◌, ◌<◌, min, max, Str, codes, Eq, ◌==◌, nat_eq,
  list_eq, option_eq, eq_cases, eq_refl, eq→≡, ≡→eq, ◌≡◌, refl, sym, ap, ◌∙◌, ◌≢◌, ◌↔◌, ◌⊎◌, inl,
  inr, Bool, true, false, not, ◌&&◌, ◌||◌, List, [], ◌∷◌, ◌++◌, map, reverse, Option, none, some,
  Result, ok, err, ltb, leb, any, all, All, keep, length, starts_with, strip_prefix, is_some,
  is_none, if◌then◌else◌, arith, Bool-cases, Option-cases, str_cmp, str_cmp_eq, str_cmp_refl,
}
use ikigai_core.Run.Budgets.{
  step, Call, open_pool, narrow_at, draw_at, reserve_at, grow_at, shrink_at, spend_at, keep_at,
  drop_at, run,
}
use ikigai_core.Run.Pools.{Left, Cells, Pool, minted, child, narrowed, try_take, remaining}

-- A parser that wants a colon.
abbrev parser : Str → Option Str
parser s = if any (λ c. c == 0x3a) s then none else some (codes "no scheme")

abbrev grants : List Str
grants =
    codes "urn:cap:retry:2"
    ∷ codes "urn:cap:retry:9"
    ∷ codes "urn:cap:stream:memory:65536"
    ∷ codes "urn:cap:retry:+x"
    ∷ []

abbrev asked : List Str
asked = codes "urn:cap:retry:2" ∷ codes "urn:cap:retry:7" ∷ []

-- The largest grant held counts, up to the ceiling.
entitled_to :
    (retries_for parser (limits 0 30) (scoped grants) ≡ 9)
    × (retries_for parser (limits 0 3) (scoped grants) ≡ 3)
    × (retries_for parser (limits 5 3) (scoped []) ≡ 3)
    × (memory_for parser (limits 1024 1048576) (scoped grants) ≡ 65536)
    × (memory_for parser default_memory (scoped []) ≡ 67108864)
    × (spill_for parser default_spill root_capability ≡ 1073741824)
unfolding retries_for scoped str_cmp ikigai_core.Prelude.list_beq
    ikigai_core.Capability.Scope.is_deny_scope ikigai_core.Capability.Principal.principal_in
    memory_for spill_for
entitled_to = (refl, refl, refl, refl, refl, refl)

-- What was asked for and not held is not gained.
narrowed_to : retries_for parser (limits 0 30) (attenuate parser (scoped grants) asked) ≡ 2
unfolding retries_for attenuate scoped str_cmp ikigai_core.Capability.Scope.is_deny_scope
    ikigai_core.Capability.Principal.principal_in ikigai_core.Prelude.list_beq
narrowed_to = refl

for_capability-attenuate_example :
    (retries_for parser (limits 0 30) (attenuate parser (scoped grants) asked)
      ≤ retries_for parser (limits 0 30) (scoped grants))
    × (memory_for parser default_memory (attenuate parser (scoped grants) asked)
        ≤ memory_for parser default_memory (scoped grants))
    × (spill_for parser default_spill (attenuate parser (scoped grants) asked)
        ≤ spill_for parser default_spill (scoped grants))
for_capability-attenuate_example =
    for_capability-attenuate parser (limits 0 30) default_memory default_spill (scoped grants) asked
      (scoped-IsWellFormed grants)

abbrev five_left : Left
five_left cell = 5

abbrev run_pool : Pool
run_pool = minted 0

abbrev step_pool : Pool
step_pool = child 1 run_pool

five_left-IsU64 : IsU64 five_left
five_left-IsU64 c = omega arith

step_pool-IsOrdered : IsOrdered step_pool
step_pool-IsOrdered = (omega arith, tt)

try_take-remaining_example :
    ((try_take five_left step_pool 3).1 ≡ leb 3 (remaining five_left step_pool))
    × Outcome five_left five_left 3 step_pool (try_take five_left step_pool 3)
try_take-remaining_example =
    try_take-remaining five_left step_pool 3 five_left-IsU64 step_pool-IsOrdered (omega arith)

abbrev made : Cells
made = record { next = 1; left = five_left }

narrowed_to_two : remaining (narrowed made run_pool 2).0.left (narrowed made run_pool 2).1 ≡ 2
unfolding narrowed remaining
narrowed_to_two = refl

-- Newest first: a pool of ten, a view of four, and what is held, grown, let go and given back.
abbrev calls : List Call
calls =
    drop_at 0
    ∷ reserve_at 0 1
    ∷ reserve_at 0 3
    ∷ keep_at 0
    ∷ shrink_at 0 1
    ∷ grow_at 0 2
    ∷ reserve_at 0 1
    ∷ draw_at 1 3
    ∷ spend_at 1
    ∷ narrow_at 0 4
    ∷ open_pool 10
    ∷ []

left_after : ((run calls).cells.left 0 ≡ 4) × ((run calls).cells.left 1 ≡ 2)
unfolding run step
left_after = (refl, refl)

calls_words : All IsWord calls
calls_words = (tt, (tt, (tt, (tt, (tt, (tt, (tt, (tt, (tt, (omega arith, (omega arith, tt)))))))))))

run-limits_example :
    (run calls).cells.left 1 + (total (run calls).live 1 + total (run calls).gone 1)
    ≡ (run calls).limits 1
run-limits_example = run-limits calls 1 calls_words

-- A context under a door's limit of two retries and no limit of bytes.
abbrev door : IssueContext
door = record { retries = some run_pool; not_after = none; memory = none }

admitted_again_example :
    admitted parser
      (admitted parser made door (some (limits 0 3)) default_memory (scoped asked)).0
      (admitted parser made door (some (limits 0 3)) default_memory (scoped asked)).1
      (some (limits 0 3))
      default_memory
      (scoped asked)
    ≡ admitted parser made door (some (limits 0 3)) default_memory (scoped asked)
admitted_again_example =
    admitted_again parser made door (some (limits 0 3)) default_memory (scoped asked) (omega arith)
      tt
