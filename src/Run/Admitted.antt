-- ===== src/Run/Admitted.antt =====
-- crates/ikigai-core/src/run.rs: a context that is admitted again.
use ikigai_core.Capability.Ops.{Capability}
use ikigai_core.Run.Limits.{retries_for, memory_for, Limits}
use ikigai_core.Run.Totals.{IsBelow-suc}
use ikigai_core.Run.Narrowed.{remaining-narrowed, IsBelow}
use ikigai_core.Run.Contexts.{IssueContext, admit_retries, admitted, narrowed_or_new}
use ikigai_core.Run.Narrowed.{least_from-set_left}
use ikigai_core.Prelude.{
  u64_max, le→leb, ℕ, ◌≤◌, Str, nat_eq, list_eq, option_eq, eq_refl, ◌≡◌, refl, ap, ◌∙◌, true,
  false, Option, none, some, leb, if◌then◌else◌, arith,
}
use ikigai_core.Run.Pools.{least_from, Cells, Pool, child, narrowed, new_pool, alloc, remaining}

-- A pool within an entitlement, whose cells exist.
abbrev IsWithin : ℕ → Cells × Pool → Type 0
IsWithin amount (s, p) = (remaining s.left p ≤ amount) × IsBelow s.next p

abbrev IsPlaced : Cells × Pool → Type 0
IsPlaced (s, p) = IsBelow s.next p

-- Another pool's making leaves this one within its entitlement.
abbrev Leaves : ℕ → Pool → Cells × Pool → Type 0
Leaves amount p (s, _) = IsWithin amount (s, p)

abbrev pub IsMade : Cells → Option Pool → Type 0
IsMade s none = Unit
IsMade s (some p) = IsBelow s.next p

narrowed_below :
    (s : Cells) (p : Pool) (limit : ℕ) → IsBelow s.next p → IsPlaced (narrowed s p limit)
unfolding narrowed alloc
narrowed_below s p limit b =
    elim (leb (remaining s.left p) limit)
      as (λ t. IsPlaced (if t then (s, p) else (alloc s limit, child s.next p))) [
        | true ↦ b
        | false ↦ (omega arith, IsBelow-suc s.next p b)
      ]

narrowed_or_new-IsWithin :
    (s : Cells) (o : Option Pool) (amount : ℕ)
    → IsMade s o
    → IsWithin amount (narrowed_or_new s o amount)
unfolding narrowed_or_new new_pool alloc remaining least_from
narrowed_or_new-IsWithin s none amount m = (ground (arith, eq_refl s.next), omega arith)
narrowed_or_new-IsWithin s (some p) amount m =
    let left = remaining-narrowed s p amount m in (omega arith, narrowed_below s p amount m)

-- A pool that is within its entitlement is handed back.
narrowed_again :
    (s : Cells) (p : Pool) (amount : ℕ) → remaining s.left p ≤ amount → narrowed s p amount ≡ (s, p)
unfolding narrowed
narrowed_again s p amount h = rw (le→leb (remaining s.left p) amount h) refl

-- What is left in a pool, and that its cells exist, outlives another pool's making.
IsWithin-narrowed_or_new :
    (s : Cells) (o : Option Pool) (amount entitled : ℕ) (p : Pool)
    → IsWithin entitled (s, p)
    → Leaves entitled p (narrowed_or_new s o amount)
unfolding narrowed_or_new new_pool narrowed alloc remaining
IsWithin-narrowed_or_new s none amount entitled p w =
    let same = least_from-set_left s.next amount s.left p u64_max w.1 in
    (omega (arith, same, w.0), IsBelow-suc s.next p w.1)
IsWithin-narrowed_or_new s (some q) amount entitled p w =
    elim (leb (least_from s.left q u64_max) amount)
      as (λ t. Leaves entitled p (if t then (s, q) else (alloc s amount, child s.next q))) [
        | true ↦ w
        | false ↦
            let same = least_from-set_left s.next amount s.left p u64_max w.1 in
            (omega (arith, same, w.0), IsBelow-suc s.next p w.1)
      ]

IsMade-narrowed_or_new :
    (s : Cells) (o a : Option Pool) (amount : ℕ)
    → IsMade s a
    → IsMade (narrowed_or_new s o amount).0 a
IsMade-narrowed_or_new s o none amount m = tt
IsMade-narrowed_or_new s o (some p) amount m =
    (IsWithin-narrowed_or_new s o amount (remaining s.left p) p (omega arith, m)).1

abbrev admitted_as : IssueContext → Cells → Option Pool → Pool → Cells × IssueContext
admitted_as x s retries p =
    (s, record { retries = retries; not_after = x.not_after; memory = some p })

module _ (oxiri : Str → Option Str) where
  -- Admitting an admitted context again, under the same policies and capability, hands back the
  -- same context and the same cells, when the pools it came with were made.
  pub admitted_again :
      (s : Cells) (x : IssueContext) (limits : Option Limits) (memory : Limits) (c : Capability)
      → IsMade s x.retries
      → IsMade s x.memory
      → admitted oxiri
          (admitted oxiri s x limits memory c).0
          (admitted oxiri s x limits memory c).1
          limits
          memory
          c
        ≡ admitted oxiri s x limits memory c
  unfolding admitted admit_retries
  admitted_again s x none memory c mr mm =
      let bytes = memory_for oxiri memory c in
      let (after, p) = narrowed_or_new s x.memory bytes in
      let within = narrowed_or_new-IsWithin s x.memory bytes mm in
      let again : narrowed_or_new after (some p) bytes ≡ (after, p) =
        unfold narrowed_or_new in narrowed_again after p bytes within.0 in
      ap (λ (r : Cells × Pool). admitted_as x r.0 none r.1) again
  admitted_again s x (some l) memory c mr mm =
      let retries = retries_for oxiri l c in
      let bytes = memory_for oxiri memory c in
      let (between, q) = narrowed_or_new s x.retries retries in
      let (after, p) = narrowed_or_new between x.memory bytes in
      let first = narrowed_or_new-IsWithin s x.retries retries mr in
      let kept = IsWithin-narrowed_or_new between x.memory bytes retries q first in
      let within =
        narrowed_or_new-IsWithin between x.memory bytes
          (IsMade-narrowed_or_new s x.retries x.memory retries mm) in
      let same_retries : narrowed_or_new after (some q) retries ≡ (after, q) =
        unfold narrowed_or_new in narrowed_again after q retries kept.0 in
      let same_memory : narrowed_or_new after (some p) bytes ≡ (after, p) =
        unfold narrowed_or_new in narrowed_again after p bytes within.0 in
      ap
        (λ (r : Cells × Pool).
          let (a, m) = narrowed_or_new r.0 (some p) bytes in admitted_as x a (some r.1) m)
        same_retries
      ∙ ap (λ (r : Cells × Pool). admitted_as x r.0 (some q) r.1) same_memory
