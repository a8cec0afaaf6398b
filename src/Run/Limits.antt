-- ===== src/Run/Limits.antt =====
-- crates/ikigai-core/src/run.rs: what a capability is entitled to. `RetryLimits`, `MemoryLimits`
-- and `SpillLimits` have the same fields, and one record stands for them. The bound is the least
-- number that the machine's type does not hold.
use ikigai_core.Capability.Scope.{is_ascii_digit}
use ikigai_core.Capability.Ops.{scopes, Capability, allows}
use ikigai_core.Prelude.{
  ℕ, ◌+◌, ◌-◌, ◌*◌, ◌^◌, min, max, Str, codes, ◌==◌, nat_eq, list_eq, option_eq, ◌&&◌, List, [],
  ◌∷◌, Option, none, some, ltb, strip_prefix, if◌then◌else◌,
}

abbrev pub retry_family : Str
retry_family = codes "urn:cap:retry:*"

abbrev pub memory_family : Str
memory_family = codes "urn:cap:stream:memory:*"

abbrev pub spill_family : Str
spill_family = codes "urn:cap:stream:spill:*"

pub record Limits : Type 0 where
  pub base : ℕ
  pub ceiling : ℕ

-- `new`: a base above the ceiling is lowered to it.
abbrev pub limits : ℕ → ℕ → Limits
limits base ceiling = record { base = min base ceiling; ceiling = ceiling }

abbrev pub default_memory : Limits
default_memory = limits (64 * 1024 * 1024) (64 * 1024 * 1024)

abbrev pub default_spill : Limits
default_spill = limits 0 (1024 * 1024 * 1024)

-- `trim_end_matches` of one character.
unfoldable pub trim_end_matches : ℕ → Str → Str
trim_end_matches c [] = []
trim_end_matches c (x ∷ s) = elim (trim_end_matches c s) [
  | [] ↦ if x == c then [] else x ∷ []
  | y ∷ t ↦ x ∷ y ∷ t
]

-- The digits of `str::parse` for an unsigned number, each step checked against overflow.
unfoldable pub parse_digits : ℕ → ℕ → Str → Option ℕ
parse_digits bound read [] = some read
parse_digits bound read (c ∷ s) =
    let next = read * 10 + (c - 0x30) in
    let rest = parse_digits bound next s in
    if is_ascii_digit c && ltb next bound then rest else none

-- At least one digit.
unfoldable pub parse_some : ℕ → Str → Option ℕ
unfolding parse_digits
parse_some bound [] = none
parse_some bound (c ∷ s) = parse_digits bound 0 (c ∷ s)

-- A sign of plus is let through.
unfoldable pub parse_unsigned : ℕ → Str → Option ℕ
unfolding parse_some
parse_unsigned bound [] = none
parse_unsigned bound (c ∷ s) = if c == 0x2b then parse_some bound s else parse_some bound (c ∷ s)

-- `scope.strip_prefix(prefix)?.parse::<N>().ok()`
unfoldable pub grant_of : ℕ → Str → Str → Option ℕ
unfolding strip_prefix parse_unsigned
grant_of bound prefix scope = elim (strip_prefix prefix scope) [
  | none ↦ none
  | some number ↦ parse_unsigned bound number
]

-- `max().unwrap_or_default()`
abbrev pub largest : List ℕ → ℕ
largest [] = 0
largest (n ∷ ns) = max n (largest ns)

module _ (oxiri : Str → Option Str) (bound : ℕ) where
  unfoldable pub granted : Str → Capability → List Str → List ℕ
  unfolding allows grant_of
  granted prefix c [] = []
  granted prefix c (scope ∷ held) =
      let rest = granted prefix c held in
      if allows oxiri c scope
      then elim (grant_of bound prefix scope) [ none ↦ rest | some n ↦ n ∷ rest ]
      else rest

  unfoldable pub largest_grant : Capability → Str → Option ℕ
  unfolding scopes granted trim_end_matches
  largest_grant c family = elim (scopes c) [
    | none ↦ none
    | some held ↦ some (largest (granted (trim_end_matches 0x2a family) c held))
  ]

-- The rule of the three `for_capability`.
unfoldable pub entitled : Limits → Option ℕ → ℕ
entitled l none = l.ceiling
entitled l (some given) = min (max given l.base) l.ceiling

module _ (oxiri : Str → Option Str) where
  unfoldable pub retries_for : Limits → Capability → ℕ
  unfolding entitled largest_grant
  retries_for l c = entitled l (largest_grant oxiri (2 ^ 32) c retry_family)

  unfoldable pub memory_for : Limits → Capability → ℕ
  unfolding entitled largest_grant
  memory_for l c = entitled l (largest_grant oxiri (2 ^ 64) c memory_family)

  unfoldable pub spill_for : Limits → Capability → ℕ
  unfolding entitled largest_grant
  spill_for l c = entitled l (largest_grant oxiri (2 ^ 64) c spill_family)
