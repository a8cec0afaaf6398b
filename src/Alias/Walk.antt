-- ===== src/Alias/Walk.antt =====
-- crates/ikigai-core/src/alias.rs: the walk of a chain of rewrites, and what it counts.
use ikigai_core.Prelude.{
  ℕ, zero, suc, ◌+◌, Str, codes, ◌==◌, nat_eq, list_eq, option_eq, Bool, true, false, ◌&&◌, List,
  [], ◌∷◌, ◌++◌, Option, none, some, ok, err, any, if◌then◌else◌,
}
use ikigai_core.Prelude.{wrapping_add}
use ikigai_core.Capability.Principal.{parse_iri}
use ikigai_core.Alias.Table.{AliasRule, AliasTable, step}
use ikigai_core.Grammar.Template.{is_ascii_uppercase}

pub record AliasHop : Type 0 where
  pub logical : Str
  pub canonical : Str
  pub rules : List ℕ

-- Why a walk stopped. The code has it as a text.
pub data Reason : Type 0 where
  not_an_iri : Str → Reason
  cycle : Reason
  too_long : ℕ → Reason

pub record AliasRefusal : Type 0 where
  pub logical : Str
  pub reason : Reason
  pub trail : List Str
  pub rules : List ℕ

pub data Canonical : Type 0 where
  direct : Canonical
  aliased : AliasHop → Canonical
  refused : AliasRefusal → Canonical

unfoldable pub hop_of : Canonical → Option AliasHop
hop_of (aliased hop) = some hop
hop_of _ = none

-- `eq_ignore_ascii_case` on a character.
abbrev pub to_ascii_lowercase : ℕ → ℕ
to_ascii_lowercase c = if is_ascii_uppercase c then c + 32 else c

-- The rest of a text behind a prefix in either case. A prefix of ASCII has a byte for each
-- character.
unfoldable pub strip_ignoring_case : Str → Str → Option Str
strip_ignoring_case [] s = some s
strip_ignoring_case (p ∷ ps) [] = none
strip_ignoring_case (p ∷ ps) (c ∷ s) =
    let rest = strip_ignoring_case ps s in
    if to_ascii_lowercase c == to_ascii_lowercase p then rest else none

abbrev pub kernel_ns : Str
kernel_ns = codes "urn:kernel:"

unfoldable pub kernel_op : Str → Option Str
unfolding strip_ignoring_case
kernel_op target = strip_ignoring_case kernel_ns target

abbrev pub contains_text : List Str → Str → Bool
contains_text seen name = any (λ s. s == name) seen

abbrev pub is_empty_list {ℓ} : {A : Type ℓ} → List A → Bool
is_empty_list [] = true
is_empty_list (x ∷ l) = false

abbrev pub refuse : Str → Reason → List Str → List ℕ → Canonical
refuse target reason trail applied =
    refused (record { logical = target; reason = reason; trail = trail; rules = applied })

module _ (oxiri : Str → Option Str) (t : AliasTable) (target : Str) where
  -- Where no rule matches any more.
  unfoldable pub terminated : Str → List ℕ → Canonical
  terminated current applied =
      if is_empty_list applied
      then direct
      else aliased (record { logical = target; canonical = current; rules = applied })

  -- The rounds that are left of the loop over `0..max_hops`.
  unfoldable pub walk_from : ℕ → Str → List Str → List ℕ → Canonical
  unfolding step parse_iri terminated
  walk_from zero current trail applied = refuse target (too_long t.max_hops) trail applied
  walk_from (suc left) current trail applied = elim (step oxiri t current) [
    | none ↦ terminated current applied
    | some (index, next) ↦ elim (parse_iri oxiri next) [
      | err _ ↦ refuse target (not_an_iri next) trail (applied ++ (index ∷ []))
      | ok iri ↦ elim (contains_text trail iri.as_str) [
        | true ↦ refuse target cycle (trail ++ (iri.as_str ∷ [])) (applied ++ (index ∷ []))
        | false ↦ walk_from left iri.as_str (trail ++ (iri.as_str ∷ [])) (applied ++ (index ∷ []))
      ]
    ]
  ]

  unfoldable pub preview : Canonical
  unfolding walk_from kernel_op
  preview = elim (kernel_op target) [
    | some op ↦ direct
    | none ↦ walk_from t.max_hops target (target ∷ []) []
  ]

-- A counter of one rule, by its index.
unfoldable pub bump : (AliasRule → AliasRule) → ℕ → List AliasRule → List AliasRule
bump count i [] = []
bump count zero (r ∷ rules) = count r ∷ rules
bump count (suc i) (r ∷ rules) = r ∷ bump count i rules

unfoldable pub bump_all : (AliasRule → AliasRule) → List ℕ → AliasTable → AliasTable
unfolding bump
bump_all count [] t = t
bump_all count (i ∷ indices) t = bump_all count indices (record t { rules = bump count i t.rules })

-- `fetch_add` wraps.
abbrev pub count_hop : AliasRule → AliasRule
count_hop r = record r { hops = wrapping_add r.hops 1 }

abbrev pub count_refused : AliasRule → AliasRule
count_refused r = record r { refused = wrapping_add r.refused 1 }

abbrev pub count_unresolved : AliasRule → AliasRule
count_unresolved r = record r { unresolved = wrapping_add r.unresolved 1 }

-- What a recorded walk counts.
unfoldable pub count_walk : Canonical → AliasTable → AliasTable
unfolding bump_all
count_walk direct t = t
count_walk (aliased hop) t = bump_all count_hop hop.rules t
count_walk (refused r) t = bump_all count_refused r.rules t

module _ (oxiri : Str → Option Str) where
  unfoldable pub canonicalize : AliasTable → Str → Canonical × AliasTable
  unfolding preview count_walk
  canonicalize t target = let c = preview oxiri t target in (c, count_walk c t)

  abbrev pub hop_eq : AliasHop → AliasHop → Bool
  hop_eq a b = a.logical == b.logical && a.canonical == b.canonical && a.rules == b.rules

  unfoldable pub record_unresolved : AliasTable → AliasHop → AliasTable
  unfolding preview hop_of bump_all
  record_unresolved t hop = elim (hop_of (preview oxiri t hop.logical)) [
    | none ↦ t
    | some walked ↦ if hop_eq walked hop then bump_all count_unresolved hop.rules t else t
  ]
