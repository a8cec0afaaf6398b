-- ===== src/Alias/Table.antt =====
-- crates/ikigai-core/src/alias.rs: the rules of an `AliasTable`, their order, and one rewrite. Texts
-- are lists of characters, as in the grammars. The inputs that a named request declares are left
-- out: no rewrite reads them.
use ikigai_core.Prelude.{
  ℕ, ◌+◌, max, Str, codes, ◌==◌, nat_eq, list_eq, option_eq, List, [], ◌∷◌, ◌++◌, Option, none,
  some, ok, err, length, strip_prefix, if◌then◌else◌, str_cmp,
}
use Prim.Native.Nat.{compare, Ordering}
use mathlib.Core.Option
use ikigai_core.Capability.Principal.{parse_iri}
use ikigai_core.Verb.{Verb}
use ikigai_core.Grammar.Bindings
use ikigai_core.Grammar.Bindings.{Bindings}
use ikigai_core.Grammar.Template.{
  UriTemplate, variables, expand, MatchKind, exact, prefix, template, custom, utf8,
}
use ikigai_core.Grammar.Search.{match_with_empty, match_str}

abbrev pub default_max_hops : ℕ
default_max_hops = 8

pub data RuleKind : Type 0 where
  exact_name : RuleKind
  namespace : RuleKind

pub data ResolveAt : Type 0 where
  child : ResolveAt
  root_chain : ResolveAt

pub data FixedValue : Type 0 where
  value : Str → FixedValue
  reference : Str → FixedValue
  reference_template : UriTemplate → FixedValue
  capture : Str → FixedValue

pub record FixedArgument : Type 0 where
  pub name : Str
  pub given : FixedValue

pub record RequestPart : Type 0 where
  pub logical_template : Option UriTemplate
  pub target : Option UriTemplate
  pub verb : Option Verb
  pub fixes : List FixedArgument

pub record AliasRule : Type 0 where
  pub kind : RuleKind
  pub from : Str
  pub to : Str
  pub at : ResolveAt
  pub request : RequestPart
  pub hops : ℕ
  pub unresolved : ℕ
  pub refused : ℕ

pub record AliasTable : Type 0 where
  pub rules : List AliasRule
  pub max_hops : ℕ

abbrev pub plain_request : RequestPart
plain_request = record { logical_template = none; target = none; verb = none; fixes = [] }

unfoldable pub match_kind : AliasRule → MatchKind
match_kind r = elim (r.request.logical_template) [
  | some t ↦ template
  | none ↦ elim (r.kind) [ exact_name ↦ exact | namespace ↦ prefix ]
]

-- `MatchKind::keyword`
unfoldable pub keyword : MatchKind → Str
keyword exact = codes "exact"
keyword template = codes "template"
keyword prefix = codes "prefix"
keyword custom = codes "custom"

-- The variables of the reference templates among the fixed arguments.
unfoldable pub empty_names : List FixedArgument → List Str
unfolding variables
empty_names [] = []
empty_names (a ∷ l) = elim (a.given) [
  | reference_template t ↦ variables t.parts ++ empty_names l
  | _ ↦ empty_names l
]

module _ (oxiri : Str → Option Str) where
  -- What the template of a named request captures: strictly first, then with empty values.
  unfoldable pub captures : UriTemplate → List FixedArgument → Str → Option Bindings
  unfolding parse_iri match_str match_with_empty empty_names
  captures t fixes target = elim (parse_iri oxiri target) [
    | err _ ↦ none
    | ok iri ↦ elim (match_str t iri.as_str) [
      | some b ↦ some b
      | none ↦ elim (empty_names fixes) [
        | [] ↦ none
        | n ∷ names ↦ match_with_empty t target (n ∷ names)
      ]
    ]
  ]

  unfoldable pub apply_capturing : AliasRule → Str → Option (Str × Bindings)
  unfolding captures expand strip_prefix
  apply_capturing r name = elim (r.request.logical_template) [
    | some t ↦ elim (captures t r.request.fixes name) [
      | none ↦ none
      | some b ↦ elim (r.request.target) [
        | some to ↦ Option.map (λ next. (next, b)) (expand to b)
        | none ↦ some (r.to, b)
      ]
    ]
    | none ↦ elim (r.kind) [
      | exact_name ↦ if name == r.from then some (r.to, Bindings.new) else none
      | namespace ↦ Option.map (λ rest. (r.to ++ rest, Bindings.new)) (strip_prefix r.from name)
    ]
  ]

  unfoldable pub apply : AliasRule → Str → Option Str
  unfolding apply_capturing
  apply r name = Option.map (λ p. p.0) (apply_capturing r name)

  -- `find_map` over the rules with their indices, from `i` on.
  unfoldable pub step_from : ℕ → List AliasRule → Str → Option (ℕ × Str)
  unfolding apply
  step_from i [] name = none
  step_from i (r ∷ rules) name = elim (apply r name) [
    | some next ↦ some (i, next)
    | none ↦ step_from (i + 1) rules name
  ]

  unfoldable pub step : AliasTable → Str → Option (ℕ × Str)
  unfolding step_from
  step t name = step_from 0 t.rules name

unfoldable pub then_with : Ordering → Ordering → Ordering
then_with Ordering.lt next = Ordering.lt
then_with Ordering.eq next = next
then_with Ordering.gt next = Ordering.gt

-- The order of the rules: the longest `from` first, then by the kind's keyword, then by `from`.
unfoldable pub precedence : AliasRule → AliasRule → Ordering
unfolding match_kind keyword utf8 then_with str_cmp
precedence a b =
    then_with (compare (length (utf8 b.from)) (length (utf8 a.from))) (
      then_with (str_cmp (keyword (match_kind a)) (keyword (match_kind b))) (str_cmp a.from b.from))

-- `sort_by` is stable, and the rules before the new one are sorted: it goes behind all that do not
-- come after it.
unfoldable pub insert_sorted : AliasRule → List AliasRule → List AliasRule
unfolding precedence
insert_sorted r [] = r ∷ []
insert_sorted r (s ∷ rules) = elim (precedence r s) [
  | Ordering.lt ↦ r ∷ s ∷ rules
  | _ ↦ s ∷ insert_sorted r rules
]

unfoldable pub insert : AliasTable → AliasRule → AliasTable
unfolding insert_sorted
insert t r = record t { rules = insert_sorted r t.rules }

abbrev pub new : AliasTable
new = record { rules = []; max_hops = default_max_hops }

unfoldable pub rule_at : AliasTable → RuleKind → Str → Str → ResolveAt → AliasTable
unfolding insert
rule_at t kind from to at = insert t record {
  kind = kind;
  from = from;
  to = to;
  at = at;
  request = plain_request;
  hops = 0;
  unresolved = 0;
  refused = 0;
}

unfoldable pub with_max_hops : AliasTable → ℕ → AliasTable
with_max_hops t hops = record t { max_hops = max hops 1 }
