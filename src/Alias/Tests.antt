-- ===== src/Alias/Tests.antt =====
-- crates/ikigai-core/src/alias.rs: tables at concrete names.
use ikigai_core.Prelude.{
  ℕ, zero, suc, ◌+◌, ◌-◌, ◌*◌, ◌/◌, ◌%◌, ◌^◌, ◌≤◌, ◌<◌, min, max, Str, codes, Eq, ◌==◌, nat_eq,
  list_eq, option_eq, eq_cases, eq_refl, eq→≡, ≡→eq, ◌≡◌, refl, sym, ap, ◌∙◌, ◌≢◌, ◌↔◌, ◌⊎◌, inl,
  inr, Bool, true, false, not, ◌&&◌, ◌||◌, List, [], ◌∷◌, ◌++◌, map, reverse, Option, none, some,
  Result, ok, err, ltb, leb, any, all, All, keep, length, starts_with, strip_prefix, is_some,
  is_none, if◌then◌else◌, arith, Bool-cases, Option-cases, str_cmp, str_cmp_eq, str_cmp_refl,
}
use Prim.Native.Nat.{Ordering}
use ikigai_core.Prelude.{get_elem?, u64_mod}
use ikigai_core.Alias.Table.{
  RuleKind, exact_name, namespace, child, AliasRule, AliasTable, new, rule_at, with_max_hops, step,
  apply, precedence, insert, plain_request,
}
use ikigai_core.Alias.Walk.{AliasHop, direct, aliased, refused, too_long, preview, canonicalize}
use ikigai_core.Alias.Chain.{Chained, preview-eq-aliased, preview-canonical}
use ikigai_core.Alias.Counters.{counted, canonicalize-counts}
use ikigai_core.Alias.Order.{IsSorted, insert-IsSorted, step-first}

-- A parser that takes every text.
abbrev lenient : Str → Option Str
lenient s = none

abbrev one_rule : RuleKind → Str → Str → AliasRule
one_rule kind from to = record {
  kind = kind;
  from = from;
  to = to;
  at = child;
  request = plain_request;
  hops = 0;
  unresolved = 0;
  refused = 0;
}

-- `a:x` goes to `c:`, and the rest of `a:` to `b:`.
abbrev table : AliasTable
table = record {
  rules =
      one_rule exact_name (codes "a:x") (codes "c:")
      ∷ one_rule namespace (codes "a:") (codes "b:")
      ∷ [];
  max_hops = 8;
}

table_built :
    rule_at
      (rule_at new namespace (codes "a:") (codes "b:") child)
      exact_name
      (codes "a:x")
      (codes "c:")
      child
    ≡ table
unfolding rule_at
table_built = refl

abbrev hop : AliasHop
hop = record { logical = codes "a:y"; canonical = codes "b:y"; rules = 1 ∷ [] }

walked : preview lenient table (codes "a:y") ≡ aliased hop
unfolding preview ikigai_core.Prelude.list_beq
walked = refl

stepped : step lenient table (codes "a:x") ≡ some (0, codes "c:")
unfolding step ikigai_core.Prelude.list_beq
stepped = refl

-- A chain of as many rewrites as the budget is refused, so that a budget of one refuses each.
refused_at_once :
    preview lenient (with_max_hops table 1) (codes "a:y")
    ≡ refused (record {
      logical = codes "a:y";
      reason = too_long 1;
      trail = codes "a:y" ∷ codes "b:y" ∷ [];
      rules = 1 ∷ [];
    })
unfolding preview with_max_hops ikigai_core.Prelude.list_beq
refused_at_once = refl

reserved : preview lenient table (codes "URN:kernel:cut") ≡ direct
unfolding preview
reserved = refl

preview-eq-aliased_example :
    (preview lenient table (codes "a:y") ≡ aliased hop) ↔ Chained lenient table (codes "a:y") hop
preview-eq-aliased_example = preview-eq-aliased lenient table (codes "a:y") hop

preview-canonical_example : preview lenient table (codes "b:y") ≡ direct
preview-canonical_example = preview-canonical lenient table (codes "a:y") hop walked

canonicalize-counts_example :
    ((canonicalize lenient table (codes "a:y")).0 ≡ preview lenient table (codes "a:y"))
    × (get_elem? (canonicalize lenient table (codes "a:y")).1.rules 1
        ≡ some (
            counted
              (preview lenient table (codes "a:y"))
              1
              (one_rule namespace (codes "a:") (codes "b:"))))
canonicalize-counts_example =
    canonicalize-counts lenient table (codes "a:y") 1 (one_rule namespace (codes "a:") (codes "b:"))
      (omega arith) (omega arith) refl

table-IsSorted : IsSorted table.rules
unfolding precedence
table-IsSorted = ((λ h. ground arith, tt), (tt, tt))

insert-IsSorted_example :
    IsSorted (insert table (one_rule exact_name (codes "a:") (codes "d:"))).rules
insert-IsSorted_example =
    insert-IsSorted table (one_rule exact_name (codes "a:") (codes "d:")) table-IsSorted

broad_matches :
    is_some (apply lenient (one_rule namespace (codes "a:") (codes "b:")) (codes "a:x")) ≡ true
unfolding apply
broad_matches = refl

step-first_example :
    (apply lenient (one_rule exact_name (codes "a:x") (codes "c:")) (codes "a:x")
      ≡ some (codes "c:"))
    × (precedence
          (one_rule namespace (codes "a:") (codes "b:"))
          (one_rule exact_name (codes "a:x") (codes "c:"))
        ≢ Ordering.lt)
step-first_example =
    step-first lenient (codes "a:x") table 0 1 (codes "c:")
      (one_rule exact_name (codes "a:x") (codes "c:"))
      (one_rule namespace (codes "a:") (codes "b:")) table-IsSorted stepped refl refl broad_matches
