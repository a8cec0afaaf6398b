-- ===== src/Grammar/Tests.antt =====
-- crates/ikigai-core/src/grammar.rs: templates at concrete names.
use ikigai_core.Prelude.{
  ℕ, zero, suc, ◌+◌, ◌-◌, ◌*◌, ◌/◌, ◌%◌, ◌^◌, ◌≤◌, ◌<◌, min, max, Str, codes, Eq, ◌==◌, nat_eq,
  list_eq, option_eq, eq_cases, eq_refl, eq→≡, ≡→eq, ◌≡◌, refl, sym, ap, ◌∙◌, ◌≢◌, ◌↔◌, ◌⊎◌, inl,
  inr, Bool, true, false, not, ◌&&◌, ◌||◌, List, [], ◌∷◌, ◌++◌, map, reverse, Option, none, some,
  Result, ok, err, ltb, leb, any, all, All, keep, length, starts_with, strip_prefix, is_some,
  is_none, if◌then◌else◌, arith, Bool-cases, Option-cases, str_cmp, str_cmp_eq, str_cmp_refl,
}
use ikigai_core.Prelude.{
  ℕ, zero, suc, ◌+◌, ◌-◌, ◌*◌, ◌/◌, ◌%◌, ◌^◌, ◌≤◌, ◌<◌, min, max, Str, codes, Eq, ◌==◌, nat_eq,
  list_eq, option_eq, eq_cases, eq_refl, eq→≡, ≡→eq, ◌≡◌, refl, sym, ap, ◌∙◌, ◌≢◌, ◌↔◌, ◌⊎◌, inl,
  inr, Bool, true, false, not, ◌&&◌, ◌||◌, List, [], ◌∷◌, ◌++◌, map, reverse, Option, none, some,
  Result, ok, err, ltb, leb, any, all, All, keep, length, starts_with, strip_prefix, is_some,
  is_none, if◌then◌else◌, arith, Bool-cases, Option-cases, str_cmp, str_cmp_eq, str_cmp_refl,
}
use mathlib.Core.Option
use ikigai_core.Grammar.Bindings
use ikigai_core.Grammar.Bindings.{Bindings}
use ikigai_core.Grammar.Template.{
  lit, var, UriTemplate, unclosed, adjacent, parse, expand, variables,
}
use ikigai_core.Grammar.Search.{match_with_empty, match_str, bind_all}
use ikigai_core.Grammar.Reference.{plain}
use ikigai_core.Grammar.Parsing.{IsTemplate, parse-eq-ok}
use ikigai_core.Grammar.Expansion.{
  Distinct, AllFit, match_with_empty-first, expand-match_with_empty, match_with_empty-expand,
  Matched,
}
use ikigai_core.Grammar.Encoding.{encode_bytes-utf8, Encodes}

-- `{a}.{b}`
abbrev dotted : Str
dotted = codes "{a}.{b}"

abbrev dotted_template : UriTemplate
dotted_template = record {
  parts = var (codes "a") ∷ lit (codes ".") ∷ var (codes "b") ∷ [];
  source = codes "{a}.{b}";
}

abbrev dotted_bindings : Bindings
dotted_bindings = (codes "a", codes "1") ∷ (codes "b", codes "2.3") ∷ []

parse_dotted : parse dotted ≡ ok dotted_template
unfolding parse
parse_dotted = refl

parse_unclosed : parse (codes "a{b") ≡ err (unclosed (codes "a{b"))
unfolding parse
parse_unclosed = refl

parse_adjacent : parse (codes "{a}{b}") ≡ err (adjacent (codes "{a}{b}"))
unfolding parse
parse_adjacent = refl

match_dotted : match_str dotted_template (codes "1.2.3") ≡ some dotted_bindings
unfolding match_str Bindings.insert str_cmp
match_dotted = refl

match_empty_value : match_str dotted_template (codes ".2") ≡ none
unfolding match_str
match_empty_value = refl

-- A value that holds the separator, as the search backtracks.
match_backtracks :
    match_str
      (record { parts = var (codes "n") ∷ lit (codes ".j") ∷ []; source = codes "{n}.j" })
      (codes "v.j.j")
    ≡ some ((codes "n", codes "v.j") ∷ [])
unfolding match_str Bindings.insert
match_backtracks = refl

-- A variable that stands twice keeps its last value, and the text is not spelled again.
repeated_variable :
    match_str
      (record {
        parts = var (codes "a") ∷ lit (codes ":") ∷ var (codes "a") ∷ [];
        source = codes "{a}:{a}";
      })
      (codes "p:p:p:p")
    ≡ some ((codes "a", codes "p:p:p") ∷ [])
unfolding match_str Bindings.insert str_cmp
repeated_variable = refl

parse-eq-ok_example : (parse dotted ≡ ok dotted_template) ↔ IsTemplate dotted dotted_template
parse-eq-ok_example = parse-eq-ok dotted dotted_template

match_with_empty-first_example :
    match_with_empty dotted_template (codes "1.2.3") []
    ≡ Option.map
        (λ vs. bind_all (variables dotted_template.parts) vs Bindings.new)
        (plain [] dotted_template.parts (codes "1.2.3"))
match_with_empty-first_example =
    match_with_empty-first dotted dotted_template (codes "1.2.3") [] parse_dotted

match_dotted_strict : match_with_empty dotted_template (codes "1.2.3") [] ≡ some dotted_bindings
unfolding match_with_empty Bindings.insert str_cmp
match_dotted_strict = refl

abbrev later_bindings : Bindings
later_bindings = (codes "a", codes "1.2") ∷ (codes "b", codes "3") ∷ []

dotted_names : Distinct (variables dotted_template.parts)
unfolding variables ikigai_core.Prelude.list_beq
dotted_names = (refl, (refl, tt))

later_values : AllFit dotted dotted_template parse_dotted dotted_names [] later_bindings
unfolding variables Bindings.get ikigai_core.Prelude.list_beq
later_values = (codes "1.2" ∷ codes "3" ∷ [], refl, (refl, (refl, tt)))

later_text : expand dotted_template later_bindings ≡ some (codes "1.2.3")
unfolding expand Bindings.get ikigai_core.Prelude.list_beq
later_text = refl

expand-match_with_empty_example : expand dotted_template dotted_bindings ≡ some (codes "1.2.3")
expand-match_with_empty_example =
    expand-match_with_empty dotted dotted_template parse_dotted dotted_names [] (codes "1.2.3")
      dotted_bindings match_dotted_strict

match_with_empty-expand_example :
    Matched dotted dotted_template parse_dotted dotted_names [] (codes "1.2.3") later_bindings
match_with_empty-expand_example =
    match_with_empty-expand dotted dotted_template parse_dotted dotted_names [] (codes "1.2.3")
      later_bindings later_values later_text

encode_bytes-utf8_example : Encodes (codes "a/" ++ (0xfc ∷ []))
encode_bytes-utf8_example = encode_bytes-utf8 (codes "a/" ++ (0xfc ∷ [])) (omega arith)
