-- ===== src/Grammar/Expansion.antt =====
-- crates/ikigai-core/src/grammar.rs: matching a template against the texts that it expands to.
use ikigai_core.Grammar.Parsing.{IsTemplate, parse-eq-ok, Proper}
use ikigai_core.Prelude.{
  map-reverse_aux, Str, nat_eq, list_eq, option_eq, eq_refl, ◌≡◌, refl, sym, ap, ◌∙◌, inl, inr,
  Bool, false, List, [], ◌∷◌, ◌++◌, map, reverse, Option, none, some, ok, length, if◌then◌else◌,
  arith, Option-cases,
}
use ikigai_core.Prelude.{
  subst, Str, nat_eq, list_eq, option_eq, eq_refl, ◌≡◌, refl, sym, ap, ◌∙◌, inl, inr, Bool, false,
  List, [], ◌∷◌, ◌++◌, map, reverse, Option, none, some, length, if◌then◌else◌, arith, Option-cases,
}
use ikigai_core.Prelude.{
  Str, nat_eq, list_eq, option_eq, eq_refl, ◌≡◌, refl, sym, ap, ◌∙◌, inl, inr, Bool, false, List,
  [], ◌∷◌, ◌++◌, map, reverse, Option, none, some, length, if◌then◌else◌, arith, Option-cases,
}
use mathlib.Core.Option
use mathlib.Core.List.{append-nil, reverse_aux}
use ikigai_core.Grammar.Bindings
use ikigai_core.Grammar.Bindings.{Bindings, get-insert}
use ikigai_core.Grammar.Template.{
  parse, Part, lit, var, UriTemplate, variables, expand, expand_with,
}
use ikigai_core.Grammar.Search.{
  Search, slice, contains_name, match_from, match_with_empty, bind_all,
}
use ikigai_core.Grammar.Reference.{plain, spell, Fits, Before, plain-Spelled, plain-Reached}
use ikigai_core.Grammar.Agreement.{Answers}
use ikigai_core.Grammar.Matching.{Solid, match_from-Answers}

reverse_aux-reverse_aux {ℓ} :
    {A : Type ℓ} (xs ys zs : List A)
    → reverse_aux (reverse_aux xs ys) zs ≡ reverse_aux ys (xs ++ zs)
reverse_aux-reverse_aux [] ys zs = refl
reverse_aux-reverse_aux (x ∷ xs) ys zs = reverse_aux-reverse_aux xs (x ∷ ys) zs

module _ (t : UriTemplate) (input : Str) (empty : List Str) where
  start : Search
  start = record { captures = []; failed = [] }

  answer : Bool × Search → Option Bindings
  answer r =
      if r.0
      then some
          (bind_all (variables t.parts) (map (slice input) (reverse r.1.captures)) Bindings.new)
      else none

  answer_of :
      (o : Option (List Str)) (r : Bool × Search)
      → Answers input empty t.parts o start r
      → answer r ≡ Option.map (λ vs. bind_all (variables t.parts) vs Bindings.new) o
  unfolding start answer
  answer_of none r h = rw h.agrees.0
  answer_of (some vs) r h =
      let captured : map (slice input) (reverse r.1.captures) ≡ vs ++ [] =
        map-reverse_aux (slice input) r.1.captures []
        ∙ ap reverse h.agrees.1
        ∙ reverse_aux-reverse_aux vs [] [] in
      rw h.agrees.0
        (ap (λ ws. some (bind_all (variables t.parts) ws Bindings.new)) (captured ∙ append-nil vs))

  -- The search by positions, with its stack and its memory of failures, answers as the matcher
  -- that has none of them.
  pub match_with_empty-plain :
      Solid t.parts
      → match_with_empty t input empty
        ≡ Option.map
            (λ vs. bind_all (variables t.parts) vs Bindings.new)
            (plain empty t.parts input)
  unfolding match_with_empty start answer
  match_with_empty-plain s =
      answer_of (plain empty t.parts input) (match_from input empty t.parts 0 0 start)
        (match_from-Answers input empty t.parts t.parts 0 0 start s refl (omega arith) tt)

-- No name stands twice.
abbrev pub Distinct : List Str → Type 0
Distinct [] = Unit {0}
Distinct (n ∷ names) = (contains_name names n ≡ false) × Distinct names

-- The values of the names, when each has one.
abbrev pub values_of : List Str → Bindings → Option (List Str)
values_of [] b = some []
values_of (n ∷ names) b = elim (Bindings.get b n) [
  | none ↦ none
  | some v ↦ Option.map (λ vs. v ∷ vs) (values_of names b)
]

get-bind_all :
    (names vs : List Str) (b : Bindings) (n : Str)
    → contains_name names n ≡ false
    → Bindings.get (bind_all names vs b) n ≡ Bindings.get b n
unfolding bind_all
get-bind_all [] vs b n h = refl
get-bind_all (m ∷ names) [] b n h = refl
get-bind_all (m ∷ names) (v ∷ vs) b n h =
    get-bind_all names vs (Bindings.insert m v b) n (ground arith)
    ∙ get-insert m v n b
    ∙ ground arith

values_of-bind_all :
    (names vs : List Str) (b : Bindings)
    → Distinct names
    → length names ≡ length vs
    → values_of names (bind_all names vs b) ≡ some vs
unfolding bind_all
values_of-bind_all [] [] b d h = refl
values_of-bind_all [] (v ∷ vs) b d h = absurd (omega arith)
values_of-bind_all (n ∷ names) [] b d h = absurd (omega arith)
values_of-bind_all (n ∷ names) (v ∷ vs) b d h =
    let mine = get-bind_all names vs (Bindings.insert n v b) n d.0 ∙ get-insert n v n b in
    ground (arith, mine, eq_refl n, values_of-bind_all names vs (Bindings.insert n v b) d.1)

abbrev spell_of : List Part → Option (List Str) → Option Str
spell_of ps none = none
spell_of ps (some vs) = spell ps vs

spell_of-lit :
    (l : Str) (ps : List Part) (o : Option (List Str))
    → Option.map (λ out. l ++ out) (spell_of ps o) ≡ spell_of (lit l ∷ ps) o
unfolding spell
spell_of-lit l ps none = refl
spell_of-lit l ps (some vs) = refl

spell_of-var :
    (n v : Str) (ps : List Part) (o : Option (List Str))
    → Option.map (λ out. v ++ out) (spell_of ps o)
      ≡ spell_of (var n ∷ ps) (Option.map (λ vs. v ∷ vs) o)
unfolding spell
spell_of-var n v ps none = refl
spell_of-var n v ps (some vs) = refl

-- Expansion, by the values of the variables in their order.
expand-spell :
    (ps : List Part) (b : Bindings)
    → expand_with (λ v. v) ps b ≡ spell_of ps (values_of (variables ps) b)
unfolding expand_with variables spell
expand-spell [] b = refl
expand-spell (lit l ∷ ps) b =
    ap (Option.map (λ out. l ++ out)) (expand-spell ps b)
    ∙ spell_of-lit l ps (values_of (variables ps) b)
expand-spell (var n ∷ ps) b = elim (Option-cases (Bindings.get b n)) [
  | inl e ↦ ground (arith, e)
  | inr (v, e) ↦
      ground (arith, e, expand-spell ps b, spell_of-var n v ps (values_of (variables ps) b))
]

length-spell :
    (ps : List Part) (vs : List Str) (s : Str)
    → spell ps vs ≡ some s
    → length (variables ps) ≡ length vs
unfolding spell variables
length-spell [] [] s h = refl
length-spell [] (v ∷ vs) s h = absurd (ground arith)
length-spell (lit l ∷ ps) vs s h = elim (Option-cases (spell ps vs)) [
  | inl e ↦ absurd (ground (arith, e))
  | inr (r, e) ↦ length-spell ps vs r e
]
length-spell (var n ∷ ps) [] s h = absurd (ground arith)
length-spell (var n ∷ ps) (v ∷ vs) s h = elim (Option-cases (spell ps vs)) [
  | inl e ↦ absurd (ground (arith, e))
  | inr (r, e) ↦ omega (arith, length-spell ps vs r e)
]

Proper-Solid : (ps : List Part) → Proper ps → Solid ps
Proper-Solid [] p = tt
Proper-Solid (lit l ∷ ps) p = (p.0, Proper-Solid ps p.3)
Proper-Solid (var n ∷ ps) p = Proper-Solid ps p.1

-- The search of a template that parses, by positions, with a stack of captures and a set of places
-- known to fail, binds what a plain backtracking matcher on texts answers.
pub match_with_empty-first :
    (source : Str) (t : UriTemplate) (input : Str) (empty : List Str)
    → parse source ≡ ok t
    → match_with_empty t input empty
      ≡ Option.map (λ vs. bind_all (variables t.parts) vs Bindings.new) (plain empty t.parts input)
match_with_empty-first source t input empty p =
    match_with_empty-plain t input empty (Proper-Solid t.parts ((parse-eq-ok source t).0 p).proper)

module _ (source : Str) (t : UriTemplate) (p : parse source ≡ ok t)
    (d : Distinct (variables t.parts)) (empty : List Str) where
  keeps : IsTemplate source t
  keeps = (parse-eq-ok source t).0 p

  -- The values that a match binds, in the order of the variables.
  matched_values :
      (input : Str) (b : Bindings)
      → match_with_empty t input empty ≡ some b
      → (vs : List Str) × (plain empty t.parts input ≡ some vs)
        × (values_of (variables t.parts) b ≡ some vs)
        × (spell t.parts vs ≡ some input)
  matched_values input b h = elim (Option-cases (plain empty t.parts input)) [
    | inl e ↦ absurd (ground (arith, e, match_with_empty-first source t input empty p))
    | inr (vs, e) ↦
        let it = plain-Spelled empty t.parts input vs keeps.separated e in
        let bound : bind_all (variables t.parts) vs Bindings.new ≡ b =
          ground (arith, e, match_with_empty-first source t input empty p) in
        let values =
          values_of-bind_all (variables t.parts) vs Bindings.new d
            (length-spell t.parts vs input it.spelled) in
        (vs, e, subst (λ x. values_of (variables t.parts) x ≡ some vs) bound values, it.spelled)
  ]

  -- A template that parses, with distinct names, expands with the bindings of a match to exactly
  -- the text that it matched.
  pub expand-match_with_empty :
      (input : Str) (b : Bindings)
      → match_with_empty t input empty ≡ some b
      → expand t b ≡ some input
  unfolding expand
  expand-match_with_empty input b h =
      let (vs, _, values, spelled) = matched_values input b h in
      expand-spell t.parts b ∙ ap (spell_of t.parts) values ∙ spelled

  -- Every value of `b` is there and not empty, but for the variables of `empty`.
  abbrev pub AllFit : Bindings → Type 0
  AllFit b = (vs : List Str) × (values_of (variables t.parts) b ≡ some vs) × Fits empty t.parts vs

  pub record Matched (input : Str) (b : Bindings) : Type 0 where
    pub bindings : Bindings
    pub values : List Str
    pub others : List Str
    pub matched : match_with_empty t input empty ≡ some bindings
    pub these : values_of (variables t.parts) bindings ≡ some values
    pub those : values_of (variables t.parts) b ≡ some others
    pub before : Before values others

  -- A template that parses, with distinct names, matches every text that it expands to when no
  -- value is empty but for the names that may be, and binds the values that come first: where they
  -- differ first from the ones given, the bound value is the shorter.
  pub match_with_empty-expand :
      (input : Str) (b : Bindings) → AllFit b → expand t b ≡ some input → Matched input b
  unfolding expand
  match_with_empty-expand input b (vs, known, fit) h =
      let spelled = ap (spell_of t.parts) (sym known) ∙ sym (expand-spell t.parts b) ∙ h in
      let it = plain-Reached empty t.parts input vs keeps.separated spelled fit in
      let bound =
        match_with_empty-first source t input empty p
        ∙ ap (Option.map (λ ws. bind_all (variables t.parts) ws Bindings.new)) it.found in
      let (ws, again, values, _) =
        matched_values input (bind_all (variables t.parts) it.values Bindings.new) bound in
      record {
        bindings = bind_all (variables t.parts) it.values Bindings.new;
        values = it.values;
        others = vs;
        matched = bound;
        these = values ∙ sym again ∙ it.found;
        those = known;
        before = it.before;
      }
