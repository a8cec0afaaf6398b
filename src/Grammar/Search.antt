-- ===== src/Grammar/Search.antt =====
-- crates/ikigai-core/src/grammar.rs: the search of `match_from`, with its stack of captures and its
-- set of places that are known to fail, and the grammars `Exact` and `UriTemplate`.
use mathlib.Core.Option
use ikigai_core.Grammar.Bindings
use ikigai_core.Grammar.Bindings.{Bindings}
use ikigai_core.Prelude.{
  ℕ, zero, suc, ◌+◌, ◌-◌, Str, ◌==◌, nat_eq, list_eq, option_eq, Bool, true, false, not, ◌&&◌, ◌||◌,
  List, [], ◌∷◌, map, reverse, Option, none, some, ltb, any, length, starts_with, if◌then◌else◌,
}
use ikigai_core.Grammar.Template.{var, lit, Part, UriTemplate, variables}

abbrev pub Span : Type 0
Span = ℕ × ℕ

-- The mutable arguments of `match_from`. The last capture stands first.
pub record Search : Type 0 where
  pub captures : List Span
  pub failed : List Span

-- `input[pos..]`, empty behind the end.
unfoldable pub drop {ℓ} : {A : Type ℓ} → ℕ → List A → List A
drop zero s = s
drop (suc n) [] = []
drop (suc n) (c ∷ s) = drop n s

unfoldable pub take {ℓ} : {A : Type ℓ} → ℕ → List A → List A
take zero s = []
take (suc n) [] = []
take (suc n) (c ∷ s) = c ∷ take n s

-- `str::find` of a text: where it occurs first.
unfoldable pub find : Str → Str → Option ℕ
unfolding starts_with
find needle [] = if starts_with needle [] then some 0 else none
find needle (c ∷ s) =
    let rest = Option.map suc (find needle s) in if starts_with needle (c ∷ s) then some 0 else rest

unfoldable pub contains_span : List Span → ℕ → ℕ → Bool
contains_span [] i pos = false
contains_span ((j, q) ∷ l) i pos = j == i && q == pos || contains_span l i pos

abbrev pub contains_name : List Str → Str → Bool
contains_name empty name = any (λ n. n == name) empty

-- `if !matched { failed.insert((i, pos)) }`
unfoldable pub note_failure : ℕ → ℕ → Bool × Search → Bool × Search
note_failure i pos (true, st) = (true, st)
note_failure i pos (false, st) = (false, record st { failed = (i, pos) ∷ st.failed })

abbrev pub push_capture : Span → Search → Search
push_capture span st = record st { captures = span ∷ st.captures }

abbrev pub tail : List Span → List Span
tail [] = []
tail (x ∷ l) = l

-- `captures.pop()`
abbrev pub pop_capture : Search → Search
pop_capture st = record st { captures = tail st.captures }

module _ (input : Str) (empty : List Str) where
  -- The loop over the occurrences of the literal `next`. `go` is the match of the parts from it on,
  -- at a position. Every round steps past an occurrence, so that the length of the input bounds
  -- them.
  unfoldable pub occurrences :
      (ℕ → Search → Bool × Search) → Str → Str → ℕ → ℕ → ℕ → Search → Bool × Search
  unfolding find drop
  occurrences go name next zero pos from st = (false, st)
  occurrences go name next (suc fuel) pos from st = elim (find next (drop from input)) [
    | none ↦ (false, st)
    | some rel ↦
        let at = from + rel in
        elim (ltb pos at || contains_name empty name) [
          | true ↦
              let r = go at (push_capture (pos, at) st) in
              elim (r.0) [
                | true ↦ r
                | false ↦ occurrences go name next fuel pos (at + 1) (pop_capture r.1)
              ]
          | false ↦ occurrences go name next fuel pos (at + 1) st
        ]
  ]

  -- A variable that no literal follows.
  unfoldable pub remainder : Str → ℕ → Search → Bool × Search
  remainder name pos st =
      if pos == length input && not (contains_name empty name)
      then (false, st)
      else (true, push_capture (pos, length input) st)

  -- `ps` is `self.parts[i..]`.
  unfoldable pub match_from : List Part → ℕ → ℕ → Search → Bool × Search
  unfolding occurrences remainder note_failure contains_span starts_with
  match_from [] i pos st = (pos == length input, st)
  match_from (lit l ∷ ps) i pos st =
      let rest = match_from ps (i + 1) (pos + length l) st in
      if contains_span st.failed i pos
      then (false, st)
      else note_failure i pos (if starts_with l (drop pos input) then rest else (false, st))
  match_from (var name ∷ []) i pos st =
      if contains_span st.failed i pos
      then (false, st)
      else note_failure i pos (remainder name pos st)
  match_from (var name ∷ var m ∷ ps) i pos st =
      if contains_span st.failed i pos
      then (false, st)
      else note_failure i pos (remainder name pos st)
  match_from (var name ∷ lit next ∷ ps) i pos st =
      let found =
        occurrences (match_from (lit next ∷ ps) (i + 1)) name next (suc (length input)) pos pos
          st in
      if contains_span st.failed i pos then (false, st) else note_failure i pos found

-- `input[from..to]`
unfoldable pub slice : Str → Span → Str
unfolding take drop
slice input (from, to) = take (to - from) (drop from input)

-- `for (name, (from, to)) in names.zip(captures)`
unfoldable pub bind_all : List Str → List Str → Bindings → Bindings
bind_all [] vs b = b
bind_all (n ∷ names) [] b = b
bind_all (n ∷ names) (v ∷ vs) b = bind_all names vs (Bindings.insert n v b)

unfoldable pub match_with_empty : UriTemplate → Str → List Str → Option Bindings
unfolding match_from slice bind_all variables
match_with_empty t input empty =
    let (matched, st) =
      match_from input empty t.parts 0 0 (record { captures = []; failed = [] }) in
    if matched
    then some (bind_all (variables t.parts) (map (slice input) (reverse st.captures)) Bindings.new)
    else none

unfoldable pub match_str : UriTemplate → Str → Option Bindings
unfolding match_with_empty
match_str t input = match_with_empty t input []

pub record Exact : Type 0 where
  pub text : Str

unfoldable pub exact_match : Exact → Str → Option Bindings
exact_match g iri = if iri == g.text then some Bindings.new else none
