-- ===== src/Grammar/Occurrences.antt =====
-- crates/ikigai-core/src/grammar.rs: the loop of `match_from` over the occurrences of a literal.
use ikigai_core.Prelude.{
  subst, ℕ, zero, suc, ◌+◌, ◌-◌, ◌*◌, ◌/◌, ◌%◌, ◌^◌, ◌≤◌, ◌<◌, min, max, Str, codes, Eq, ◌==◌,
  nat_eq, list_eq, option_eq, eq_cases, eq_refl, eq→≡, ≡→eq, ◌≡◌, refl, sym, ap, ◌∙◌, ◌≢◌, ◌↔◌, ◌⊎◌,
  inl, inr, Bool, true, false, not, ◌&&◌, ◌||◌, List, [], ◌∷◌, ◌++◌, map, reverse, Option, none,
  some, Result, ok, err, ltb, leb, any, all, All, keep, length, starts_with, strip_prefix, is_some,
  is_none, if◌then◌else◌, arith, Bool-cases, Option-cases, str_cmp, str_cmp_eq, str_cmp_refl,
}
use ikigai_core.Prelude.{
  ℕ, zero, suc, ◌+◌, ◌-◌, ◌*◌, ◌/◌, ◌%◌, ◌^◌, ◌≤◌, ◌<◌, min, max, Str, codes, Eq, ◌==◌, nat_eq,
  list_eq, option_eq, eq_cases, eq_refl, eq→≡, ≡→eq, ◌≡◌, refl, sym, ap, ◌∙◌, ◌≢◌, ◌↔◌, ◌⊎◌, inl,
  inr, Bool, true, false, not, ◌&&◌, ◌||◌, List, [], ◌∷◌, ◌++◌, map, reverse, Option, none, some,
  Result, ok, err, ltb, leb, any, all, All, keep, length, starts_with, strip_prefix, is_some,
  is_none, if◌then◌else◌, arith, Bool-cases, Option-cases, str_cmp, str_cmp_eq, str_cmp_refl,
}
use ikigai_core.Prelude.{
  ℕ, zero, suc, ◌+◌, ◌-◌, ◌*◌, ◌/◌, ◌%◌, ◌^◌, ◌≤◌, ◌<◌, min, max, Str, codes, Eq, ◌==◌, nat_eq,
  list_eq, option_eq, eq_cases, eq_refl, eq→≡, ≡→eq, ◌≡◌, refl, sym, ap, ◌∙◌, ◌≢◌, ◌↔◌, ◌⊎◌, inl,
  inr, Bool, true, false, not, ◌&&◌, ◌||◌, List, [], ◌∷◌, ◌++◌, map, reverse, Option, none, some,
  Result, ok, err, ltb, leb, any, all, All, keep, length, starts_with, strip_prefix, is_some,
  is_none, if◌then◌else◌, arith, Bool-cases, Option-cases, str_cmp, str_cmp_eq, str_cmp_refl,
}
use mathlib.Core.List.{append-nil, reverse_aux}
use ikigai_core.Grammar.Template.{Part}
use ikigai_core.Grammar.Search.{
  tail, Search, take, drop, find, slice, contains_name, push_capture, pop_capture, occurrences,
}
use ikigai_core.Grammar.Reference.{lengthen, first_split}
use ikigai_core.Grammar.Slices.{drop-drop, drop-cons, slice_further, slice_next, find-starts}
use ikigai_core.Grammar.Agreement.{
  Answers, Knows, prepend, prepend-lengthen, prepend-prepend, first_split-absent, first_split-find,
}

-- One round of the loop, by its branches.
module _ (input : Str) (empty : List Str) (go : ℕ → Search → Bool × Search) (name next : Str)
    (fuel pos from : ℕ) (st : Search) where
  round_absent :
      find next (drop from input) ≡ none
      → occurrences input empty go name next (suc fuel) pos from st ≡ (false, st)
  unfolding occurrences
  round_absent e = ground arith

  module _ (rel : ℕ) (e : find next (drop from input) ≡ some rel) where
    round_matched :
        (ltb pos (from + rel) || contains_name empty name) ≡ true
        → (go (from + rel) (push_capture (pos, from + rel) st)).0 ≡ true
        → occurrences input empty go name next (suc fuel) pos from st
          ≡ go (from + rel) (push_capture (pos, from + rel) st)
    unfolding occurrences
    round_matched t m = ground arith

    round_failed :
        (ltb pos (from + rel) || contains_name empty name) ≡ true
        → (go (from + rel) (push_capture (pos, from + rel) st)).0 ≡ false
        → occurrences input empty go name next (suc fuel) pos from st
          ≡ occurrences input empty go name next fuel pos
              (from + rel + 1)
              (pop_capture (go (from + rel) (push_capture (pos, from + rel) st)).1)
    unfolding occurrences
    round_failed t m = ground arith

    round_short :
        (ltb pos (from + rel) || contains_name empty name) ≡ false
        → occurrences input empty go name next (suc fuel) pos from st
          ≡ occurrences input empty go name next fuel pos (from + rel + 1) st
    unfolding occurrences
    round_short t = ground arith

starts_with-cons : (c : ℕ) (l s : Str) → starts_with (c ∷ l) s ≡ true → (r : Str) × (s ≡ c ∷ r)
unfolding ikigai_core.Prelude.starts_with
starts_with-cons c l [] h = absurd (ground arith)
starts_with-cons c l (d ∷ s) h = (s, ground arith)

Answers-captures :
    (input : Str) (empty : List Str) (parts : List Part) (o : Option (List Str)) (st st' : Search)
    (r : Bool × Search)
    → st'.captures ≡ st.captures
    → Answers input empty parts o st' r
    → Answers input empty parts o st r
Answers-captures input empty parts none st st' r e h = record {
  agrees = (h.agrees.0, h.agrees.1 ∙ e);
  knows = h.knows;
}
Answers-captures input empty parts (some vs) st st' r e h = record {
  agrees = (h.agrees.0, h.agrees.1 ∙ ap (λ l. reverse_aux vs (map (slice input) l)) e);
  knows = h.knows;
}

module _ (f : Str → Option (List Str)) where
  first_split-taken :
      (s : Str) (vs : List Str) → f s ≡ some vs → first_split f true s ≡ some ([] ∷ vs)
  unfolding first_split
  first_split-taken [] vs h = ground arith
  first_split-taken (c ∷ s) vs h = ground arith

  first_split-next :
      (b : Bool) (c : ℕ) (s : Str)
      → (if b then f (c ∷ s) else none) ≡ none
      → first_split f b (c ∷ s) ≡ lengthen c (first_split f true s)
  unfolding first_split
  first_split-next b c s h = ground arith

module _ (input : Str) (f : Str → Option (List Str)) (free : Bool) where
  -- What a split of the text from `pos` on gives, once the characters up to `at` are in its value.
  abbrev pub split_from : ℕ → ℕ → Option (List Str)
  split_from pos at =
      prepend (slice input (pos, at)) (first_split f (ltb pos at || free) (drop at input))

  split_from-skip :
      (next : Str) (refuses : (s : Str) → starts_with next s ≡ false → f s ≡ none)
      (pos from rel : ℕ)
      → pos ≤ from
      → find next (drop from input) ≡ some rel
      → split_from pos from ≡ split_from pos (from + rel)
  split_from-skip next refuses pos from rel h e =
      let at : Str = take rel (drop from input) in
      let tests : (ltb 0 rel || (ltb pos from || free)) ≡ (ltb pos (from + rel) || free) =
        ground arith in
      ap (prepend (slice input (pos, from)))
        (first_split-find f next refuses (ltb pos from || free) (drop from input) rel e)
      ∙ prepend-prepend (slice input (pos, from)) at
          (first_split f (ltb 0 rel || (ltb pos from || free)) (drop rel (drop from input)))
      ∙ (λ i.
          prepend (slice_further input pos from rel h i)
            (first_split f (tests i) (drop-drop from rel input i)))

  split_from-taken :
      (pos at : ℕ) (vs : List Str)
      → (ltb pos at || free) ≡ true
      → f (drop at input) ≡ some vs
      → split_from pos at ≡ some (slice input (pos, at) ∷ vs)
  unfolding prepend
  split_from-taken pos at vs t h =
      ap (λ b. prepend (slice input (pos, at)) (first_split f b (drop at input))) t
      ∙ ap (prepend (slice input (pos, at))) (first_split-taken f (drop at input) vs h)
      ∙ ap (λ w. some (w ∷ vs)) (append-nil (slice input (pos, at)))

  split_from-next :
      (pos at c : ℕ) (r : Str)
      → pos ≤ at
      → drop at input ≡ c ∷ r
      → (if ltb pos at || free then f (drop at input) else none) ≡ none
      → split_from pos at ≡ split_from pos (at + 1)
  split_from-next pos at c r h e n =
      let b : Bool = ltb pos at || free in
      let test : true ≡ (ltb pos (at + 1) || free) = ground arith in
      let rest : r ≡ drop (at + 1) input = sym ((drop-cons at input c r e).1) in
      ap (λ s. prepend (slice input (pos, at)) (first_split f b s)) e
      ∙ ap (prepend (slice input (pos, at)))
          (first_split-next f b c r (subst (λ s. (if b then f s else none) ≡ none) e n))
      ∙ prepend-lengthen (slice input (pos, at)) c (first_split f true r)
      ∙ (λ i. prepend (slice_next input pos at c r h e i) (first_split f (test i) (rest i)))

-- The loop answers as the split does, where `go` answers as `f` does.
module _ (input : Str) (empty : List Str) (parts : List Part) (f : Str → Option (List Str))
    (name : Str) (n : ℕ) (l : Str)
    (refuses : (s : Str) → starts_with (n ∷ l) s ≡ false → f s ≡ none)
    (go : ℕ → Search → Bool × Search)
    (go-Answers : (at : ℕ) (st : Search)
      → at ≤ length input
      → Knows input empty parts st
      → Answers input empty parts (f (drop at input)) st (go at st)) where
  abbrev free : Bool
  free = contains_name empty name

  abbrev loop : ℕ → ℕ → ℕ → Search → Bool × Search
  loop = occurrences input empty go name (n ∷ l)

  -- One round that finds an occurrence, with what the rounds behind it answer.
  turn :
      (fuel pos from rel c : ℕ) (r : Str) (st : Search)
      → pos ≤ from
      → find (n ∷ l) (drop from input) ≡ some rel
      → from + rel ≤ length input
      → drop (from + rel) input ≡ c ∷ r
      → ((st' : Search)
          → Knows input empty parts st'
          → Answers input empty parts
              (split_from input f free pos (from + rel + 1))
              st'
              (loop fuel pos (from + rel + 1) st'))
      → Knows input empty parts st
      → Answers input empty parts
          (split_from input f free pos (from + rel))
          st
          (loop (suc fuel) pos from st)
  turn fuel pos from rel c r st h e inside d again w = elim (Bool-cases (ltb pos at || free)) [
    | inr t ↦
        rw (round_short input empty go name (n ∷ l) fuel pos from st rel e t)
          (rw (split_from-next input f free pos at c r (omega arith) d (rw t)) (again st w))
    | inl t ↦
        let there = go-Answers at pushed inside w in
        elim (Option-cases (f (drop at input))) [
          | inl none_there ↦
              let it : Answers input empty parts none pushed (go at pushed) =
                subst (λ o. Answers input empty parts o pushed (go at pushed)) none_there there in
              let back = pop_capture (go at pushed).1 in
              let captures : back.captures ≡ st.captures = ap tail it.agrees.1 in
              rw (round_failed input empty go name (n ∷ l) fuel pos from st rel e t it.agrees.0) (
                rw (split_from-next input f free pos at c r (omega arith) d (rw t none_there)) (
                  Answers-captures input empty parts (split_from input f free pos (at + 1)) st back
                    (loop fuel pos (at + 1) back) captures (again back it.knows)))
          | inr (vs, found) ↦
              let it : Answers input empty parts (some vs) pushed (go at pushed) =
                subst (λ o. Answers input empty parts o pushed (go at pushed)) found there in
              rw (round_matched input empty go name (n ∷ l) fuel pos from st rel e t it.agrees.0) (
                rw (split_from-taken input f free pos at vs t found)
                  record { agrees = it.agrees; knows = it.knows })
        ]
  ]
    where
      at : ℕ
      at = from + rel

      pushed : Search
      pushed = push_capture (pos, at) st

  absent :
      (fuel pos from : ℕ) (st : Search)
      → find (n ∷ l) (drop from input) ≡ none
      → Knows input empty parts st
      → Answers input empty parts
          (split_from input f free pos from)
          st
          (loop (suc fuel) pos from st)
  unfolding prepend
  absent fuel pos from st e w = rw (round_absent input empty go name (n ∷ l) fuel pos from st e) (
      subst (λ o. Answers input empty parts (prepend (slice input (pos, from)) o) st (false, st))
        (sym (first_split-absent f (n ∷ l) refuses (ltb pos from || free) (drop from input) e))
        record { agrees = (refl, refl); knows = w })

  pub occurrences-Answers :
      (fuel pos from : ℕ) (st : Search)
      → pos ≤ from
      → from ≤ length input
      → length input - from < fuel
      → Knows input empty parts st
      → Answers input empty parts
          (split_from input f (contains_name empty name) pos from)
          st
          (occurrences input empty go name (n ∷ l) fuel pos from st)
  occurrences-Answers zero pos from st h k m w = absurd (omega arith)
  occurrences-Answers (suc fuel) pos from st h k m w =
      elim (Option-cases (find (n ∷ l) (drop from input))) [
        | inl e ↦ absent fuel pos from st e w
        | inr (rel, e) ↦
            let starts = find-starts (n ∷ l) (drop from input) rel e in
            let (r, cut) = starts_with-cons n l (drop rel (drop from input)) starts in
            let d : drop (from + rel) input ≡ n ∷ r = sym (drop-drop from rel input) ∙ cut in
            let inside = (drop-cons (from + rel) input n r d).0 in
            let behind : from + rel < length input = inside in
            rw (split_from-skip input f (contains_name empty name) (n ∷ l) refuses pos from rel h e)
              (turn fuel pos from rel n r st h e (omega arith) d
                (λ st'.
                  occurrences-Answers fuel pos (from + rel + 1) st' (omega arith) (omega arith)
                    (omega arith))
                w)
      ]
