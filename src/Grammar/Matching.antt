-- ===== src/Grammar/Matching.antt =====
-- crates/ikigai-core/src/grammar.rs: `match_with_empty` against the matcher with no positions.
use ikigai_core.Prelude.{
  ℕ, zero, suc, ◌+◌, ◌-◌, ◌*◌, ◌/◌, ◌%◌, ◌^◌, ◌≤◌, ◌<◌, min, max, Str, codes, Eq, ◌==◌, nat_eq,
  list_eq, option_eq, eq_cases, eq_refl, eq→≡, ≡→eq, ◌≡◌, refl, sym, ap, ◌∙◌, ◌≢◌, ◌↔◌, ◌⊎◌, inl,
  inr, Bool, true, false, not, ◌&&◌, ◌||◌, List, [], ◌∷◌, ◌++◌, map, reverse, Option, none, some,
  Result, ok, err, ltb, leb, any, all, All, keep, length, starts_with, strip_prefix, is_some,
  is_none, if◌then◌else◌, arith, Bool-cases, Option-cases, str_cmp, str_cmp_eq, str_cmp_refl,
}
use ikigai_core.Prelude.{
  append_of-strip_prefix, ℕ, zero, suc, ◌+◌, ◌-◌, ◌*◌, ◌/◌, ◌%◌, ◌^◌, ◌≤◌, ◌<◌, min, max, Str,
  codes, Eq, ◌==◌, nat_eq, list_eq, option_eq, eq_cases, eq_refl, eq→≡, ≡→eq, ◌≡◌, refl, sym, ap,
  ◌∙◌, ◌≢◌, ◌↔◌, ◌⊎◌, inl, inr, Bool, true, false, not, ◌&&◌, ◌||◌, List, [], ◌∷◌, ◌++◌, map,
  reverse, Option, none, some, Result, ok, err, ltb, leb, any, all, All, keep, length, starts_with,
  strip_prefix, is_some, is_none, if◌then◌else◌, arith, Bool-cases, Option-cases, str_cmp,
  str_cmp_eq, str_cmp_refl,
}
use ikigai_core.Prelude.{
  subst, ℕ, zero, suc, ◌+◌, ◌-◌, ◌*◌, ◌/◌, ◌%◌, ◌^◌, ◌≤◌, ◌<◌, min, max, Str, codes, Eq, ◌==◌,
  nat_eq, list_eq, option_eq, eq_cases, eq_refl, eq→≡, ≡→eq, ◌≡◌, refl, sym, ap, ◌∙◌, ◌≢◌, ◌↔◌, ◌⊎◌,
  inl, inr, Bool, true, false, not, ◌&&◌, ◌||◌, List, [], ◌∷◌, ◌++◌, map, reverse, Option, none,
  some, Result, ok, err, ltb, leb, any, all, All, keep, length, starts_with, strip_prefix, is_some,
  is_none, if◌then◌else◌, arith, Bool-cases, Option-cases, str_cmp, str_cmp_eq, str_cmp_refl,
}
use ikigai_core.Grammar.Template.{Part, lit, var, is_nonempty}
use ikigai_core.Grammar.Search.{
  Search, drop, slice, contains_span, contains_name, note_failure, occurrences, remainder,
  match_from,
}
use ikigai_core.Grammar.Reference.{first_split, plain, plain_rest}
use ikigai_core.Grammar.Slices.{drop-cons, drop-prefix, slice_rest, slice_empty}
use ikigai_core.Grammar.Agreement.{Answers, Knows, prepend, prepend_nil, known-Answers}
use ikigai_core.Grammar.Occurrences.{occurrences-Answers, split_from}

-- No literal is empty.
abbrev pub Solid : List Part → Type 0
Solid [] = Unit {0}
Solid (lit l ∷ ps) = (is_nonempty l ≡ true) × Solid ps
Solid (var n ∷ ps) = Solid ps

strip_prefix-starts : (p s : Str) → starts_with p s ≡ is_some (strip_prefix p s)
unfolding ikigai_core.Prelude.starts_with ikigai_core.Prelude.strip_prefix
strip_prefix-starts [] s = refl
strip_prefix-starts (c ∷ p) [] = refl
strip_prefix-starts (c ∷ p) (d ∷ s) = ground (arith, strip_prefix-starts p s)

drop-suc {ℓ} :
    {A : Type ℓ} (i : ℕ) (s : List A) (c : A) (r : List A) → c ∷ r ≡ drop i s → r ≡ drop (i + 1) s
drop-suc i s c r e = sym ((drop-cons i s c r (sym e)).1)

nor_of_or : (a b : Bool) {t : Bool} → (a || b) ≡ t → (not a && not b) ≡ not t
nor_of_or true b h = ap not h
nor_of_or false b h = ap not h

-- The end of a text is where nothing is left of it.
at_end :
    (input : Str) (pos : ℕ)
    → pos ≤ length input
    → (pos == length input) ≡ not (is_nonempty (drop pos input))
unfolding drop
at_end [] zero h = refl
at_end [] (suc pos) h = absurd (omega arith)
at_end (c ∷ s) zero h = ground arith
at_end (c ∷ s) (suc pos) h = ground (arith, at_end s pos)

module _ (input : Str) (empty : List Str) (parts : List Part) where
  failing :
      (o : Option (List Str)) (st : Search) (r : Bool × Search)
      → o ≡ none
      → r ≡ (false, st)
      → Knows input empty parts st
      → Answers input empty parts o st r
  failing o st r e h w = rw (e, h) record { agrees = (refl, refl); knows = w }

  end-Answers :
      (pos : ℕ) (st : Search)
      → pos ≤ length input
      → Knows input empty parts st
      → Answers input empty parts (plain empty [] (drop pos input)) st (pos == length input, st)
  unfolding plain
  end-Answers pos st k w = elim (Bool-cases (is_nonempty (drop pos input))) [
    | inl e ↦
        let more : (pos == length input) ≡ false = at_end input pos k ∙ ap not e in
        failing (plain empty [] (drop pos input)) st (pos == length input, st) (rw e)
          (ap (λ b. (b, st)) more) w
    | inr e ↦
        let ended : (pos == length input) ≡ true = at_end input pos k ∙ ap not e in
        rw (ended, e) record { agrees = (refl, refl); knows = w }
  ]

  remainder-Answers :
      (name : Str) (pos : ℕ) (st : Search)
      → pos ≤ length input
      → Knows input empty parts st
      → Answers input empty parts
          (plain_rest empty name (drop pos input))
          st
          (remainder input empty name pos st)
  unfolding plain_rest remainder
  remainder-Answers name pos st k w =
      elim (Bool-cases (is_nonempty (drop pos input) || contains_name empty name)) [
        | inl e ↦
            let test : (pos == length input && not (contains_name empty name)) ≡ false =
              ap (λ b. b && not (contains_name empty name)) (at_end input pos k)
              ∙ nor_of_or (is_nonempty (drop pos input)) (contains_name empty name) e in
            rw (e, test)
              record {
                agrees = (refl, ap (λ v. v ∷ map (slice input) st.captures) (slice_rest input pos));
                knows = w;
              }
        | inr e ↦
            let test : (pos == length input && not (contains_name empty name)) ≡ true =
              ap (λ b. b && not (contains_name empty name)) (at_end input pos k)
              ∙ nor_of_or (is_nonempty (drop pos input)) (contains_name empty name) e in
            failing (plain_rest empty name (drop pos input)) st (remainder input empty name pos st)
              (rw e) (rw test) w
      ]

  literal-Answers :
      (l : Str) (ps : List Part) (pos : ℕ) (st : Search) (r : Bool × Search)
      → pos ≤ length input
      → Knows input empty parts st
      → (pos + length l ≤ length input
          → Answers input empty parts (plain empty ps (drop (pos + length l) input)) st r)
      → Answers input empty parts
          (plain empty (lit l ∷ ps) (drop pos input))
          st
          (if starts_with l (drop pos input) then r else (false, st))
  unfolding plain
  literal-Answers l ps pos st r k w h = elim (Option-cases (strip_prefix l (drop pos input))) [
    | inl e ↦
        let refused : starts_with l (drop pos input) ≡ false =
          strip_prefix-starts l (drop pos input) ∙ ap is_some e in
        failing (plain empty (lit l ∷ ps) (drop pos input)) st
          (if starts_with l (drop pos input) then r else (false, st)) (ground arith) (rw refused) w
    | inr (s, e) ↦
        let starts : starts_with l (drop pos input) ≡ true =
          strip_prefix-starts l (drop pos input) ∙ ap is_some e in
        let it = drop-prefix pos l s input k (append_of-strip_prefix l (drop pos input) s e) in
        let same : plain empty (lit l ∷ ps) (drop pos input)
            ≡ plain empty ps (drop (pos + length l) input) =
          ground (arith, it.0) in
        rw (same, starts) (h it.1)
  ]

  last-Answers :
      (name : Str) (qs : List Part) (i pos : ℕ) (st : Search)
      → qs ≡ drop i parts
      → plain empty qs (drop pos input) ≡ plain_rest empty name (drop pos input)
      → pos ≤ length input
      → Knows input empty parts st
      → Answers input empty parts (plain empty (drop i parts) (drop pos input)) st (
          if contains_span st.failed i pos
          then (false, st)
          else note_failure i pos (remainder input empty name pos st))
  last-Answers name qs i pos st e p k w =
      known-Answers input empty parts i pos st (remainder input empty name pos st) w
        (rw (← e) (rw p (remainder-Answers name pos st k w)))

  -- At the first position nothing is in the value yet.
  split_from-start :
      (f : Str → Option (List Str)) (free : Bool) (pos : ℕ)
      → split_from input f free pos pos ≡ first_split f free (drop pos input)
  split_from-start f free pos =
      let test : (ltb pos pos || free) ≡ free = ground arith in
      (λ i. prepend (slice_empty input pos i) (first_split f (test i) (drop pos input)))
      ∙ prepend_nil (first_split f free (drop pos input))

  plain_lit-refuses :
      (l : Str) (ps : List Part) (s : Str)
      → starts_with l s ≡ false
      → plain empty (lit l ∷ ps) s ≡ none
  unfolding plain
  plain_lit-refuses l ps s h = ground (arith, strip_prefix-starts l s)

  plain_var :
      (n l : Str) (ps : List Part) (s : Str)
      → first_split (plain empty (lit l ∷ ps)) (contains_name empty n) s
        ≡ plain empty (var n ∷ lit l ∷ ps) s
  unfolding plain
  plain_var n l ps s = refl

  -- `match_from` answers as the matcher does on the text from `pos` on.
  pub match_from-Answers :
      (ps : List Part) (i pos : ℕ) (st : Search)
      → Solid ps
      → ps ≡ drop i parts
      → pos ≤ length input
      → Knows input empty parts st
      → Answers input empty parts
          (plain empty (drop i parts) (drop pos input))
          st
          (match_from input empty ps i pos st)
  unfolding match_from plain
  match_from-Answers [] i pos st s e k w =
      subst
        (λ qs.
          Answers input empty parts (plain empty qs (drop pos input)) st (pos == length input, st))
        e (end-Answers pos st k w)
  match_from-Answers (lit l ∷ ps) i pos st s e k w =
      known-Answers input empty parts i pos st
        (if starts_with l (drop pos input) then rest else (false, st)) w
        (subst
          (λ qs.
            Answers input empty parts (plain empty qs (drop pos input)) st
              (if starts_with l (drop pos input) then rest else (false, st)))
          e
          (literal-Answers l ps pos st rest k w λ inside.
            subst
              (λ qs.
                Answers input empty parts (plain empty qs (drop (pos + length l) input)) st rest)
              (sym behind) (match_from-Answers ps (i + 1) (pos + length l) st s.1 behind inside w)))
    where
      rest : Bool × Search
      rest = match_from input empty ps (i + 1) (pos + length l) st

      behind : ps ≡ drop (i + 1) parts
      behind = drop-suc i parts (lit l) ps e
  match_from-Answers (var n ∷ []) i pos st s e k w = last-Answers n (var n ∷ []) i pos st e refl k w
  match_from-Answers (var n ∷ var m ∷ ps) i pos st s e k w =
      last-Answers n (var n ∷ var m ∷ ps) i pos st e refl k w
  match_from-Answers (var n ∷ lit [] ∷ ps) i pos st s e k w = absurd (ground (arith, s.0))
  match_from-Answers (var n ∷ lit (c ∷ l) ∷ ps) i pos st s e k w =
      known-Answers input empty parts i pos st found w (
        subst (λ o. Answers input empty parts o st found)
          (split_from-start f (contains_name empty n) pos
            ∙ plain_var n (c ∷ l) ps (drop pos input)
            ∙ ap (λ qs. plain empty qs (drop pos input)) e)
          (occurrences-Answers input empty parts f n c l (plain_lit-refuses (c ∷ l) ps) go
            (λ at st' inside w'.
              subst
                (λ qs. Answers input empty parts (plain empty qs (drop at input)) st' (go at st'))
                (sym behind)
                (match_from-Answers (lit (c ∷ l) ∷ ps) (i + 1) at st' s behind inside w'))
            (suc (length input)) pos pos st (omega arith) k (omega arith) w))
    where
      f : Str → Option (List Str)
      f = plain empty (lit (c ∷ l) ∷ ps)

      go : ℕ → Search → Bool × Search
      go = match_from input empty (lit (c ∷ l) ∷ ps) (i + 1)

      found : Bool × Search
      found = occurrences input empty go n (c ∷ l) (suc (length input)) pos pos st

      behind : lit (c ∷ l) ∷ ps ≡ drop (i + 1) parts
      behind = drop-suc i parts (var n) (lit (c ∷ l) ∷ ps) e
