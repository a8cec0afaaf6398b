-- ===== src/Grammar/Agreement.antt =====
-- crates/ikigai-core/src/grammar.rs: `match_from` against the matcher with no positions and no
-- memory of failures.
use ikigai_core.Grammar.Template.{Part}
use ikigai_core.Prelude.{
  subst, ℕ, suc, Str, ◌==◌, nat_eq, list_eq, option_eq, ◌≡◌, refl, sym, ap, ◌∙◌, inl, inr, Bool,
  true, false, ◌&&◌, ◌||◌, List, [], ◌∷◌, ◌++◌, map, Option, none, some, ltb, All, starts_with,
  if◌then◌else◌, arith, Bool-cases, Option-cases,
}
use ikigai_core.Prelude.{
  refl, sym, ap, ◌∙◌, inl, inr, true, List, [], ◌∷◌, ◌++◌, map, some, ltb, All, starts_with, arith,
  Bool-cases,
}
use ikigai_core.Prelude.{
  ℕ, suc, refl, sym, ap, ◌∙◌, inl, inr, true, ◌&&◌, ◌||◌, List, [], ◌∷◌, ◌++◌, map, Option, some,
  All, if◌then◌else◌, arith, Bool-cases, Option-cases,
}
use mathlib.Core.List.{append_assoc, reverse_aux}
use ikigai_core.Grammar.Search.{Search, note_failure, contains_span, Span, take, drop, find, slice}
use ikigai_core.Grammar.Reference.{lengthen, first_split, plain}

-- A value so far, `w`, and what a split of the rest adds to it.
unfoldable pub prepend : Str → Option (List Str) → Option (List Str)
prepend w none = none
prepend w (some []) = some []
prepend w (some (v ∷ vs)) = some ((w ++ v) ∷ vs)

pub prepend-lengthen :
    (w : Str) (c : ℕ) (o : Option (List Str)) → prepend w (lengthen c o) ≡ prepend (w ++ (c ∷ [])) o
unfolding prepend lengthen
prepend-lengthen w c none = refl
prepend-lengthen w c (some []) = refl
prepend-lengthen w c (some (v ∷ vs)) = ap (λ x. some (x ∷ vs)) (sym (append_assoc w (c ∷ []) v))

pub prepend-prepend :
    (u w : Str) (o : Option (List Str)) → prepend u (prepend w o) ≡ prepend (u ++ w) o
unfolding prepend
prepend-prepend u w none = refl
prepend-prepend u w (some []) = refl
prepend-prepend u w (some (v ∷ vs)) = ap (λ x. some (x ∷ vs)) (sym (append_assoc u w v))

lengthen-prepend :
    (c : ℕ) (w : Str) (o : Option (List Str)) → lengthen c (prepend w o) ≡ prepend (c ∷ w) o
unfolding prepend lengthen
lengthen-prepend c w none = refl
lengthen-prepend c w (some []) = refl
lengthen-prepend c w (some (v ∷ vs)) = refl

pub prepend_nil : (o : Option (List Str)) → prepend [] o ≡ o
unfolding prepend
prepend_nil none = refl
prepend_nil (some []) = refl
prepend_nil (some (v ∷ vs)) = refl

module _ (f : Str → Option (List Str)) (needle : Str)
    (refuses : (s : Str) → starts_with needle s ≡ false → f s ≡ none) where
  pub first_split-absent :
      (free : Bool) (s : Str) → find needle s ≡ none → first_split f free s ≡ none
  unfolding find first_split lengthen
  first_split-absent free [] h = ground (arith, refuses [])
  first_split-absent free (c ∷ s) h = ground (arith, refuses (c ∷ s), first_split-absent true s)

  abbrev pub Skips : Bool → Str → ℕ → Type 0
  Skips free s rel =
      first_split f free s ≡ prepend (take rel s) (first_split f (ltb 0 rel || free) (drop rel s))

  skip_one :
      (free : Bool) (c : ℕ) (s : Str) (k : ℕ)
      → f (c ∷ s) ≡ none
      → Skips true s k
      → Skips free (c ∷ s) (suc k)
  unfolding first_split take drop
  skip_one free c s k h it =
      let test : (ltb 0 k || true) ≡ true = ground arith in
      let start : first_split f free (c ∷ s) ≡ lengthen c (first_split f true s) =
        ground (arith, h) in
      let test' : (ltb 0 (suc k) || free) ≡ true = ground arith in
      start
      ∙ ap (lengthen c) it
      ∙ lengthen-prepend c (take k s) (first_split f (ltb 0 k || true) (drop k s))
      ∙ ap (λ b. prepend (c ∷ take k s) (first_split f b (drop k s))) (test ∙ sym test')

  -- The split skips to the first occurrence.
  pub first_split-find :
      (free : Bool) (s : Str) (rel : ℕ) → find needle s ≡ some rel → Skips free s rel
  unfolding find first_split prepend take drop
  first_split-find free [] rel h =
      let first : 0 ≡ rel = ground arith in
      subst (Skips free []) first (sym (prepend_nil (first_split f free [])))
  first_split-find free (c ∷ s) rel h = elim (Bool-cases (starts_with needle (c ∷ s))) [
    | inl e ↦
        let first : 0 ≡ rel = ground (arith, e) in
        subst (Skips free (c ∷ s)) first (sym (prepend_nil (first_split f free (c ∷ s))))
    | inr e ↦ elim (Option-cases (find needle s)) [
      | inl n ↦ absurd (ground (arith, e, n))
      | inr (k, n) ↦
          let later : suc k ≡ rel = ground (arith, e, n) in
          subst (Skips free (c ∷ s)) later
            (skip_one free c s k (refuses (c ∷ s) e) (first_split-find true s k n))
    ]
  ]

module _ (input : Str) (empty : List Str) (parts : List Part) where
  abbrev pub Knows : Search → Type 0
  Knows st = All (λ p. plain empty (drop p.0 parts) (drop p.1 input) ≡ none) st.failed

  -- What the search returns from the state `st`, where the matcher answers `o`.
  abbrev pub Agrees : Option (List Str) → Search → Bool × Search → Type 0
  Agrees none st r = (r.0 ≡ false) × (r.1.captures ≡ st.captures)
  Agrees (some vs) st r =
      (r.0 ≡ true)
      × (map (slice input) r.1.captures ≡ reverse_aux vs (map (slice input) st.captures))

  pub record Answers (o : Option (List Str)) (st : Search) (r : Bool × Search) : Type 0 where
    pub agrees : Agrees o st r
    pub knows : Knows r.1

  contains_span-none :
      (l : List Span) (i pos : ℕ)
      → All (λ p. plain empty (drop p.0 parts) (drop p.1 input) ≡ none) l
      → contains_span l i pos ≡ true
      → plain empty (drop i parts) (drop pos input) ≡ none
  unfolding contains_span
  contains_span-none [] i pos k h = absurd (ground arith)
  contains_span-none ((j, q) ∷ l) i pos k h = elim (Bool-cases (j == i && q == pos)) [
    | inl e ↦
        let same : j ≡ i = ground arith in
        let place : q ≡ pos = ground arith in rw (← same) (rw (← place) (k.0))
    | inr e ↦ contains_span-none l i pos k.1 (ground arith)
  ]

  note_failure-Answers :
      (i pos : ℕ) (st : Search) (r : Bool × Search)
      → Answers (plain empty (drop i parts) (drop pos input)) st r
      → Answers (plain empty (drop i parts) (drop pos input)) st (note_failure i pos r)
  unfolding note_failure
  note_failure-Answers i pos st (true, st') h = h
  note_failure-Answers i pos st (false, st') h =
      elim (Option-cases (plain empty (drop i parts) (drop pos input))) [
        | inl e ↦
            let h' : Answers none st (false, st') = subst (λ o. Answers o st (false, st')) e h in
            rw e record { agrees = h'.agrees; knows = (e, h'.knows) }
        | inr (vs, e) ↦
            let h' : Answers (some vs) st (false, st') =
              subst (λ o. Answers o st (false, st')) e h in
            absurd (ground (arith, h'.agrees.0))
      ]

  -- A place that is known to fail is not searched again.
  pub known-Answers :
      (i pos : ℕ) (st : Search) (r : Bool × Search)
      → Knows st
      → Answers (plain empty (drop i parts) (drop pos input)) st r
      → Answers
          (plain empty (drop i parts) (drop pos input))
          st
          (if contains_span st.failed i pos then (false, st) else note_failure i pos r)
  known-Answers i pos st r k h = elim (Bool-cases (contains_span st.failed i pos)) [
    | inl e ↦
        let fails = contains_span-none st.failed i pos k e in
        rw (e, fails) record { agrees = (refl, refl); knows = k }
    | inr e ↦ rw e (note_failure-Answers i pos st r h)
  ]
