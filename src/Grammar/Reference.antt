-- ===== src/Grammar/Reference.antt =====
-- crates/ikigai-core/src/grammar.rs: a matcher with no positions and no memory of failures, beside
-- the texts that a template stands for.
use ikigai_core.Prelude.{
  of_some, strip_prefix-append, ℕ, ◌<◌, Str, nat_eq, list_eq, option_eq, ◌≡◌, refl, sym, ap, ◌∙◌,
  ◌⊎◌, inl, inr, Bool, true, false, ◌||◌, List, [], ◌∷◌, ◌++◌, Option, none, some, length,
  strip_prefix, if◌then◌else◌, arith, Bool-cases, Option-cases,
}
use ikigai_core.Prelude.{
  append_of-strip_prefix, ℕ, ◌<◌, Str, nat_eq, list_eq, option_eq, ◌≡◌, refl, sym, ap, ◌∙◌, ◌⊎◌,
  inl, inr, Bool, true, false, ◌||◌, List, [], ◌∷◌, ◌++◌, Option, none, some, length, strip_prefix,
  if◌then◌else◌, arith, Bool-cases, Option-cases,
}
use ikigai_core.Prelude.{
  subst, ℕ, ◌<◌, Str, nat_eq, list_eq, option_eq, ◌≡◌, refl, sym, ap, ◌∙◌, ◌⊎◌, inl, inr, Bool,
  true, false, ◌||◌, List, [], ◌∷◌, ◌++◌, Option, none, some, length, strip_prefix, if◌then◌else◌,
  arith, Bool-cases, Option-cases,
}
use ikigai_core.Prelude.{
  ℕ, ◌<◌, Str, nat_eq, list_eq, option_eq, ◌≡◌, refl, sym, ap, ◌∙◌, ◌⊎◌, inl, inr, Bool, true,
  false, ◌||◌, List, [], ◌∷◌, ◌++◌, Option, none, some, length, strip_prefix, if◌then◌else◌, arith,
  Bool-cases, Option-cases,
}
use mathlib.Core.Option
use mathlib.Core.List.{append-nil}
use ikigai_core.Grammar.Template.{Part, lit, var, is_nonempty, has_adjacent}
use ikigai_core.Grammar.Search.{contains_name}

-- The text of a template for the values of its variables, in their order.
unfoldable pub spell : List Part → List Str → Option Str
spell [] [] = some []
spell [] (v ∷ vs) = none
spell (lit l ∷ ps) vs = Option.map (λ out. l ++ out) (spell ps vs)
spell (var n ∷ ps) [] = none
spell (var n ∷ ps) (v ∷ vs) = Option.map (λ out. v ++ out) (spell ps vs)

unfoldable pub lengthen : ℕ → Option (List Str) → Option (List Str)
lengthen c none = none
lengthen c (some []) = some []
lengthen c (some (v ∷ vs)) = some ((c ∷ v) ∷ vs)

-- The shortest value for which `f` takes the rest of the text. `free` says whether it may be empty.
unfoldable pub first_split : (Str → Option (List Str)) → Bool → Str → Option (List Str)
unfolding lengthen
first_split f free [] = elim (if free then f [] else none) [
  | none ↦ none
  | some vs ↦ some ([] ∷ vs)
]
first_split f free (c ∷ s) =
    let later = lengthen c (first_split f true s) in
    elim (if free then f (c ∷ s) else none) [ none ↦ later | some vs ↦ some ([] ∷ vs) ]

module _ (empty : List Str) where
  unfoldable pub plain_rest : Str → Str → Option (List Str)
  plain_rest n s = if is_nonempty s || contains_name empty n then some (s ∷ []) else none

  unfoldable pub plain : List Part → Str → Option (List Str)
  unfolding strip_prefix first_split plain_rest
  plain [] s = if is_nonempty s then none else some []
  plain (lit l ∷ ps) s = elim (strip_prefix l s) [ none ↦ none | some r ↦ plain ps r ]
  plain (var n ∷ []) s = plain_rest n s
  plain (var n ∷ var m ∷ ps) s = plain_rest n s
  plain (var n ∷ lit l ∷ ps) s = first_split (plain (lit l ∷ ps)) (contains_name empty n) s

  -- No value is empty but for a variable of `empty`.
  abbrev pub Fits : List Part → List Str → Type 0
  Fits [] vs = Unit {0}
  Fits (lit l ∷ ps) vs = Fits ps vs
  Fits (var n ∷ ps) [] = Unit {0}
  Fits (var n ∷ ps) (v ∷ vs) = ((is_nonempty v || contains_name empty n) ≡ true) × Fits ps vs

-- The values of the first list come first: where they differ first, its value is the shorter.
abbrev pub Before : List Str → List Str → Type 0
Before [] [] = Unit {0}
Before (w ∷ ws) (v ∷ vs) = (length w < length v) ⊎ (w ≡ v) × Before ws vs
Before _ _ = ⊥

pub Before_trans : (us vs ws : List Str) → Before us vs → Before vs ws → Before us ws
Before_trans [] [] [] h k = tt
Before_trans (u ∷ us) (v ∷ vs) (w ∷ ws) (inl h) (inl k) = inl (omega arith)
Before_trans (u ∷ us) (v ∷ vs) (w ∷ ws) (inl h) (inr k) = inl (ground arith)
Before_trans (u ∷ us) (v ∷ vs) (w ∷ ws) (inr h) (inl k) = inl (ground arith)
Before_trans (u ∷ us) (v ∷ vs) (w ∷ ws) (inr h) (inr k) =
    inr (h.0 ∙ k.0, Before_trans us vs ws h.1 k.1)
Before_trans [] [] (w ∷ ws) h k = absurd k
Before_trans [] (v ∷ vs) ws h k = absurd h
Before_trans (u ∷ us) [] ws h k = absurd h
Before_trans (u ∷ us) (v ∷ vs) [] h k = absurd k

pub Before_refl : (vs : List Str) → Before vs vs
Before_refl [] = tt
Before_refl (v ∷ vs) = inr (refl, Before_refl vs)

-- `xs` splits `s` into a value and a rest that `f` takes.
pub record Parted (f : Str → Option (List Str)) (free : Bool) (s : Str) (xs : List Str)
    : Type 0 where
  pub value : Str
  pub rest : Str
  pub values : List Str
  pub whole : s ≡ value ++ rest
  pub taken : f rest ≡ some values
  pub listed : xs ≡ value ∷ values
  pub allowed : (is_nonempty value || free) ≡ true

module _ (f : Str → Option (List Str)) where
  split_here :
      (free : Bool) (s : Str) (vs : List Str)
      → (if free then f s else none) ≡ some vs
      → Parted f free s ([] ∷ vs)
  split_here true s vs h = record {
    value = [];
    rest = s;
    values = vs;
    whole = refl;
    taken = h;
    listed = refl;
    allowed = refl;
  }
  split_here false s vs h = absurd (ground arith)

  split_later :
      (free : Bool) (c : ℕ) (s : Str) (o : Option (List Str)) (xs : List Str)
      → ((ys : List Str) → o ≡ some ys → Parted f true s ys)
      → lengthen c o ≡ some xs
      → Parted f free (c ∷ s) xs
  unfolding lengthen
  split_later free c s none xs k h = absurd (ground arith)
  split_later free c s (some []) xs k h = absurd (ground (arith, (k [] refl).listed))
  split_later free c s (some (v ∷ vs)) xs k h =
      let it = k (v ∷ vs) refl in
      record {
        value = c ∷ it.value;
        rest = it.rest;
        values = it.values;
        whole = ap (λ r. c ∷ r) it.whole;
        taken = it.taken;
        listed = ground (arith, it.listed);
        allowed = refl;
      }

  pub first_split-Parted :
      (free : Bool) (s : Str) (xs : List Str) → first_split f free s ≡ some xs → Parted f free s xs
  unfolding first_split
  first_split-Parted free [] xs h = elim (Option-cases (if free then f [] else none)) [
    | inl e ↦ absurd (ground arith)
    | inr (vs, e) ↦ subst (Parted f free []) (ground arith) (split_here free [] vs e)
  ]
  first_split-Parted free (c ∷ s) xs h = elim (Option-cases (if free then f (c ∷ s) else none)) [
    | inl e ↦
        split_later free c s (first_split f true s) xs (first_split-Parted true s) (ground arith)
    | inr (vs, e) ↦ subst (Parted f free (c ∷ s)) (ground arith) (split_here free (c ∷ s) vs e)
  ]

  -- A text that splits has a first split, and it comes before.
  pub record Leads (free : Bool) (s : Str) (v : Str) (vs : List Str) : Type 0 where
    pub value : Str
    pub values : List Str
    pub found : first_split f free s ≡ some (value ∷ values)
    pub before : Before (value ∷ values) (v ∷ vs)

  first_here :
      (free : Bool) (r : Str) (vs : List Str) → f r ≡ some vs → free ≡ true → Leads free r [] vs
  unfolding first_split
  first_here free [] vs h k = record {
    value = [];
    values = vs;
    found = ground arith;
    before = Before_refl ([] ∷ vs);
  }
  first_here free (c ∷ r) vs h k = record {
    value = [];
    values = vs;
    found = ground arith;
    before = Before_refl ([] ∷ vs);
  }

  before-cons :
      (c : ℕ) (w v : Str) (ws vs : List Str)
      → Before (w ∷ ws) (v ∷ vs)
      → Before ((c ∷ w) ∷ ws) ((c ∷ v) ∷ vs)
  before-cons c w v ws vs (inl h) = inl (omega arith)
  before-cons c w v ws vs (inr h) = inr (ap (λ x. c ∷ x) h.0, h.1)

  first_later :
      (free : Bool) (c : ℕ) (v s : Str) (vs : List Str)
      → Leads true s v vs
      → (if free then f (c ∷ s) else none) ≡ none
      → Leads free (c ∷ s) (c ∷ v) vs
  unfolding first_split lengthen
  first_later free c v s vs r e = record {
    value = c ∷ r.value;
    values = r.values;
    found = ground (arith, r.found);
    before = before-cons c r.value v r.values vs r.before;
  }

  pub first_split-Leads :
      (free : Bool) (v r : Str) (vs : List Str)
      → f r ≡ some vs
      → (is_nonempty v || free) ≡ true
      → Leads free (v ++ r) v vs
  unfolding first_split
  first_split-Leads free [] r vs h k = first_here free r vs h k
  first_split-Leads free (c ∷ v) r vs h k =
      elim (Option-cases (if free then f (c ∷ v ++ r) else none)) [
        | inl e ↦
            first_later free c v (v ++ r) vs (first_split-Leads true v r vs h (ground arith)) e
        | inr (ws, e) ↦ record {
          value = [];
          values = ws;
          found = ground arith;
          before = inl (omega arith);
        }
      ]

module _ (empty : List Str) where
  pub record Spelled (ps : List Part) (s : Str) (vs : List Str) : Type 0 where
    pub spelled : spell ps vs ≡ some s
    pub fits : Fits empty ps vs

  -- What the matcher answers spells the text.
  pub plain-Spelled :
      (ps : List Part) (s : Str) (vs : List Str)
      → has_adjacent ps ≡ false
      → plain empty ps s ≡ some vs
      → Spelled ps s vs
  unfolding plain has_adjacent spell plain_rest
  plain-Spelled [] [] vs a h =
      let none_left : ◌≡◌ {A = List Str} [] vs = ground arith in
      subst (λ xs. Spelled [] [] xs) none_left record { spelled = refl; fits = tt }
  plain-Spelled [] (c ∷ s) vs a h = absurd (ground arith)
  plain-Spelled (lit l ∷ ps) s vs a h = elim (Option-cases (strip_prefix l s)) [
    | inl e ↦ absurd (ground arith)
    | inr (r, e) ↦
        let it = plain-Spelled ps r vs a (ground arith) in
        record {
          spelled = rw it.spelled (ap some (sym (append_of-strip_prefix l s r e)));
          fits = it.fits;
        }
  ]
  plain-Spelled (var n ∷ []) s vs a h = elim (Bool-cases (is_nonempty s || contains_name empty n)) [
    | inl e ↦
        let alone : Spelled (var n ∷ []) s (s ∷ []) = record {
          spelled = ap some (append-nil s);
          fits = (e, tt);
        } in
        let one : s ∷ [] ≡ vs = ground arith in subst (λ xs. Spelled (var n ∷ []) s xs) (one) alone
    | inr e ↦ absurd (ground arith)
  ]
  plain-Spelled (var n ∷ var m ∷ ps) s vs a h = absurd (ground arith)
  plain-Spelled (var n ∷ lit l ∷ ps) s vs a h =
      let it = first_split-Parted (plain empty (lit l ∷ ps)) (contains_name empty n) s vs h in
      let below = plain-Spelled (lit l ∷ ps) it.rest it.values a it.taken in
      rw it.listed record {
        spelled = rw below.spelled (ap some (sym it.whole));
        fits = (it.allowed, below.fits);
      }

  pub record Reached (ps : List Part) (s : Str) (vs : List Str) : Type 0 where
    pub values : List Str
    pub found : plain empty ps s ≡ some values
    pub before : Before values vs

  found-lit :
      (l : Str) (ps : List Part) (r : Str) (vs : List Str)
      → Reached ps r vs
      → Reached (lit l ∷ ps) (l ++ r) vs
  unfolding plain
  found-lit l ps r vs it = record {
    values = it.values;
    found = ground (arith, strip_prefix-append l r, it.found);
    before = it.before;
  }

  found-rest :
      (n : Str) (s v : Str)
      → s ≡ v
      → ((is_nonempty v || contains_name empty n) ≡ true)
      → Reached (var n ∷ []) s (v ∷ [])
  unfolding plain plain_rest
  found-rest n s v e k = record { values = s ∷ []; found = ground arith; before = inr (e, tt) }

  before_then :
      (us vs ws : List Str) (u v : Str)
      → Before (u ∷ us) (v ∷ vs)
      → Before vs ws
      → Before (u ∷ us) (v ∷ ws)
  before_then us vs ws u v h k = Before_trans (u ∷ us) (v ∷ vs) (v ∷ ws) h (inr (refl, k))

  -- A text that the template spells is matched, and by the values that come first.
  pub plain-Reached :
      (ps : List Part) (s : Str) (vs : List Str)
      → has_adjacent ps ≡ false
      → spell ps vs ≡ some s
      → Fits empty ps vs
      → Reached ps s vs
  unfolding plain has_adjacent spell plain_rest
  plain-Reached [] [] [] a h k = record { values = []; found = refl; before = tt }
  plain-Reached [] (c ∷ s) [] a h k = absurd (ground arith)
  plain-Reached [] s (v ∷ vs) a h k = absurd (ground arith)
  plain-Reached (lit l ∷ ps) s vs a h k = elim (Option-cases (spell ps vs)) [
    | inl e ↦ absurd (ground arith)
    | inr (r, e) ↦
        subst (λ x. Reached (lit l ∷ ps) x vs) (ground arith)
          (found-lit l ps r vs (plain-Reached ps r vs a e k))
  ]
  plain-Reached (var n ∷ []) s [] a h k = absurd (ground arith)
  plain-Reached (var n ∷ []) s (v ∷ []) a h k =
      found-rest n s v (of_some (sym h) ∙ append-nil v) k.0
  plain-Reached (var n ∷ []) s (v ∷ u ∷ vs) a h k = absurd (ground arith)
  plain-Reached (var n ∷ var m ∷ ps) s vs a h k = absurd (ground arith)
  plain-Reached (var n ∷ lit l ∷ ps) s [] a h k = absurd (ground arith)
  plain-Reached (var n ∷ lit l ∷ ps) s (v ∷ vs) a h k =
      elim (Option-cases (spell (lit l ∷ ps) vs)) [
        | inl e ↦ absurd (ground (arith, e))
        | inr (r, e) ↦
            let below = plain-Reached (lit l ∷ ps) r vs a e k.1 in
            let it =
              first_split-Leads (plain empty (lit l ∷ ps)) (contains_name empty n) v r below.values
                below.found k.0 in
            subst (λ x. Reached (var n ∷ lit l ∷ ps) x (v ∷ vs)) (ground (arith, e))
              record {
                values = it.value ∷ it.values;
                found = it.found;
                before = before_then it.values below.values vs it.value v it.before below.before;
              }
      ]
