-- ===== src/Grammar/Parsing.antt =====
-- crates/ikigai-core/src/grammar.rs: `UriTemplate::parse` against the texts that parts are written
-- as.
use ikigai_core.Prelude.{
  ℕ, zero, suc, ◌+◌, ◌<◌, Str, ◌==◌, nat_eq, list_eq, option_eq, eq_refl, eq→≡, ◌≡◌, refl, sym, ap,
  ◌∙◌, ◌↔◌, ◌⊎◌, inl, inr, Bool, true, false, List, [], ◌∷◌, ◌++◌, none, some, Result, ok, err, any,
  all, length, if◌then◌else◌, arith, Bool-cases, Option-cases,
}
use ikigai_core.Prelude.{
  ok-injective, ◌>>=◌, ℕ, zero, suc, ◌+◌, ◌<◌, Str, ◌==◌, nat_eq, list_eq, option_eq, eq_refl, eq→≡,
  ◌≡◌, refl, sym, ap, ◌∙◌, ◌↔◌, ◌⊎◌, inl, inr, Bool, true, false, List, [], ◌∷◌, ◌++◌, none, some,
  Result, ok, err, any, all, length, if◌then◌else◌, arith, Bool-cases, Option-cases,
}
use ikigai_core.Prelude.{
  subst, ℕ, zero, suc, ◌+◌, ◌<◌, Str, ◌==◌, nat_eq, list_eq, option_eq, eq_refl, eq→≡, ◌≡◌, refl,
  sym, ap, ◌∙◌, ◌↔◌, ◌⊎◌, inl, inr, Bool, true, false, List, [], ◌∷◌, ◌++◌, none, some, Result, ok,
  err, any, all, length, if◌then◌else◌, arith, Bool-cases, Option-cases,
}
use ikigai_core.Prelude.{
  ℕ, zero, suc, ◌+◌, ◌<◌, Str, ◌==◌, nat_eq, list_eq, option_eq, eq_refl, eq→≡, ◌≡◌, refl, sym, ap,
  ◌∙◌, ◌↔◌, ◌⊎◌, inl, inr, Bool, true, false, List, [], ◌∷◌, ◌++◌, none, some, Result, ok, err, any,
  all, length, if◌then◌else◌, arith, Bool-cases, Option-cases,
}
use mathlib.Core.List.{append-nil}
use ikigai_core.Prelude.{length-append}
use ikigai_core.Capability.Scope.{split_once}
use ikigai_core.Grammar.Template.{
  Part, lit, var, is_nonempty, UriTemplate, adjacent, opening, closing, name_char, valid_name,
  push_lit, parse_parts, has_adjacent, parse,
}

-- The text of the parts.
unfoldable pub print : List Part → Str
print [] = []
print (lit l ∷ ps) = l ++ print ps
print (var n ∷ ps) = opening ∷ n ++ (closing ∷ print ps)

abbrev pub has : ℕ → Str → Bool
has sep = any (λ c. c == sep)

abbrev lit_first : List Part → Bool
lit_first [] = false
lit_first (lit l ∷ ps) = true
lit_first (var n ∷ ps) = false

-- Literals are not empty, open no variable and do not stand side by side; names are valid.
abbrev pub Proper : List Part → Type 0
Proper [] = Unit {0}
Proper (lit l ∷ ps) =
    (is_nonempty l ≡ true) × (has opening l ≡ false) × (lit_first ps ≡ false) × Proper ps
Proper (var n ∷ ps) = (valid_name n ≡ true) × Proper ps

-- The template of a text.
pub record IsTemplate (source : Str) (t : UriTemplate) : Type 0 where
  pub proper : Proper t.parts
  pub separated : has_adjacent t.parts ≡ false
  pub printed : print t.parts ≡ source
  pub kept : t.source ≡ source

Result-cases {ℓ κ} :
    {A : Type ℓ} {E : Type κ} (r : Result A E) → ((a : A) × (r ≡ ok a)) ⊎ ((e : E) × (r ≡ err e))
Result-cases (ok a) = inl (a, refl)
Result-cases (err e) = inr (e, refl)

split_once-some :
    (sep : ℕ) (s a b : Str)
    → split_once sep s ≡ some (a, b)
    → (s ≡ a ++ (sep ∷ b)) × (has sep a ≡ false)
unfolding split_once
split_once-some sep [] a b h = absurd (ground arith)
split_once-some sep (c ∷ s) a b h = elim (Bool-cases (c == sep)) [
  | inl e ↦
      let same : c ≡ sep = eq→≡ c sep e in
      let first : ◌≡◌ {A = Str} [] a = ground arith in
      let rest : s ≡ b = ground arith in rw (← first) (ground arith, refl)
  | inr e ↦ elim (Option-cases (split_once sep s)) [
    | inl n ↦ absurd (ground (arith, e, n))
    | inr ((a', b'), n) ↦
        let longer : c ∷ a' ≡ a = ground (arith, e, n) in
        let rest : b' ≡ b = ground (arith, e, n) in
        let it = split_once-some sep s a' b' n in
        rw (← longer) (rw (← rest) (ap (λ r. c ∷ r) it.0, ground (arith, e, it.1)))
  ]
]

split_once-none : (sep : ℕ) (s : Str) → split_once sep s ≡ none → has sep s ≡ false
unfolding split_once
split_once-none sep [] h = refl
split_once-none sep (c ∷ s) h = elim (Option-cases (split_once sep s)) [
  | inl n ↦ ground (arith, n, split_once-none sep s n)
  | inr (p, n) ↦ absurd (ground (arith, n))
]

split_once-append :
    (sep : ℕ) (a b : Str) → has sep a ≡ false → split_once sep (a ++ (sep ∷ b)) ≡ some (a, b)
unfolding split_once
split_once-append sep [] b h = ground (arith, eq_refl sep)
split_once-append sep (c ∷ a) b h = ground (arith, split_once-append sep a b)

split_once-absent : (sep : ℕ) (s : Str) → has sep s ≡ false → split_once sep s ≡ none
unfolding split_once
split_once-absent sep [] h = refl
split_once-absent sep (c ∷ s) h = ground (arith, split_once-absent sep s)

names_close : (n : Str) → all name_char n ≡ true → has closing n ≡ false
names_close [] h = refl
names_close (c ∷ n) h = ground (arith, names_close n)

-- One round of the loop.
parse_round :
    (fuel : ℕ) (source l n rest : Str) (ps : List Part)
    → has opening l ≡ false
    → valid_name n ≡ true
    → parse_parts fuel source rest ≡ ok ps
    → parse_parts (suc fuel) source (l ++ (opening ∷ n ++ (closing ∷ rest)))
      ≡ ok (push_lit l (var n ∷ ps))
unfolding parse_parts valid_name
parse_round fuel source l n rest ps h v k = ground (
  arith,
  split_once-append opening l (n ++ (closing ∷ rest)) h,
  split_once-append closing n rest,
  names_close n,
)

parse_last :
    (fuel : ℕ) (source l : Str)
    → has opening l ≡ false
    → parse_parts (suc fuel) source l ≡ ok (push_lit l [])
unfolding parse_parts
parse_last fuel source l h = ground (arith, split_once-absent opening l h)

length-round :
    (l n rest : Str)
    → length (l ++ (opening ∷ n ++ (closing ∷ rest))) ≡ length l + length n + length rest + 2
length-round l n rest =
    omega
      (arith, length-append l (opening ∷ n ++ (closing ∷ rest)), length-append n (closing ∷ rest))

parse_parts-print :
    (fuel : ℕ) (source : Str) (ps : List Part)
    → length (print ps) < fuel
    → Proper ps
    → parse_parts fuel source (print ps) ≡ ok ps
unfolding parse_parts print push_lit
parse_parts-print zero source ps f p = absurd (omega arith)
parse_parts-print (suc fuel) source [] f p = parse_last fuel source [] refl
parse_parts-print (suc fuel) source (lit [] ∷ ps) f p = absurd (ground (arith, p.0))
parse_parts-print (suc fuel) source (lit (c ∷ l) ∷ []) f p =
    rw (append-nil (c ∷ l)) (parse_last fuel source (c ∷ l) p.1)
parse_parts-print (suc fuel) source (lit l ∷ lit m ∷ ps) f p = absurd (ground (arith, p.2))
parse_parts-print (suc fuel) source (lit (c ∷ l) ∷ var n ∷ ps) f p =
    parse_round fuel source (c ∷ l) n (print ps) ps p.1 p.3.0
      (parse_parts-print fuel source ps (omega (arith, length-round (c ∷ l) n (print ps))) p.3.1)
parse_parts-print (suc fuel) source (var n ∷ ps) f p =
    parse_round fuel source [] n (print ps) ps refl p.0
      (parse_parts-print fuel source ps (omega (arith, length-round [] n (print ps))) p.1)

print-push_lit : (l : Str) (ps : List Part) → print (push_lit l ps) ≡ l ++ print ps
unfolding print push_lit
print-push_lit [] ps = refl
print-push_lit (c ∷ l) ps = refl

push_lit-Proper :
    (l : Str) (ps : List Part)
    → has opening l ≡ false
    → lit_first ps ≡ false
    → Proper ps
    → Proper (push_lit l ps)
unfolding push_lit
push_lit-Proper [] ps h k p = p
push_lit-Proper (c ∷ l) ps h k p = (refl, h, k, p)

round-Proper :
    (l after n behind rest : Str) (qs : List Part)
    → split_once opening rest ≡ some (l, after)
    → split_once closing after ≡ some (n, behind)
    → valid_name n ≡ true
    → (print qs ≡ behind) × Proper qs
    → (print (push_lit l (var n ∷ qs)) ≡ rest) × Proper (push_lit l (var n ∷ qs))
unfolding print
round-Proper l after n behind rest qs e e' v it =
    let first = split_once-some opening rest l after e in
    let second = split_once-some closing after n behind e' in
    let whole : l ++ (opening ∷ n ++ (closing ∷ print qs)) ≡ rest =
      rw it.0 (rw (← second.0) (sym first.0)) in
    (print-push_lit l (var n ∷ qs) ∙ whole, push_lit-Proper l (var n ∷ qs) first.1 refl (v, it.1))

parse_parts-Proper :
    (fuel : ℕ) (source rest : Str) (ps : List Part)
    → parse_parts fuel source rest ≡ ok ps
    → (print ps ≡ rest) × Proper ps
unfolding parse_parts print
parse_parts-Proper zero source rest ps h = absurd (ground arith)
parse_parts-Proper (suc fuel) source rest ps h = elim (Option-cases (split_once opening rest)) [
  | inl e ↦
      let last : push_lit rest [] ≡ ps = ground (arith, e) in
      subst (λ qs. (print qs ≡ rest) × Proper qs) last
        (
          print-push_lit rest [] ∙ append-nil rest,
          push_lit-Proper rest [] (split_once-none opening rest e) refl tt,
        )
  | inr ((l, after), e) ↦ elim (Option-cases (split_once closing after)) [
    | inl e' ↦ absurd (ground (arith, e, e'))
    | inr ((n, behind), e') ↦ elim (Bool-cases (valid_name n)) [
      | inr v ↦ absurd (ground (arith, e, e', v))
      | inl v ↦ elim (Result-cases (parse_parts fuel source behind)) [
        | inr (x, e'') ↦ absurd (ground (arith, e, e', v, e''))
        | inl (qs, e'') ↦
            let round : push_lit l (var n ∷ qs) ≡ ps = ground (arith, e, e', v, e'') in
            subst (λ rs. (print rs ≡ rest) × Proper rs) round
              (round-Proper l after n behind rest qs e e' v
                (parse_parts-Proper fuel source behind qs e''))
      ]
    ]
  ]
]

has_adjacent_ok :
    (source : Str) (ps : List Part) (t : UriTemplate)
    → (if has_adjacent ps
        then err (adjacent source)
        else ok (record { parts = ps; source = source }))
      ≡ ok t
    → (has_adjacent ps ≡ false) × (record { parts = ps; source = source } ≡ t)
has_adjacent_ok source ps t h = elim (Bool-cases (has_adjacent ps)) [
  | inl e ↦ absurd (ground (arith, e))
  | inr e ↦ (e, ok-injective (rw e at h))
]

parse-IsTemplate : (source : Str) (t : UriTemplate) → parse source ≡ ok t → IsTemplate source t
unfolding parse
parse-IsTemplate source t h =
    elim (Result-cases (parse_parts (suc (length source)) source source)) [
      | inr (x, e) ↦ absurd (ground (arith, e))
      | inl (ps, e) ↦
          let it = has_adjacent_ok source ps t (
            sym (
              ap
                (λ r. r >>= λ parts.
                  if has_adjacent parts
                  then err (adjacent source)
                  else ok (record { parts = parts; source = source }))
                e)
            ∙ h) in
          let (printed, proper) = parse_parts-Proper (suc (length source)) source source ps e in
          subst (IsTemplate source) it.1
            record { proper = proper; separated = it.0; printed = printed; kept = refl }
    ]

IsTemplate-parse : (source : Str) (t : UriTemplate) → IsTemplate source t → parse source ≡ ok t
unfolding parse
IsTemplate-parse source t p =
    let enough : length (print t.parts) < suc (length source) =
      omega (arith, ap length p.printed) in
    let parts : parse_parts (suc (length source)) source source ≡ ok t.parts =
      subst (λ s. parse_parts (suc (length source)) source s ≡ ok t.parts) p.printed
        (parse_parts-print (suc (length source)) source t.parts enough p.proper) in
    let with_source : Str → UriTemplate = λ text. record { parts = t.parts; source = text } in
    let same : with_source source ≡ with_source t.source = ap with_source (sym p.kept) in
    rw parts (rw p.separated (ap ok same))

-- A text parses to a template exactly when the template keeps the text as its source, its parts
-- are written as that text, its literals are not empty, open no variable and do not stand side by
-- side, its names are valid and no two variables are adjacent.
pub parse-eq-ok : (source : Str) (t : UriTemplate) → (parse source ≡ ok t) ↔ IsTemplate source t
parse-eq-ok source t = (parse-IsTemplate source t, IsTemplate-parse source t)
