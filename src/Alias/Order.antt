-- ===== src/Alias/Order.antt =====
-- crates/ikigai-core/src/alias.rs: the order of the rules, and which of them rewrites a name.
use ikigai_core.Prelude.{
  of_some, subst, ℕ, zero, suc, ◌+◌, Str, nat_eq, list_eq, option_eq, ◌≡◌, refl, sym, ap, ◌∙◌, ◌≢◌,
  ◌⊎◌, inl, inr, true, List, [], ◌∷◌, Option, none, some, All, length, is_some, arith, Option-cases,
  str_cmp, str_cmp_eq, str_cmp_refl,
}
use ikigai_core.Prelude.{
  ℕ, zero, suc, ◌+◌, Str, nat_eq, list_eq, option_eq, ◌≡◌, refl, sym, ap, ◌∙◌, ◌≢◌, ◌⊎◌, inl, inr,
  true, List, [], ◌∷◌, Option, none, some, All, length, is_some, arith, Option-cases, str_cmp,
  str_cmp_eq, str_cmp_refl,
}
use ikigai_core.Prelude.{
  ℕ, zero, suc, ◌+◌, Str, nat_eq, list_eq, option_eq, ◌≡◌, refl, sym, ap, ◌∙◌, ◌≢◌, ◌⊎◌, inl, inr,
  true, List, [], ◌∷◌, Option, none, some, All, length, is_some, arith, Option-cases, str_cmp,
  str_cmp_eq, str_cmp_refl,
}
use Prim.Native.Nat.{compare, Ordering}
use ikigai_core.Prelude.{get_elem?, Lt_trans, All-mono}
use ikigai_core.Grammar.Template.{utf8}
use ikigai_core.Alias.Table.{
  AliasRule, AliasTable, match_kind, keyword, then_with, precedence, insert_sorted, insert, apply,
  step_from, step,
}

abbrev pub Precedes : AliasRule → AliasRule → Type 0
Precedes a b = precedence a b ≡ Ordering.lt

-- A comparison that orders: `lt` goes on through `lt` and `eq`.
record IsOrder {ℓ} {A : Type ℓ} (cmp : A → A → Ordering) : Type ℓ where
  self : (a : A) → cmp a a ≡ Ordering.eq
  lt_lt : (a b c : A) → cmp a b ≡ Ordering.lt → cmp b c ≡ Ordering.lt → cmp a c ≡ Ordering.lt
  lt_eq : (a b c : A) → cmp a b ≡ Ordering.lt → cmp b c ≡ Ordering.eq → cmp a c ≡ Ordering.lt
  eq_lt : (a b c : A) → cmp a b ≡ Ordering.eq → cmp b c ≡ Ordering.lt → cmp a c ≡ Ordering.lt
  eq_eq : (a b c : A) → cmp a b ≡ Ordering.eq → cmp b c ≡ Ordering.eq → cmp a c ≡ Ordering.eq

size-IsOrder : {A : Type 0} (key : A → ℕ) → IsOrder (λ a b. compare (key b) (key a))
size-IsOrder key = record {
  self = λ a. ground arith;
  lt_lt = λ a b c h k. ground arith;
  lt_eq = λ a b c h k. ground arith;
  eq_lt = λ a b c h k. ground arith;
  eq_eq = λ a b c h k. ground arith;
}

text-IsOrder : {A : Type 0} (key : A → Str) → IsOrder (λ a b. str_cmp (key a) (key b))
text-IsOrder key = record {
  self = λ a. str_cmp_refl (key a);
  lt_lt = λ a b c h k. Lt_trans (key a) (key b) (key c) h k;
  lt_eq = λ a b c h k. rw (← str_cmp_eq (key b) (key c) k) h;
  eq_lt = λ a b c h k. rw (str_cmp_eq (key a) (key b) h) k;
  eq_eq = λ a b c h k. rw (str_cmp_eq (key a) (key b) h) k;
}

then_with-lt :
    (a b : Ordering)
    → then_with a b ≡ Ordering.lt
    → (a ≡ Ordering.lt) ⊎ (a ≡ Ordering.eq) × (b ≡ Ordering.lt)
unfolding then_with
then_with-lt Ordering.lt b h = inl refl
then_with-lt Ordering.eq b h = inr (refl, h)
then_with-lt Ordering.gt b h = absurd (ground arith)

then_with-eq :
    (a b : Ordering) → then_with a b ≡ Ordering.eq → (a ≡ Ordering.eq) × (b ≡ Ordering.eq)
unfolding then_with
then_with-eq Ordering.lt b h = absurd (ground arith)
then_with-eq Ordering.eq b h = (refl, h)
then_with-eq Ordering.gt b h = absurd (ground arith)

module _ {A : Type 0} (f g : A → A → Ordering) (p : IsOrder f) (q : IsOrder g) where
  then_with-IsOrder : IsOrder (λ a b. then_with (f a b) (g a b))
  unfolding then_with
  then_with-IsOrder = record {
    self = λ a. rw (p.self a) (q.self a);
    lt_lt = λ a b c h k. elim (then_with-lt (f a b) (g a b) h) [
      | inl x ↦ elim (then_with-lt (f b c) (g b c) k) [
        | inl y ↦ rw (p.lt_lt a b c x y)
        | inr y ↦ rw (p.lt_eq a b c x y.0)
      ]
      | inr x ↦ elim (then_with-lt (f b c) (g b c) k) [
        | inl y ↦ rw (p.eq_lt a b c x.0 y)
        | inr y ↦ rw (p.eq_eq a b c x.0 y.0) (q.lt_lt a b c x.1 y.1)
      ]
    ];
    lt_eq = λ a b c h k.
        let (k1, k2) = then_with-eq (f b c) (g b c) k in
        elim (then_with-lt (f a b) (g a b) h) [
          | inl x ↦ rw (p.lt_eq a b c x k1)
          | inr x ↦ rw (p.eq_eq a b c x.0 k1) (q.lt_eq a b c x.1 k2)
        ];
    eq_lt = λ a b c h k.
        let (h1, h2) = then_with-eq (f a b) (g a b) h in
        elim (then_with-lt (f b c) (g b c) k) [
          | inl y ↦ rw (p.eq_lt a b c h1 y)
          | inr y ↦ rw (p.eq_eq a b c h1 y.0) (q.eq_lt a b c h2 y.1)
        ];
    eq_eq = λ a b c h k.
        let (h1, h2) = then_with-eq (f a b) (g a b) h in
        let (k1, k2) = then_with-eq (f b c) (g b c) k in
        rw (p.eq_eq a b c h1 k1) (q.eq_eq a b c h2 k2);
  }

precedence-IsOrder : IsOrder precedence
unfolding precedence
precedence-IsOrder =
    then_with-IsOrder (λ a b. compare (length (utf8 b.from)) (length (utf8 a.from)))
      (λ a b.
        then_with (str_cmp (keyword (match_kind a)) (keyword (match_kind b)))
          (str_cmp a.from b.from))
      (size-IsOrder (λ r. length (utf8 r.from)))
      (then_with-IsOrder (λ a b. str_cmp (keyword (match_kind a)) (keyword (match_kind b)))
        (λ a b. str_cmp a.from b.from) (text-IsOrder (λ r. keyword (match_kind r)))
        (text-IsOrder (λ r. r.from)))

-- No rule stands behind one that it precedes.
abbrev pub IsSorted : List AliasRule → Type 0
IsSorted [] = Unit {0}
IsSorted (r ∷ rules) = All (λ s. precedence s r ≢ Ordering.lt) rules × IsSorted rules

not_both : (a b : AliasRule) → Precedes a b → precedence b a ≢ Ordering.lt
not_both a b h k =
    let loop : precedence a a ≡ Ordering.lt = precedence-IsOrder.lt_lt a b a h k in
    let self = precedence-IsOrder.self a in ground (arith, loop, self)

Ordering-cases : (o : Ordering) → (o ≡ Ordering.lt) ⊎ (o ≢ Ordering.lt)
Ordering-cases Ordering.lt = inl refl
Ordering-cases Ordering.eq = inr (λ h. ground arith)
Ordering-cases Ordering.gt = inr (λ h. ground arith)

insert_before :
    (r s : AliasRule) (rules : List AliasRule)
    → Precedes r s
    → insert_sorted r (s ∷ rules) ≡ r ∷ s ∷ rules
unfolding insert_sorted
insert_before r s rules h = ground (arith, h)

insert_behind :
    (r s : AliasRule) (rules : List AliasRule)
    → precedence r s ≢ Ordering.lt
    → insert_sorted r (s ∷ rules) ≡ s ∷ insert_sorted r rules
unfolding insert_sorted
insert_behind r s rules h = step_by (precedence r s) h
  where
    step_by :
        (o : Ordering)
        → o ≢ Ordering.lt
        → (elim o [ Ordering.lt ↦ r ∷ s ∷ rules | _ ↦ s ∷ insert_sorted r rules ])
          ≡ s ∷ insert_sorted r rules
    step_by Ordering.lt k = absurd (k refl)
    step_by Ordering.eq k = refl
    step_by Ordering.gt k = refl

All-insert_sorted :
    (P : AliasRule → Type 0) (r : AliasRule) (rules : List AliasRule)
    → P r
    → All P rules
    → All P (insert_sorted r rules)
unfolding insert_sorted
All-insert_sorted P r [] h k = (h, tt)
All-insert_sorted P r (s ∷ rules) h k = elim (Ordering-cases (precedence r s)) [
  | inl e ↦ subst (All P) (sym (insert_before r s rules e)) (h, k)
  | inr e ↦ subst (All P) (sym (insert_behind r s rules e)) (k.0, All-insert_sorted P r rules h k.1)
]

insert_sorted-IsSorted :
    (r : AliasRule) (rules : List AliasRule) → IsSorted rules → IsSorted (insert_sorted r rules)
unfolding insert_sorted
insert_sorted-IsSorted r [] h = (tt, tt)
insert_sorted-IsSorted r (s ∷ rules) h = elim (Ordering-cases (precedence r s)) [
  | inl e ↦
      let behind : All (λ x. precedence x r ≢ Ordering.lt) rules =
        All-mono (λ x k j. k (precedence-IsOrder.lt_lt x r s j e)) rules h.0 in
      subst IsSorted (sym (insert_before r s rules e)) ((not_both r s e, behind), h)
  | inr e ↦ subst IsSorted (sym (insert_behind r s rules e)) (
    All-insert_sorted (λ x. precedence x s ≢ Ordering.lt) r rules e h.0,
    insert_sorted-IsSorted r rules h.1,
  )
]

-- A rule that is inserted into a table in order leaves no rule behind one that it precedes.
pub insert-IsSorted :
    (t : AliasTable) (r : AliasRule) → IsSorted t.rules → IsSorted (insert t r).rules
unfolding insert
insert-IsSorted t r h = insert_sorted-IsSorted r t.rules h

All-get_elem? :
    (P : AliasRule → Type 0) (rules : List AliasRule) (k : ℕ) (s : AliasRule)
    → All P rules
    → get_elem? rules k ≡ some s
    → P s
All-get_elem? P [] k s h e = absurd (ground arith)
All-get_elem? P (r ∷ rules) zero s h e = subst P (of_some e) h.0
All-get_elem? P (r ∷ rules) (suc k) s h e = All-get_elem? P rules k s h.1 e

module _ (oxiri : Str → Option Str) (name : Str) where
  record Chosen (i : ℕ) (rules : List AliasRule) (j : ℕ) (next : Str) : Type 0 where
    offset : ℕ
    rule : AliasRule
    place : j ≡ i + offset
    there : get_elem? rules offset ≡ some rule
    rewrites : apply oxiri rule name ≡ some next
    first :
        (k : ℕ) (s : AliasRule)
        → get_elem? rules k ≡ some s
        → is_some (apply oxiri s name) ≡ true
        → precedence s rule ≢ Ordering.lt

  step_from-Chosen :
      (i : ℕ) (rules : List AliasRule) (j : ℕ) (next : Str)
      → IsSorted rules
      → step_from oxiri i rules name ≡ some (j, next)
      → Chosen i rules j next
  unfolding step_from
  step_from-Chosen i [] j next h e = absurd (ground arith)
  step_from-Chosen i (r ∷ rules) j next h e = elim (Option-cases (apply oxiri r name)) [
    | inl n ↦
        let it = step_from-Chosen (i + 1) rules j next h.1 (ground (arith, n)) in
        record {
          offset = suc it.offset;
          rule = it.rule;
          place = omega (arith, it.place);
          there = it.there;
          rewrites = it.rewrites;
          first = λ k s. other it.rule it.first n k s;
        }
    | inr (to, n) ↦ record {
      offset = 0;
      rule = r;
      place = ground (arith, n);
      there = refl;
      rewrites = ground (arith, n);
      first = λ k s. mine k s;
    }
  ]
    where
      other :
          (rule : AliasRule)
          → ((k : ℕ) (s : AliasRule)
              → get_elem? rules k ≡ some s
              → is_some (apply oxiri s name) ≡ true
              → precedence s rule ≢ Ordering.lt)
          → apply oxiri r name ≡ none
          → (k : ℕ) (s : AliasRule) → get_elem? (r ∷ rules) k ≡ some s
          → is_some (apply oxiri s name) ≡ true
          → precedence s rule ≢ Ordering.lt
      other rule first n zero s g a p = ground (arith, n)
      other rule first n (suc k) s g a p = first k s g a p

      mine :
          (k : ℕ) (s : AliasRule)
          → get_elem? (r ∷ rules) k ≡ some s
          → is_some (apply oxiri s name) ≡ true
          → precedence s r ≢ Ordering.lt
      mine zero s g a p =
          let self = precedence-IsOrder.self r in
          let same : r ≡ s = of_some g in ground (arith, self, same)
      mine (suc k) s g a p = All-get_elem? (λ x. precedence x r ≢ Ordering.lt) rules k s h.0 g p

  -- In a table in order, the rule that rewrites a name matches it, and no other matching rule
  -- comes before it by length, kind and text.
  pub step-first :
      (t : AliasTable) (i k : ℕ) (next : Str) (r s : AliasRule)
      → IsSorted t.rules
      → step oxiri t name ≡ some (i, next)
      → get_elem? t.rules i ≡ some r
      → get_elem? t.rules k ≡ some s
      → is_some (apply oxiri s name) ≡ true
      → (apply oxiri r name ≡ some next) × (precedence s r ≢ Ordering.lt)
  unfolding step
  step-first t i k next r s h e g g' a =
      let it = step_from-Chosen 0 t.rules i next h e in
      let place : i ≡ it.offset = omega (arith, it.place) in
      let same : it.rule ≡ r = of_some (sym it.there ∙ ap (get_elem? t.rules) (sym place) ∙ g) in
      (
        subst (λ x. apply oxiri x name ≡ some next) same it.rewrites,
        subst (λ x. precedence s x ≢ Ordering.lt) same (it.first k s g' a),
      )
