-- ===== src/Alias/Chain.antt =====
-- crates/ikigai-core/src/alias.rs: a walk against the chains of rewrites that a table allows.
use ikigai_core.Prelude.{
  ℕ, zero, suc, ◌<◌, Str, nat_eq, list_eq, option_eq, ◌≡◌, refl, sym, ap, ◌∙◌, ◌≢◌, ◌↔◌, inl, inr,
  true, false, List, [], ◌∷◌, ◌++◌, Option, none, some, length, arith, Bool-cases, Option-cases,
}
use ikigai_core.Prelude.{
  subst, ℕ, zero, suc, ◌<◌, Str, nat_eq, list_eq, option_eq, ◌≡◌, refl, sym, ap, ◌∙◌, ◌≢◌, ◌↔◌, inl,
  inr, true, false, List, [], ◌∷◌, ◌++◌, Option, none, some, length, arith, Bool-cases,
  Option-cases,
}
use ikigai_core.Prelude.{
  ℕ, zero, suc, ◌<◌, Str, nat_eq, list_eq, option_eq, ◌≡◌, refl, sym, ap, ◌∙◌, ◌≢◌, ◌↔◌, inl, inr,
  true, false, List, [], ◌∷◌, ◌++◌, Option, none, some, length, arith, Bool-cases, Option-cases,
}
use mathlib.Core.List.{append-nil, append_assoc}
use ikigai_core.Capability.Principal.{parse_iri}
use ikigai_core.Alias.Table.{AliasTable, step}
use ikigai_core.Alias.Walk.{
  AliasHop, Canonical, direct, aliased, kernel_op, contains_text, is_empty_list, terminated,
  walk_from, preview,
}

module _ (oxiri : Str → Option Str) (t : AliasTable) where
  -- The names that a chain goes through, and the rules that it goes by.
  pub data Rewrites : Str → List Str → List ℕ → Str → Type 0 where
    stop : (name : Str) → Rewrites name [] [] name
    follow :
        (name next last : Str) (index : ℕ) (names : List Str) (indices : List ℕ)
        → step oxiri t name ≡ some (index, next)
        → oxiri next ≡ none
        → Rewrites next names indices last
        → Rewrites name (next ∷ names) (index ∷ indices) last

  -- No name of the second list stands before itself in the two.
  abbrev pub Fresh : List Str → List Str → Type 0
  Fresh seen [] = Unit {0}
  Fresh seen (n ∷ names) = (contains_text seen n ≡ false) × Fresh (seen ++ (n ∷ [])) names

  -- A chain from `current`, after the names of `trail` and the rules of `applied`.
  pub record Follows (target : Str) (left : ℕ) (current : Str) (trail : List Str) (applied : List ℕ)
      (hop : AliasHop) : Type 0 where
    pub names : List Str
    pub indices : List ℕ
    pub path : Rewrites current names indices hop.canonical
    pub ended : step oxiri t hop.canonical ≡ none
    pub fresh : Fresh trail names
    pub short : length indices < left
    pub listed : hop.rules ≡ applied ++ indices
    pub moved : is_empty_list hop.rules ≡ false
    pub from_target : hop.logical ≡ target

  aliased-injective : {a b : AliasHop} → ◌≡◌ {A = Canonical} (aliased a) (aliased b) → a ≡ b
  aliased-injective h = cc

  module _ (target : Str) where
    terminated-Follows :
        (left : ℕ) (current : Str) (trail : List Str) (applied : List ℕ) (hop : AliasHop)
        → step oxiri t current ≡ none
        → terminated oxiri t target current applied ≡ aliased hop
        → Follows target (suc left) current trail applied hop
    unfolding terminated
    terminated-Follows left current trail [] hop e h = absurd (ground arith)
    terminated-Follows left current trail (i ∷ applied) hop e h =
        subst (λ p. Follows target (suc left) current trail (i ∷ applied) p) (aliased-injective h)
          record {
            names = [];
            indices = [];
            path = stop current;
            ended = e;
            fresh = tt;
            short = omega arith;
            listed = sym (append-nil (i ∷ applied));
            moved = refl;
            from_target = refl;
          }

    -- A round that goes on.
    module _ (left : ℕ) (current : Str) (trail : List Str) (applied : List ℕ) (i : ℕ) (next : Str)
        (e : step oxiri t current ≡ some (i, next)) where
      round_moves :
          oxiri next ≡ none
          → contains_text trail next ≡ false
          → walk_from oxiri t target (suc left) current trail applied
            ≡ walk_from oxiri t target left next (trail ++ (next ∷ [])) (applied ++ (i ∷ []))
      unfolding walk_from parse_iri
      round_moves p q = ground (arith, e)

      round_refuses_text :
          (d : Str) (hop : AliasHop)
          → oxiri next ≡ some d
          → walk_from oxiri t target (suc left) current trail applied ≢ aliased hop
      unfolding walk_from parse_iri
      round_refuses_text d hop p h = ground (arith, e)

      round_refuses_cycle :
          (hop : AliasHop)
          → oxiri next ≡ none
          → contains_text trail next ≡ true
          → walk_from oxiri t target (suc left) current trail applied ≢ aliased hop
      unfolding walk_from parse_iri
      round_refuses_cycle hop p q h = ground (arith, e)

      -- What follows the round follows from before it.
      Follows-round :
          (hop : AliasHop)
          → oxiri next ≡ none
          → contains_text trail next ≡ false
          → Follows target left next (trail ++ (next ∷ [])) (applied ++ (i ∷ [])) hop
          → Follows target (suc left) current trail applied hop
      Follows-round hop p q f = record {
        names = next ∷ f.names;
        indices = i ∷ f.indices;
        path = follow current next hop.canonical i f.names f.indices e p f.path;
        ended = f.ended;
        fresh = (q, f.fresh);
        short = omega (arith, f.short);
        listed = f.listed ∙ append_assoc applied (i ∷ []) f.indices;
        moved = f.moved;
        from_target = f.from_target;
      }

    walk_from-Follows :
        (left : ℕ) (current : Str) (trail : List Str) (applied : List ℕ) (hop : AliasHop)
        → walk_from oxiri t target left current trail applied ≡ aliased hop
        → Follows target left current trail applied hop
    unfolding walk_from
    walk_from-Follows zero current trail applied hop h = absurd (ground arith)
    walk_from-Follows (suc left) current trail applied hop h =
        elim (Option-cases (step oxiri t current)) [
          | inl e ↦ terminated-Follows left current trail applied hop e (ground (arith, e))
          | inr ((i, next), e) ↦ elim (Option-cases (oxiri next)) [
            | inr (d, p) ↦ absurd (round_refuses_text left current trail applied i next e d hop p h)
            | inl p ↦ elim (Bool-cases (contains_text trail next)) [
              | inl q ↦ absurd (round_refuses_cycle left current trail applied i next e hop p q h)
              | inr q ↦ Follows-round left current trail applied i next e hop p q (
                  walk_from-Follows left next (trail ++ (next ∷ [])) (applied ++ (i ∷ [])) hop
                    (sym (round_moves left current trail applied i next e p q) ∙ h))
            ]
          ]
        ]

    abbrev hop_to : Str → List ℕ → Canonical
    hop_to last rules = aliased (record { logical = target; canonical = last; rules = rules })

    walk_ends :
        (left : ℕ) (name : Str) (trail : List Str) (applied : List ℕ)
        → step oxiri t name ≡ none
        → is_empty_list applied ≡ false
        → walk_from oxiri t target (suc left) name trail applied ≡ hop_to name applied
    unfolding walk_from terminated
    walk_ends left name trail applied e m = ground (arith, e, m)

    path-walk_from :
        (left : ℕ) (current : Str) (trail : List Str) (applied : List ℕ) (names : List Str)
        (indices : List ℕ) (last : Str)
        → Rewrites current names indices last
        → step oxiri t last ≡ none
        → Fresh trail names
        → length indices < left
        → is_empty_list (applied ++ indices) ≡ false
        → walk_from oxiri t target left current trail applied ≡ hop_to last (applied ++ indices)
    path-walk_from zero current trail applied names indices last r e f s m = absurd (omega arith)
    path-walk_from (suc left) _ trail applied _ _ _ (stop name) e f s m =
        walk_ends left name trail applied e
          (subst (λ l. is_empty_list l ≡ false) (append-nil applied) m)
        ∙ ap (hop_to name) (sym (append-nil applied))
    path-walk_from (suc left) _ trail applied _ _ _ (follow name next last i names indices e' p r) e
          f s m =
        let listed = append_assoc applied (i ∷ []) indices in
        round_moves left name trail applied i next e' p f.0
        ∙ path-walk_from left next (trail ++ (next ∷ [])) (applied ++ (i ∷ [])) names indices last r
            e f.1 (omega arith) (subst (λ l. is_empty_list l ≡ false) (sym listed) m)
        ∙ ap (hop_to last) listed

    Follows-walk_from :
        (left : ℕ) (current : Str) (trail : List Str) (applied : List ℕ) (hop : AliasHop)
        → Follows target left current trail applied hop
        → walk_from oxiri t target left current trail applied ≡ aliased hop
    Follows-walk_from left current trail applied hop f =
        let named : Str → List ℕ → Canonical = λ name rules.
          aliased (record { logical = name; canonical = hop.canonical; rules = rules }) in
        path-walk_from left current trail applied f.names f.indices hop.canonical f.path f.ended
          f.fresh f.short (subst (λ l. is_empty_list l ≡ false) f.listed f.moved)
        ∙ (λ k. named (sym f.from_target k) (sym f.listed k))

    -- A whole walk.
    abbrev pub Chained : AliasHop → Type 0
    Chained hop = (kernel_op target ≡ none) × Follows target t.max_hops target (target ∷ []) [] hop

    preview-Chained : (hop : AliasHop) → preview oxiri t target ≡ aliased hop → Chained hop
    unfolding preview
    preview-Chained hop h = elim (Option-cases (kernel_op target)) [
      | inl e ↦ (e, walk_from-Follows t.max_hops target (target ∷ []) [] hop (ground (arith, e)))
      | inr (op, e) ↦ absurd (ground (arith, e))
    ]

    Chained-preview : (hop : AliasHop) → Chained hop → preview oxiri t target ≡ aliased hop
    unfolding preview
    Chained-preview hop (e, f) =
        let walked = Follows-walk_from t.max_hops target (target ∷ []) [] hop f in
        ground (arith, e, walked)

    -- A walk over a table ends at a new name exactly when the name asked for is not reserved,
    -- there is a chain of rewrites from it, each by the first matching rule and to a text that
    -- parses, along names that are all different, to a name that no rule matches, and it has at
    -- least one rewrite and fewer than the budget of hops.
    pub preview-eq-aliased : (hop : AliasHop) → (preview oxiri t target ≡ aliased hop) ↔ Chained hop
    preview-eq-aliased hop = (preview-Chained hop, Chained-preview hop)

  walk_rests :
      (left : ℕ) (name : Str) (trail : List Str)
      → step oxiri t name ≡ none
      → 0 < left
      → walk_from oxiri t name left name trail [] ≡ direct
  unfolding walk_from terminated
  walk_rests zero name trail e h = absurd (omega arith)
  walk_rests (suc left) name trail e h = ground (arith, e)

  -- The name that a walk ends at is resolved as it is by another walk over the same table.
  pub preview-canonical :
      (target : Str) (hop : AliasHop)
      → preview oxiri t target ≡ aliased hop
      → preview oxiri t hop.canonical ≡ direct
  unfolding preview walk_from terminated
  preview-canonical target hop h =
      let (_, f) = (preview-eq-aliased target hop).0 h in
      elim (Option-cases (kernel_op hop.canonical)) [
        | inr (op, e) ↦ ground (arith, e)
        | inl e ↦
            let rests =
              walk_rests t.max_hops hop.canonical (hop.canonical ∷ []) f.ended
                (omega (arith, f.short)) in
            ground (arith, e, rests)
      ]
