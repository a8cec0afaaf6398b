-- ===== src/Cache/Policy/Probation.antt =====
-- crates/ikigai-core/src/cache.rs: the victims of `ScanResistant`, on probation or protected.
use mathlib.Core.List.{append-nil}
use ikigai_core.Prelude.{
  ℕ, zero, suc, ◌<◌, ◌≡◌, refl, Bool, true, false, List, [], ◌∷◌, ◌++◌, Option, none, some, length,
  length-append, get_elem?, arith, Bool-cases, inl, inr, any,
}
use ikigai_core.Cache.Entry.{EntryFacts}
use ikigai_core.Cache.Policy.Least.{get_elem?-append_left, get_elem?-append_middle, extend_seen}
use ikigai_core.Cache.Policy.Lawful.{IsLawful}
use ikigai_core.Cache.Policy.ScanResistant.{
  Settings, least_kept, is_protected, is_probationary, used_before, newest_use, served_less,
  protected_total, protected_over, protected_victim, scan_victim, scan_resistant,
}

-- The answer names the place of a resident that passes the test.
pub record Picks (kept : EntryFacts → Bool) (resident : List EntryFacts) (answer : Option ℕ)
    : Type 0 where
  pub place : ℕ
  pub named : answer ≡ some place
  pub chosen : EntryFacts
  pub at_place : get_elem? resident place ≡ some chosen
  pub passes : kept chosen ≡ true

pub place-lt {ℓ} :
    {A : Type ℓ} (xs : List A) (i : ℕ) (x : A) → get_elem? xs i ≡ some x → i < length xs
place-lt [] i x h = absurd (ground arith)
place-lt (y ∷ ys) zero x h = omega arith
place-lt (y ∷ ys) (suc i) x h = omega (arith, place-lt ys i x h)

module _ (less : EntryFacts → EntryFacts → Bool) (kept : EntryFacts → Bool) where
  longer : (seen : List EntryFacts) (x : EntryFacts) → length (seen ++ x ∷ []) ≡ suc (length seen)
  longer seen x = omega (arith, length-append {0} seen (x ∷ []))

  -- With a best one so far, its place is found in the end, or that of a better one.
  least_kept-Picks_best :
      (seen xs : List EntryFacts) (best : ℕ × EntryFacts)
      → get_elem? seen best.0 ≡ some best.1
      → kept best.1 ≡ true
      → Picks kept (seen ++ xs) (least_kept less kept (length seen) (some best) xs)
  unfolding least_kept
  least_kept-Picks_best seen [] best p q =
      rw append-nil
        (record { place = best.0; named = refl; chosen = best.1; at_place = p; passes = q })
  least_kept-Picks_best seen (x ∷ xs) best p q =
      let still = get_elem?-append_left seen (x ∷ []) best.0 best.1 p in
      elim (Bool-cases (kept x)) [
        | inr skipped ↦ rw skipped (
            rw (extend_seen seen x xs, longer) at
              (least_kept-Picks_best (seen ++ x ∷ []) xs best still q))
        | inl taken ↦ elim (Bool-cases (less x best.1)) [
          | inl lower ↦
              rw (taken, lower)
                (rw (extend_seen seen x xs, longer) at
                  (least_kept-Picks_best (seen ++ x ∷ []) xs (length seen, x)
                    (get_elem?-append_middle seen [] x) taken))
          | inr higher ↦
              rw (taken, higher)
                (rw (extend_seen seen x xs, longer) at
                  (least_kept-Picks_best (seen ++ x ∷ []) xs best still q))
        ]
      ]

  least_kept-Picks_from :
      (seen xs : List EntryFacts)
      → any kept xs ≡ true
      → Picks kept (seen ++ xs) (least_kept less kept (length seen) none xs)
  unfolding least_kept
  least_kept-Picks_from seen [] h = absurd (ground arith)
  least_kept-Picks_from seen (x ∷ xs) h = elim (Bool-cases (kept x)) [
    | inl taken ↦ rw taken (
        rw (extend_seen seen x xs, longer) at
          (least_kept-Picks_best (seen ++ x ∷ []) xs (length seen, x)
            (get_elem?-append_middle seen [] x) taken))
    | inr skipped ↦ rw skipped (
        rw (extend_seen seen x xs, longer) at
          (least_kept-Picks_from (seen ++ x ∷ []) xs (ground (arith, skipped))))
  ]

  least_kept-Picks :
      (resident : List EntryFacts)
      → any kept resident ≡ true
      → Picks kept resident (least_kept less kept 0 none resident)
  least_kept-Picks resident h = least_kept-Picks_from [] resident h

  least_kept-none :
      (i : ℕ) (resident : List EntryFacts)
      → any kept resident ≡ false
      → least_kept less kept i none resident ≡ none
  unfolding least_kept
  least_kept-none i [] h = refl
  least_kept-none i (x ∷ xs) h = elim (Bool-cases (kept x)) [
    | inl taken ↦ absurd (ground (arith, taken))
    | inr skipped ↦ rw skipped (least_kept-none (suc i) xs (ground (arith, skipped)))
  ]

protected_total_none :
    (resident : List EntryFacts) (total : ℕ × ℕ)
    → any is_protected resident ≡ false
    → protected_total total resident ≡ total
unfolding protected_total
protected_total_none [] total h = refl
protected_total_none (x ∷ xs) total h = elim (Bool-cases (is_protected x)) [
  | inl yes_it_is ↦ absurd (ground (arith, yes_it_is))
  | inr fresh ↦ rw fresh (protected_total_none xs total (ground (arith, fresh)))
]

module _ (settings : Settings) where
  any-protected_over :
      (resident : List EntryFacts)
      → protected_over settings resident ≡ true
      → any is_protected resident ≡ true
  unfolding protected_over
  any-protected_over resident over = elim (Bool-cases (any is_protected resident)) [
    | inl there_is ↦ there_is
    | inr there_is_none ↦
        absurd (ground (arith, over, protected_total_none resident (0, 0) there_is_none))
  ]

  protected_victim-Picks :
      (resident : List EntryFacts)
      → any is_protected resident ≡ true
      → Picks is_protected resident (protected_victim settings resident)
  unfolding protected_victim
  protected_victim-Picks resident h =
      least_kept-Picks (served_less (newest_use resident)) is_protected resident h

  -- While the protected entries keep to their share of the bound and some entry is on probation,
  -- the victim of the scan-resistant policy is a resident that has not been served since it was
  -- stored.
  pub scan_victim-Picks :
      (resident : List EntryFacts)
      → protected_over settings resident ≡ false
      → any is_probationary resident ≡ true
      → Picks is_probationary resident (scan_victim settings resident)
  unfolding scan_victim
  scan_victim-Picks resident fine there_is =
      let p = least_kept-Picks used_before is_probationary resident there_is in
      rw (p.named, fine, scan_victim)
        (record {
          place = p.place;
          named = refl;
          chosen = p.chosen;
          at_place = p.at_place;
          passes = p.passes;
        })

  both_ways :
      (x : EntryFacts) (xs : List EntryFacts)
      → any is_probationary (x ∷ xs) ≡ false
      → any is_protected (x ∷ xs) ≡ true
  both_ways x xs h = ground arith

  scan_victim-some :
      (x : EntryFacts) (xs : List EntryFacts)
      → (i : ℕ) × (scan_victim settings (x ∷ xs) ≡ some i) × (i < length (x ∷ xs))
  unfolding scan_victim
  scan_victim-some x xs = elim (Bool-cases (any is_probationary (x ∷ xs))) [
    | inl fresh ↦
        let p = least_kept-Picks used_before is_probationary (x ∷ xs) fresh in
        elim (Bool-cases (protected_over settings (x ∷ xs))) [
          | inr fine ↦ (
            p.place,
            rw (p.named, fine, scan_victim) refl,
            place-lt (x ∷ xs) p.place p.chosen p.at_place,
          )
          | inl over ↦
              let q = protected_victim-Picks (x ∷ xs) (any-protected_over (x ∷ xs) over) in
              (
                q.place,
                rw (p.named, over, scan_victim) q.named,
                place-lt (x ∷ xs) q.place q.chosen q.at_place,
              )
        ]
    | inr served ↦
        let q = protected_victim-Picks (x ∷ xs) (both_ways x xs served) in
        (
          q.place,
          rw (least_kept-none used_before is_probationary 0 (x ∷ xs) served, scan_victim) q.named,
          place-lt (x ∷ xs) q.place q.chosen q.at_place,
        )
  ]

  -- The scan-resistant policy admits only a body that fits its bound, and names a resident as the
  -- victim wherever there is one.
  pub scan_resistant-IsLawful : IsLawful (scan_resistant settings)
  scan_resistant-IsLawful = record {
    fits = λ sketch facts e. ground arith;
    chooses = λ sketch x xs. scan_victim-some x xs;
  }
