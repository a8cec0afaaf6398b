-- ===== src/Cache/Policy/Least.antt =====
-- crates/ikigai-core/src/cache.rs: `argmin`, and the victims that it picks.
use mathlib.Core.List.{append-nil}
use ikigai_core.Prelude.{
  subst, ℕ, zero, suc, ◌≡◌, refl, ap, true, false, nat_eq, List, [], ◌∷◌, ◌++◌, some, length,
  get_elem?, arith, Bool-cases, inl, inr, All, All-append, length-append, of_some,
}
use ikigai_core.Cache.Entry.{EntryFacts}
use ikigai_core.Cache.Policy.{
  argmin_from, argmin, score_lt, lru_victim, fifo_victim, by_last_used, by_stored,
}

pub get_elem?-append_left {ℓ} :
    {A : Type ℓ} (xs ys : List A) (i : ℕ) (v : A)
    → get_elem? xs i ≡ some v
    → get_elem? (xs ++ ys) i ≡ some v
get_elem?-append_left [] ys i v h = absurd (ground arith)
get_elem?-append_left (x ∷ xs) ys zero v h = h
get_elem?-append_left (x ∷ xs) ys (suc i) v h = get_elem?-append_left xs ys i v h

pub get_elem?-append_middle {ℓ} :
    {A : Type ℓ} (xs ys : List A) (v : A) → get_elem? (xs ++ v ∷ ys) (length xs) ≡ some v
get_elem?-append_middle [] ys v = refl
get_elem?-append_middle (x ∷ xs) ys v = get_elem?-append_middle xs ys v

pub extend_seen {ℓ} :
    {A : Type ℓ} (seen : List A) (x : A) (xs : List A) → (seen ++ x ∷ []) ++ xs ≡ seen ++ x ∷ xs
extend_seen [] x xs = refl
extend_seen (y ∷ seen) x xs = ap (λ l. y ∷ l) (extend_seen seen x xs)

module _ (score : EntryFacts → ℕ × ℕ) where
  abbrev pub NotLess : ℕ × ℕ → EntryFacts → Type 0
  NotLess least x = score_lt (score x) least ≡ false

  not_less_trans :
      (a b c : ℕ × ℕ) → score_lt a b ≡ true → score_lt c b ≡ false → score_lt c a ≡ false
  not_less_trans a b c p q = ground arith

  not_less_refl : (a : ℕ × ℕ) → score_lt a a ≡ false
  not_less_refl a = ground arith

  lower-NotLess :
      (a b : EntryFacts) (xs : List EntryFacts)
      → score_lt (score a) (score b) ≡ true
      → All (NotLess (score b)) xs
      → All (NotLess (score a)) xs
  lower-NotLess a b [] p q = tt
  lower-NotLess a b (x ∷ xs) p q =
      (not_less_trans (score a) (score b) (score x) p q.0, lower-NotLess a b xs p q.1)

  -- At the place stands a resident that none scores below.
  pub record IsLeast (resident : List EntryFacts) (i : ℕ) : Type 0 where
    pub chosen : EntryFacts
    pub at_place : get_elem? resident i ≡ some chosen
    pub least : All (NotLess (score chosen)) resident

  argmin_from-IsLeast :
      (seen xs : List EntryFacts) (best : ℕ × EntryFacts)
      → get_elem? seen best.0 ≡ some best.1
      → All (NotLess (score best.1)) seen
      → IsLeast (seen ++ xs) (argmin_from score (length seen) best xs)
  unfolding argmin_from
  argmin_from-IsLeast seen [] best p q =
      rw append-nil (record { chosen = best.1; at_place = p; least = q })
  argmin_from-IsLeast seen (x ∷ xs) best p q =
      let longer : length (seen ++ x ∷ []) ≡ suc (length seen) =
        omega (arith, length-append {0} seen (x ∷ [])) in
      elim (Bool-cases (score_lt (score x) (score best.1))) [
        | inl less ↦ rw less (
            rw (extend_seen seen x xs, longer) at
              (argmin_from-IsLeast (seen ++ x ∷ []) xs (length seen, x)
                (get_elem?-append_middle seen [] x)
                (All-append (NotLess (score x)) seen (x ∷ []) (lower-NotLess x best.1 seen less q)
                  (not_less_refl (score x), tt))))
        | inr more ↦ rw more (
            rw (extend_seen seen x xs, longer) at
              (argmin_from-IsLeast (seen ++ x ∷ []) xs best
                (get_elem?-append_left seen (x ∷ []) best.0 best.1 p)
                (All-append (NotLess (score best.1)) seen (x ∷ []) q (more, tt))))
      ]

  pub argmin-IsLeast :
      (resident : List EntryFacts) (i : ℕ) → argmin resident score ≡ some i → IsLeast resident i
  unfolding argmin
  argmin-IsLeast [] i e = absurd (ground arith)
  argmin-IsLeast (x ∷ xs) i e =
      subst (λ (j : ℕ). IsLeast (x ∷ xs) j) (of_some e)
        (argmin_from-IsLeast (x ∷ []) xs (0, x) refl (not_less_refl (score x), tt))

-- The resident that the least-recently-used policy names was used no later than any other.
pub lru_victim-IsLeast :
    (resident : List EntryFacts) (i : ℕ)
    → lru_victim resident ≡ some i
    → IsLeast by_last_used resident i
unfolding lru_victim
lru_victim-IsLeast resident i e = argmin-IsLeast by_last_used resident i e

-- The resident that the first-in-first-out policy names was stored no later than any other.
pub fifo_victim-IsLeast :
    (resident : List EntryFacts) (i : ℕ)
    → fifo_victim resident ≡ some i
    → IsLeast by_stored resident i
unfolding fifo_victim
fifo_victim-IsLeast resident i e = argmin-IsLeast by_stored resident i e
