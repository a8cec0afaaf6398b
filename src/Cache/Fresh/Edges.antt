-- ===== src/Cache/Fresh/Edges.antt =====
-- crates/ikigai-core/src/cache.rs: one pinned edge, beside the generation of its thread.
use ikigai_core.Prelude.{
  ap, ℕ, suc, ◌<◌, ◌≤◌, ◌≡◌, refl, ◌==◌, nat_eq, list_eq, Bool, true, false, List, [], ◌∷◌, length,
  if◌then◌else◌, wrapping_add, u64_mod, arith, inl, inr, All, eq_cases, eq_refl,
}
use ikigai_core.TreeSet.{TreeSet, contains}
use ikigai_core.HashMap
use ikigai_core.HashMap.{HashMap, retain}
use ikigai_core.HashMap.Laws.{get-retain, get-insert}
use ikigai_core.Repr.{Thread}
use ikigai_core.Cache.Entry.{Edge}
use ikigai_core.Cache.State.{
  CacheState, generation_in, generation_of, edges_current, edge_threads, cut_since,
}
use ikigai_core.Cache.Store.{pin}
use ikigai_core.Cache.CutLog.{was_cut, IsLogged, cut_since-was_cut, was_cut_nobody}

-- The pin lags behind the generation or equals it, and equals it only if its thread was not cut
-- since the snapshot.
pub record EdgeIsFresh (h : List Thread) (taken : ℕ) (gens : HashMap Thread ℕ) (e : Edge)
    : Type 0 where
  pub behind : e.1 ≤ generation_in gens e.0
  pub uncut : generation_in gens e.0 ≡ e.1 → was_cut (e.0 ∷ []) taken h ≡ false

abbrev pub Bounded : List Thread → HashMap Thread ℕ → Type 0
Bounded h gens = (t : Thread) → generation_in gens t ≤ length h

pub generation-insert :
    (gens : HashMap Thread ℕ) (t u : Thread) (n : ℕ)
    → generation_in (HashMap.insert t n gens) u ≡ (if t == u then n else generation_in gens u)
unfolding generation_in
generation-insert gens t u n = ground (arith, get-insert gens t u n)

contains_one : (t u : Thread) → contains (t ∷ []) u ≡ (u == t)
unfolding contains
contains_one t u = ground arith

module _ (h : List Thread) (gens : HashMap Thread ℕ) (t : Thread) (fits : suc (length h) < u64_mod)
    (b : Bounded h gens) where
  abbrev bumped : HashMap Thread ℕ
  bumped = HashMap.insert t (wrapping_add (generation_in gens t) 1) gens

  pub cut-Bounded : Bounded (t ∷ h) bumped
  cut-Bounded u = elim (eq_cases t u) [
    | inl same ↦
        ground
          (arith, generation-insert gens t u (wrapping_add (generation_in gens t) 1), same, b t)
    | inr other ↦
        ground
          (arith, generation-insert gens t u (wrapping_add (generation_in gens t) 1), other.1, b u)
  ]

  pub cut-EdgeIsFresh :
      (taken : ℕ) (e : Edge) → EdgeIsFresh h taken gens e → EdgeIsFresh (t ∷ h) taken bumped e
  unfolding was_cut
  cut-EdgeIsFresh taken e f = elim (eq_cases t e.0) [
    | inl same ↦
        let now : generation_in bumped e.0 ≡ suc (generation_in gens e.0) = ground (
          arith,
          generation-insert gens t e.0 (wrapping_add (generation_in gens t) 1),
          same,
          b t,
        ) in
        record {
          behind = omega (arith, f.behind, now);
          uncut = λ q. absurd (omega (arith, f.behind, now, q));
        }
    | inr other ↦
        let now : generation_in bumped e.0 ≡ generation_in gens e.0 =
          ground (
            arith,
            generation-insert gens t e.0 (wrapping_add (generation_in gens t) 1),
            other.1,
          ) in
        record {
          behind = omega (arith, f.behind, now);
          uncut = λ q. ground (arith, now, f.uncut, contains_one e.0 t, other);
        }
  ]

-- Edges pinned now, after the race check.
was_cut_one :
    (ts : TreeSet) (t : Thread) (n : ℕ) (h : List Thread)
    → contains ts t ≡ true
    → was_cut ts n h ≡ false
    → was_cut (t ∷ []) n h ≡ false
unfolding was_cut
was_cut_one ts t n [] c e = refl
was_cut_one ts t n (u ∷ h) c e = elim (eq_cases u t) [
  | inl same ↦ ground (arith, same, was_cut_one ts t n h c, contains_one t u)
  | inr other ↦ ground (arith, other, was_cut_one ts t n h c, contains_one t u)
]

was_cut_cons :
    (t : Thread) (ts : TreeSet) (n : ℕ) (h : List Thread)
    → was_cut (t ∷ []) n h ≡ false
    → was_cut ts n h ≡ false
    → was_cut (t ∷ ts) n h ≡ false
unfolding was_cut contains
was_cut_cons t ts n [] p q = refl
was_cut_cons t ts n (u ∷ h) p q = ground (arith, was_cut_cons t ts n h)

pub was_cut-All :
    (ts : TreeSet) (n : ℕ) (h : List Thread)
    → All (λ t. was_cut (t ∷ []) n h ≡ false) ts
    → was_cut ts n h ≡ false
was_cut-All [] n h a = was_cut_nobody n h
was_cut-All (t ∷ ts) n h a = was_cut_cons t ts n h a.0 (was_cut-All ts n h a.1)

module _ {Error : Type 0} (h : List Thread) (s : CacheState Error) (taken : ℕ) where
  pub uncut_of-cut_since :
      (ts : TreeSet) → IsLogged h s → cut_since s ts taken ≡ false → was_cut ts taken h ≡ false
  uncut_of-cut_since ts l e = ground (arith, cut_since-was_cut h s ts taken l)

  -- What is pinned behind the race check is fresh.
  pub pin-EdgeIsFresh :
      (all ts : TreeSet)
      → was_cut all taken h ≡ false
      → All (λ t. contains all t ≡ true) ts
      → All (EdgeIsFresh h taken s.generations) (pin s ts)
  unfolding pin generation_of
  pin-EdgeIsFresh all [] e a = tt
  pin-EdgeIsFresh all (t ∷ ts) e a = (
    record { behind = omega arith; uncut = λ q. was_cut_one all t taken h a.0 e },
    pin-EdgeIsFresh all ts e a.1,
  )

  pub edge_threads-pin : (ts : TreeSet) → edge_threads (pin s ts) ≡ ts
  unfolding pin edge_threads
  edge_threads-pin [] = refl
  edge_threads-pin (t ∷ ts) = ap (λ l. t ∷ l) (edge_threads-pin ts)

contains_more :
    (t : Thread) (ts us : TreeSet)
    → All (λ u. contains ts u ≡ true) us
    → All (λ u. contains (t ∷ ts) u ≡ true) us
unfolding contains
contains_more t ts [] a = tt
contains_more t ts (u ∷ us) a = (ground arith, contains_more t ts us a.1)

pub contains_each : (ts : TreeSet) → All (λ t. contains ts t ≡ true) ts
contains_each [] = tt
contains_each (t ∷ ts) = (head_contained t ts, contains_more t ts ts (contains_each ts))
  where
    head_contained : (t : Thread) (ts : TreeSet) → contains (t ∷ ts) t ≡ true
    head_contained t ts = unfold contains in ground (arith, eq_refl t)

uncut_each :
    (h : List Thread) (taken : ℕ) (gens : HashMap Thread ℕ) (edges : List Edge)
    → All (EdgeIsFresh h taken gens) edges
    → edges_current gens edges ≡ true
    → All (λ t. was_cut (t ∷ []) taken h ≡ false) (edge_threads edges)
unfolding edges_current edge_threads
uncut_each h taken gens [] a e = tt
uncut_each h taken gens (x ∷ edges) a e =
    (a.0.uncut (ground arith), uncut_each h taken gens edges a.1 (ground arith))

-- A live entry's edges say that none of its threads was cut.
pub uncut_of-edges_current :
    (h : List Thread) (taken : ℕ) (gens : HashMap Thread ℕ) (edges : List Edge)
    → All (EdgeIsFresh h taken gens) edges
    → edges_current gens edges ≡ true
    → was_cut (edge_threads edges) taken h ≡ false
uncut_of-edges_current h taken gens edges a e =
    was_cut-All (edge_threads edges) taken h (uncut_each h taken gens edges a e)

-- Retaining the pinned threads leaves their generations.
pub generation-retain :
    (keep : Thread → Bool) (gens : HashMap Thread ℕ) (t : Thread)
    → generation_in (retain (λ u _. keep u) gens) t ≡ (if keep t then generation_in gens t else 0)
unfolding generation_in
generation-retain keep gens t = ground (arith, get-retain keep gens t)

pub retain-EdgeIsFresh :
    (h : List Thread) (taken : ℕ) (keep : Thread → Bool) (gens : HashMap Thread ℕ) (e : Edge)
    → keep e.0 ≡ true
    → EdgeIsFresh h taken gens e
    → EdgeIsFresh h taken (retain (λ u _. keep u) gens) e
retain-EdgeIsFresh h taken keep gens e k f =
    let same : generation_in (retain (λ u _. keep u) gens) e.0 ≡ generation_in gens e.0 =
      ground (arith, generation-retain keep gens e.0) in
    record { behind = omega (arith, f.behind, same); uncut = λ q. f.uncut (omega (arith, same, q)) }

pub retain-Bounded :
    (h : List Thread) (keep : Thread → Bool) (gens : HashMap Thread ℕ)
    → Bounded h gens
    → Bounded h (retain (λ u _. keep u) gens)
retain-Bounded h keep gens b t = ground (arith, generation-retain keep gens t, b t)
