-- ===== src/Spaces/Sources.antt =====
-- crates/ikigai-core/src/space.rs: the spaces that a chain consults, in order, and what the first of
-- them that answers makes the answer of a walk.
use ikigai_core.Prelude.{
  subst, of_some, Str, nat_eq, list_eq, option_eq, ◌≡◌, refl, ap, ◌∙◌, inl, inr, Bool, true, false,
  List, [], ◌∷◌, ◌++◌, map, reverse, Option, none, some, Result, ok, err, All, is_some, is_none,
  if◌then◌else◌, arith, Bool-cases,
}
use ikigai_core.Prelude.{◌>>◌}
use mathlib.Core.List.{append-nil, map-append}
use ikigai_core.Spaces.Tree.{
  Space, LevelPath, Resolved, Resolution, hit, miss, resolve, with_answered_by,
}
use ikigai_core.Spaces.Seals.{SealBreach, Seals, admit_seals}
use ikigai_core.Spaces.Scope.{
  Scope, CorridorIdentity, named, anonymous, host_of, behind_of, inner_spaces, consulted,
  consulted_before_root, corridor_answer, corridor_hit, names_of, is_checked, admit, passes_by,
  from_stack, level_hit,
}

-- A space that a walk consults, and the path of levels that its answers are given: a corridor has
-- none, and the seals are not asked about it.
abbrev pub Source : Type 0
Source = Option LevelPath × Space

abbrev pub corridor : Space → Source
corridor s = (none, s)

-- The levels of the stack, each with the path outward from it.
unfoldable pub levels_of : LevelPath → List Source
levels_of [] = []
levels_of (l ∷ outward) = (some (l ∷ outward), l.inner) ∷ levels_of outward

-- The corridors of the host, the levels, the confined corridors, and the root.
unfoldable pub sources : Scope → Space → List Source
unfolding levels_of
sources none root = (some [], root) ∷ []
sources (some c) root =
    (map corridor (reverse (host_of c))
      ++ (levels_of c.levels ++ map corridor (reverse (behind_of c))))
    ++ (if c.severed then [] else (some [], root) ∷ [])

-- The first space of a list that answers.
unfoldable pub first_hit : List Source → Str → Option (Option LevelPath × Resolved)
unfolding resolve
first_hit [] target = none
first_hit ((path, s) ∷ spaces) target =
    let rest = first_hit spaces target in
    elim (resolve s target) [ hit r ↦ some (path, r) | miss ↦ rest ]

abbrev outer : Option LevelPath → LevelPath
outer none = []
outer (some path) = path

-- The answer of a walk, for the answer of the space: it may differ in who is said to have answered.
pub record Same (path : Option LevelPath) (q r : Resolved) : Type 0 where
  pub endpoint : q.endpoint ≡ r.endpoint
  pub bindings : q.bindings ≡ r.bindings
  pub canonical : q.canonical ≡ r.canonical
  pub levels : q.levels ++ outer path ≡ r.levels

abbrev pub BothSame : Option (Option LevelPath × Resolved) → Option Resolved → Type 0
BothSame none none = Unit {0}
BothSame (some (path, q)) (some r) = Same path q r
BothSame _ _ = ⊥

-- What the seals say of a hit.
unfoldable pub checked : Seals → Str → Resolved → Result (Unit {0}) SealBreach
unfolding is_checked admit_seals
checked s target r = if is_checked s r then admit_seals s (names_of target r) r.levels else ok tt

-- What the seals say of the answer of a space on a path.
abbrev pub verdict : Seals → Str → LevelPath → Resolved → Result (Unit {0}) SealBreach
verdict s target path q = checked s target (record q { levels = q.levels ++ path })

-- A walk answers as a first hit does: as it is from a corridor, and by the verdict of the seals from
-- elsewhere.
abbrev pub Agrees :
    Seals → Str → Option (Option LevelPath × Resolved) → Result Resolution SealBreach → Type 0
Agrees s target none (ok miss) = Unit {0}
Agrees s target (some (none, q)) (ok (hit r)) = Same none q r
Agrees s target (some (some path, q)) (ok (hit r)) =
    Same (some path) q r × ◌≡◌ {A = Result (Unit {0}) SealBreach} (verdict s target path q) (ok tt)
Agrees s target (some (some path, q)) (err b) =
    ◌≡◌ {A = Result (Unit {0}) SealBreach} (verdict s target path q) (err b)
Agrees s target _ _ = ⊥

abbrev pub or_opt {ℓ} : {A : Type ℓ} → Option A → Option A → Option A
or_opt (some q) o = some q
or_opt none o = o

pub first_hit-append :
    (xs ys : List Source) (target : Str)
    → first_hit (xs ++ ys) target ≡ or_opt (first_hit xs target) (first_hit ys target)
unfolding first_hit
first_hit-append [] ys target = refl
first_hit-append ((path, s) ∷ xs) ys target =
    elim (resolve s target)
      as (λ o.
        (elim o [ hit r ↦ some (path, r) | miss ↦ first_hit (xs ++ ys) target ])
        ≡ or_opt (elim o [ hit r ↦ some (path, r) | miss ↦ first_hit xs target ])
            (first_hit ys target)) [ hit r ↦ refl | miss ↦ first_hit-append xs ys target ]

module _ (s : Seals) (target : Str) where
  pub Agrees-or :
      (o rest : Option (Option LevelPath × Resolved)) (p : Option Resolved)
      (f : Resolved → Result Resolution SealBreach) (m : Result Resolution SealBreach)
      → BothSame o p
      → ((path : Option LevelPath) (q r : Resolved)
          → o ≡ some (path, q)
          → Same path q r
          → Agrees s target (some (path, q)) (f r))
      → Agrees s target rest m
      → Agrees s target (or_opt o rest) (elim p [ some r ↦ f r | none ↦ m ])
  Agrees-or none rest none f m h k l = l
  Agrees-or (some (path, q)) rest (some r) f m h k l = k path q r refl h
  Agrees-or none rest (some r) f m h k l = absurd h
  Agrees-or (some (path, q)) rest none f m h k l = absurd h

  checked-Same :
      (path : LevelPath) (q r : Resolved)
      → Same (some path) q r
      → verdict s target path q ≡ checked s target r
  unfolding checked
  checked-Same path q r h = ap (checked s target) (λ k. record {
    endpoint = h.endpoint k;
    bindings = h.bindings k;
    canonical = h.canonical k;
    answered_by = r.answered_by;
    levels = h.levels k;
  })

  pub Agrees-admit :
      (path : LevelPath) (q r : Resolved)
      → Same (some path) q r
      → Agrees s target (some (some path, q)) (admit s target (hit r))
  unfolding admit checked
  Agrees-admit path q r h = elim (Bool-cases (is_checked s r)) [
    | inl e ↦ rw e (
        judged (admit_seals s (names_of target r) r.levels) (checked-Same path q r h ∙ (rw e refl)))
    | inr e ↦ rw e (h, checked-Same path q r h ∙ (rw e refl))
  ]
    where
      judged :
          (m : Result (Unit {0}) SealBreach)
          → verdict s target path q ≡ m
          → Agrees s target (some (some path, q)) (m >> ok (hit r))
      judged (ok _) e = (h, e)
      judged (err b) e = e

BothSame-next :
    (path : Option LevelPath) (o : Resolution) (f : Resolved → Resolved)
    (x : Option (Option LevelPath × Resolved)) (y : Option Resolved)
    → ((r : Resolved) → Same path r (f r))
    → BothSame x y
    → BothSame
        (elim o [ hit r ↦ some (path, r) | miss ↦ x ])
        (elim o [ hit r ↦ some (f r) | miss ↦ y ])
BothSame-next path (hit r) f x y h k = h r
BothSame-next path miss f x y h k = k

corridor_answer-Same : (i : CorridorIdentity) (r : Resolved) → Same none r (corridor_answer i r)
unfolding corridor_answer with_answered_by
corridor_answer-Same (named name) r = record {
  endpoint = refl;
  bindings = refl;
  canonical = refl;
  levels = append-nil r.levels;
}
corridor_answer-Same (anonymous id) r = record {
  endpoint = refl;
  bindings = refl;
  canonical = refl;
  levels = append-nil r.levels;
}

pub corridor_hit-BothSame :
    (pairs : List (Space × CorridorIdentity)) (target : Str)
    → BothSame (first_hit (map corridor (map (λ p. p.0) pairs)) target) (corridor_hit pairs target)
unfolding first_hit corridor_hit
corridor_hit-BothSame [] target = tt
corridor_hit-BothSame ((s, i) ∷ pairs) target =
    BothSame-next none (resolve s target) (corridor_answer i)
      (first_hit (map corridor (map (λ p. p.0) pairs)) target) (corridor_hit pairs target)
      (corridor_answer-Same i) (corridor_hit-BothSame pairs target)

pub level_hit-BothSame :
    (seals : Seals) (levels : LevelPath) (target : Str)
    → BothSame (first_hit (levels_of levels) target) (level_hit seals none levels target)
unfolding first_hit level_hit passes_by from_stack with_answered_by levels_of
level_hit-BothSame seals [] target = tt
level_hit-BothSame seals (l ∷ levels) target =
    BothSame-next (some (l ∷ levels)) (resolve l.inner target) (from_stack l levels)
      (first_hit (levels_of levels) target) (level_hit seals none levels target)
      (λ r. record { endpoint = refl; bindings = refl; canonical = refl; levels = refl })
      (level_hit-BothSame seals levels target)

pub first_hit-path :
    (P : Option LevelPath → Type 0) (xs : List Source) (target : Str) (path : Option LevelPath)
    (q : Resolved)
    → All (λ x. P x.0) xs
    → first_hit xs target ≡ some (path, q)
    → P path
unfolding first_hit
first_hit-path P [] target path q a e = absurd (ground arith)
first_hit-path P ((at, s) ∷ xs) target path q a e =
    this (λ d. first_hit-path P xs target path q a.1 d) (resolve s target) refl
  where
    this :
        (first_hit xs target ≡ some (path, q) → P path)
        → (o : Resolution) → resolve s target ≡ o
        → P path
    this further (hit r) m = subst P (ap (λ x. x.0) (of_some (rw (m, first_hit) at e))) a.0
    this further miss m = further (rw (m, first_hit) at e)

pub corridors-none : (l : List Space) → All (λ (x : Source). is_none x.0 ≡ true) (map corridor l)
corridors-none [] = tt
corridors-none (s ∷ l) = (refl, corridors-none l)

pub levels_of-some : (l : LevelPath) → All (λ (x : Source). is_some x.0 ≡ true) (levels_of l)
unfolding levels_of
levels_of-some [] = tt
levels_of-some (x ∷ l) = (refl, levels_of-some l)

-- The spaces of a list of sources.
abbrev pub spaces_of : List Source → List Space
spaces_of = map (λ x. x.1)

spaces_of-corridor : (l : List Space) → spaces_of (map corridor l) ≡ l
spaces_of-corridor [] = refl
spaces_of-corridor (s ∷ l) = ap (λ r. s ∷ r) (spaces_of-corridor l)

spaces_of-levels : (l : LevelPath) → spaces_of (levels_of l) ≡ inner_spaces l
unfolding levels_of
spaces_of-levels [] = refl
spaces_of-levels (x ∷ l) = ap (λ r. x.inner ∷ r) (spaces_of-levels l)

pub spaces_of-sources :
    (scope : Scope) (root : Space) → spaces_of (sources scope root) ≡ consulted scope root
unfolding sources consulted consulted_before_root
spaces_of-sources none root = refl
spaces_of-sources (some c) root =
    let host : List Source = map corridor (reverse (host_of c)) in
    let behind : List Source = map corridor (reverse (behind_of c)) in
    let ends : List Source = if c.severed then [] else (some [], root) ∷ [] in
    map-append (λ (x : Source). x.1) (host ++ (levels_of c.levels ++ behind)) ends
    ∙ ap (λ l. l ++ spaces_of ends)
        (map-append (λ (x : Source). x.1) host (levels_of c.levels ++ behind)
          ∙ ap (λ l. spaces_of host ++ l)
              (map-append (λ (x : Source). x.1) (levels_of c.levels) behind)
          ∙ ap (λ l. l ++ (spaces_of (levels_of c.levels) ++ spaces_of behind))
              (spaces_of-corridor (reverse (host_of c)))
          ∙ ap (λ l. reverse (host_of c) ++ (l ++ spaces_of behind)) (spaces_of-levels c.levels)
          ∙ ap (λ l. reverse (host_of c) ++ (inner_spaces c.levels ++ l))
              (spaces_of-corridor (reverse (behind_of c))))
    ∙ ap (λ l. consulted_before_root c ++ l) (last c.severed)
  where
    last :
        (b : Bool)
        → spaces_of (if b then [] else (some [], root) ∷ []) ≡ (if b then [] else root ∷ [])
    last true = refl
    last false = refl
