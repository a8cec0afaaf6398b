-- ===== src/Spaces/Sealed.antt =====
-- crates/ikigai-core/src/space.rs and seal.rs: who answers a sealed name.
use ikigai_core.Prelude.{
  ℕ, Str, nat_eq, list_eq, option_eq, eq_cases, ◌≡◌, refl, ap, ◌∙◌, ◌⊎◌, inl, inr, true, false,
  List, [], ◌∷◌, reverse, Option, none, some, Result, ok, err, All, arith, Bool-cases, Option-cases,
}
use ikigai_core.Prelude.{
  subst, ℕ, Str, nat_eq, list_eq, option_eq, eq_cases, ◌≡◌, refl, ap, ◌∙◌, ◌⊎◌, inl, inr, true,
  false, List, [], ◌∷◌, reverse, Option, none, some, Result, ok, err, All, arith, Bool-cases,
  Option-cases,
}
use ikigai_core.Prelude.{
  ℕ, Str, nat_eq, list_eq, option_eq, eq_cases, ◌≡◌, refl, ap, ◌∙◌, ◌⊎◌, inl, inr, true, false,
  List, [], ◌∷◌, reverse, Option, none, some, Result, ok, err, All, arith, Bool-cases, Option-cases,
}
use ikigai_core.Prelude.{
  ok-injective, ℕ, Str, nat_eq, list_eq, option_eq, eq_cases, ◌≡◌, refl, ap, ◌∙◌, ◌⊎◌, inl, inr,
  true, false, List, [], ◌∷◌, reverse, Option, none, some, Result, ok, err, All, arith, Bool-cases,
  Option-cases,
}
use ikigai_core.Prelude.{◌>>◌}
use ikigai_core.Grammar.Search.{drop}
use ikigai_core.Spaces.Tree.{
  Space, LevelCore, LevelPath, Resolved, Resolution, hit, miss, resolve, is_limiter,
}
use ikigai_core.Spaces.Seals.{
  SealOwner, core, host, sealing_level, SealBreach, Seals, owner_of, registered, is_unsealing,
  unregistered_sealing, admitted, admit_names, admit_seals,
}
use ikigai_core.Spaces.Scope.{
  Chain, Scope, host_of, zip, corridor_hit, names_of, is_checked, admit, level_hit, sealed_by,
  resolve_behind, resolve_chain, resolve_in,
}

-- A level object that the table holds.
abbrev pub Registered : Seals → ℕ → Type 0
Registered s serial = registered s serial ≡ true

-- The path of levels that the owner of a sealed name answers along: none for the host, and for a
-- level that very level object first.
abbrev pub Owns : Seals → SealOwner → LevelPath → Type 0
Owns s core path = ⊥
Owns s host path = path ≡ []
Owns s (sealing_level name) [] = ⊥
Owns s (sealing_level name) (l ∷ path) = (l.name ≡ name) × Registered s l.serial

-- A name that is sealed is answered by its owner.
abbrev pub Held : Seals → LevelPath → Option SealOwner → Type 0
Held s path none = Unit {0}
Held s path (some owner) = Owns s owner path

abbrev pub Respects : Seals → LevelPath → Str → Type 0
Respects s path name = Held s path (owner_of s name)

-- A level that seals names is one that the table holds.
abbrev pub Shown : Seals → LevelCore → Type 0
Shown s l = (is_unsealing l.seals ≡ true) ⊎ Registered s l.serial

admitted-Owns :
    (s : Seals) (owner : SealOwner) (path : LevelPath)
    → admitted s owner path ≡ true
    → Owns s owner path
unfolding admitted
admitted-Owns s core path h = absurd (ground arith)
admitted-Owns s host [] h = refl
admitted-Owns s host (l ∷ path) h = absurd (ground arith)
admitted-Owns s (sealing_level name) [] h = absurd (ground arith)
admitted-Owns s (sealing_level name) (l ∷ path) h = elim (eq_cases l.name name) [
  | inl e ↦ (e.0, ground (arith, e.1))
  | inr e ↦ absurd (ground (arith, e.1))
]

module _ (s : Seals) (path : LevelPath) where
  names-Respect :
      (name : Str) (names : List Str) (o : Option SealOwner)
      → owner_of s name ≡ o
      → admit_names s (name ∷ names) path ≡ ok tt
      → Held s path o × (admit_names s names path ≡ ok tt)
  unfolding admit_names
  names-Respect name names none e h = (tt, ground (arith, e))
  names-Respect name names (some owner) e h = elim (Bool-cases (admitted s owner path)) [
    | inl t ↦ (admitted-Owns s owner path t, ground (arith, e, t))
    | inr t ↦ absurd (ground (arith, e, t))
  ]

  admit_names-Respects :
      (names : List Str) → admit_names s names path ≡ ok tt → All (Respects s path) names
  admit_names-Respects [] h = tt
  admit_names-Respects (name ∷ names) h =
      let (held, rest) = names-Respect name names (owner_of s name) refl h in
      (held, admit_names-Respects names rest)

unregistered_sealing-Shown :
    (s : Seals) (path : LevelPath) → unregistered_sealing s path ≡ none → All (Shown s) path
unfolding unregistered_sealing
unregistered_sealing-Shown s [] h = tt
unregistered_sealing-Shown s (l ∷ path) h = elim (Bool-cases (is_unsealing l.seals)) [
  | inl e ↦ (inl e, unregistered_sealing-Shown s path (ground (arith, e)))
  | inr e ↦ elim (Bool-cases (registered s l.serial)) [
    | inl t ↦ (inr t, unregistered_sealing-Shown s path (ground (arith, e, t)))
    | inr t ↦ absurd (ground (arith, e, t))
  ]
]

-- What the check of a hit leaves.
pub record Legitimate (s : Seals) (target : Str) (r : Resolved) : Type 0 where
  pub names : All (Respects s r.levels) (names_of target r)
  pub shown : All (Shown s) r.levels

admit_seals-Legitimate :
    (s : Seals) (target : Str) (r : Resolved)
    → admit_seals s (names_of target r) r.levels ≡ ok tt
    → Legitimate s target r
unfolding admit_seals
admit_seals-Legitimate s target r h = elim (Option-cases (unregistered_sealing s r.levels)) [
  | inl e ↦ record {
    names = admit_names-Respects s r.levels (names_of target r) (ground (arith, e));
    shown = unregistered_sealing-Shown s r.levels e;
  }
  | inr (hidden, e) ↦ absurd (ground (arith, e))
]

checked :
    (s : Seals) (r : Resolved)
    → s.trivial ≡ false
    → is_limiter r.endpoint ≡ false
    → is_checked s r ≡ true
unfolding is_checked
checked s r h k = ground (arith, h, k)

hit-injective : {q r : Resolved} → hit q ≡ hit r → q ≡ r
hit-injective h = cc

Result-unit :
    (m : Result (Unit {0}) SealBreach) (o : Resolution) (r : Resolved)
    → (m >> ok o) ≡ ok (hit r)
    → (m ≡ ok tt) × (o ≡ hit r)
Result-unit (ok tt) o r h = (refl, ok-injective h)
Result-unit (err b) o r h = absurd (ground arith)

admit-Legitimate :
    (s : Seals) (target : Str) (o : Resolution) (r : Resolved)
    → s.trivial ≡ false
    → is_limiter r.endpoint ≡ false
    → admit s target o ≡ ok (hit r)
    → Legitimate s target r
unfolding admit
admit-Legitimate s target miss r t k h = absurd (ground arith)
admit-Legitimate s target (hit q) r t k h = elim (Bool-cases (is_checked s q)) [
  | inl e ↦
      let both =
        Result-unit (admit_seals s (names_of target q) q.levels) (hit q) r (ground (arith, e)) in
      subst (Legitimate s target) (hit-injective both.1) (admit_seals-Legitimate s target q both.0)
  | inr e ↦
      let whole : ◌≡◌ {A = Result Resolution SealBreach} (ok (hit q)) (ok (hit r)) =
        ground (arith, e) in
      let same : hit q ≡ hit r = ok-injective whole in
      let test : is_checked s r ≡ true = checked s r t k in
      absurd (ground (arith, e, test, hit-injective same))
]

-- What the host's corridors answer.
unfoldable pub host_answer : Scope → Str → Option Resolved
host_answer none target = none
host_answer (some c) target =
    corridor_hit (reverse (zip (host_of c) (drop c.confined_count c.identities))) target

-- Behind the levels only the root is asked for a sealed name.
behind-Legitimate :
    (s : Seals) (c : Chain) (root : Space) (target : Str) (owner : SealOwner) (r : Resolved)
    → s.trivial ≡ false
    → owner_of s target ≡ some owner
    → is_limiter r.endpoint ≡ false
    → resolve_behind s c root target ≡ ok (hit r)
    → Legitimate s target r
unfolding resolve_behind
behind-Legitimate s c root target owner r t e k h = elim (Bool-cases c.severed) [
  | inl cut_off ↦ absurd (ground (arith, t, e, cut_off))
  | inr open_end ↦
      admit-Legitimate s target (resolve root target) r t k (ground (arith, t, e, open_end))
]

levels-Legitimate :
    (s : Seals) (c : Chain) (root : Space) (target : Str) (owner : SealOwner) (r : Resolved)
    → s.trivial ≡ false
    → owner_of s target ≡ some owner
    → is_limiter r.endpoint ≡ false
    → (elim (level_hit s (sealed_by s target) c.levels target) [
      | some q ↦ admit s target (hit q)
      | none ↦ resolve_behind s c root target
    ])
      ≡ ok (hit r)
    → Legitimate s target r
levels-Legitimate s c root target owner r t e k h =
    elim (Option-cases (level_hit s (sealed_by s target) c.levels target)) [
      | inl n ↦ behind-Legitimate s c root target owner r t e k (ground (arith, n))
      | inr (q, n) ↦ admit-Legitimate s target (hit q) r t k (ground (arith, n))
    ]

-- When a chain of spaces answers a sealed name by a door that is no limiter, under a table of
-- seals with more than the core's, either a corridor of the host answers, or the hit is
-- legitimate: its path of levels is the one that the owner of the name answers along, and the same
-- for the name that the hit reports, and each level of the path that seals names is one that the
-- table holds.
pub resolve_in-Legitimate :
    (s : Seals) (scope : Scope) (root : Space) (target : Str) (owner : SealOwner) (r : Resolved)
    → s.trivial ≡ false
    → owner_of s target ≡ some owner
    → is_limiter r.endpoint ≡ false
    → resolve_in s scope root target ≡ ok (hit r)
    → (host_answer scope target ≡ some r) ⊎ Legitimate s target r
unfolding resolve_in resolve_chain host_answer
resolve_in-Legitimate s none root target owner r t e k h =
    inr (admit-Legitimate s target (resolve root target) r t k h)
resolve_in-Legitimate s (some c) root target owner r t e k h =
    elim (Option-cases (host_answer (some c) target)) [
      | inr (q, n) ↦ inl (n ∙ ap some (hit-injective (ok-injective (answers_first q n))))
      | inl n ↦ inr (levels-Legitimate s c root target owner r t e k (answers_later n))
    ]
  where
    answers_first :
        (q : Resolved)
        → host_answer (some c) target ≡ some q
        → ◌≡◌ {A = Result Resolution SealBreach} (ok (hit q)) (ok (hit r))
    answers_first q n = ground (arith, n, h)

    answers_later :
        host_answer (some c) target ≡ none
        → (elim (level_hit s (sealed_by s target) c.levels target) [
          | some q ↦ admit s target (hit q)
          | none ↦ resolve_behind s c root target
        ])
          ≡ ok (hit r)
    answers_later n = ground (arith, n, h)
