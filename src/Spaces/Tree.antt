-- ===== src/Spaces/Tree.antt =====
-- crates/ikigai-core/src/space.rs: the spaces that bind and combine doors, as trees. The overlay of
-- aliases, the spaces of dynamic.rs and the spaces of other crates are left out.
use ikigai_core.Prelude.{
  ℕ, Str, nat_eq, list_eq, option_eq, Bool, true, false, List, [], ◌∷◌, ◌++◌, Option, none, some,
  starts_with, is_some, if◌then◌else◌,
}
use ikigai_core.Grammar.Bindings.{Bindings}
use ikigai_core.Grammar.Template.{UriTemplate}
use ikigai_core.Grammar.Search.{Exact, exact_match, match_str}

pub data Grammar : Type 0 where
  exact_name : Exact → Grammar
  uri_template : UriTemplate → Grammar
  custom : (Str → Option Bindings) → Grammar

unfoldable pub match_iri : Grammar → Str → Option Bindings
unfolding exact_match match_str
match_iri (exact_name g) iri = exact_match g iri
match_iri (uri_template t) iri = match_str t iri
match_iri (custom f) iri = f iri

-- An endpoint by its identity, and the limiter.
pub data Endpoint : Type 0 where
  door : ℕ → Endpoint
  bottom : Endpoint

unfoldable pub is_limiter : Endpoint → Bool
is_limiter (door n) = false
is_limiter bottom = true

pub data Family : Type 0 where
  prefix : Str → Family
  grammar : Grammar → Family

unfoldable pub admits_name : Family → Str → Bool
unfolding starts_with match_iri
admits_name (prefix p) iri = starts_with p iri
admits_name (grammar g) iri = is_some (match_iri g iri)

-- The last argument of a constructor is the identity that the space claims. A `level` has its name,
-- the serial of the object, its own space, its seals and its namespace.
mutual
  pub data Space : Type 0 where
    endpoints : List (Grammar × Endpoint) → Option Str → Space
    mount : Str → Space → Option Str → Space
    fallback : Spaces → Option Str → Space
    limit : Family → Option Str → Space
    level : Str → ℕ → Space → List Str → Option Str → Space
    rewrite : (Str → Option Str) → Space → Option Str → Space

  pub data Spaces : Type 0 where
    nil : Spaces
    cons : Space → Spaces → Spaces

-- `LevelCore`.
pub record LevelCore : Type 0 where
  pub name : Str
  pub serial : ℕ
  pub inner : Space
  pub seals : List Str
  pub namespace : Option Str

abbrev pub LevelPath : Type 0
LevelPath = List LevelCore

pub record Resolved : Type 0 where
  pub endpoint : Endpoint
  pub bindings : Bindings
  pub canonical : Option Str
  pub answered_by : Option Str
  pub levels : LevelPath

pub data Resolution : Type 0 where
  hit : Resolved → Resolution
  miss : Resolution

abbrev pub found : Endpoint → Bindings → Resolved
found e b = record { endpoint = e; bindings = b; canonical = none; answered_by = none; levels = [] }

-- `get_or_insert`
abbrev pub or_else {ℓ} : {A : Type ℓ} → Option A → A → Option A
or_else none x = some x
or_else (some y) x = some y

unfoldable pub with_answered_by : Resolved → Str → Resolved
with_answered_by r space = record r { answered_by = or_else r.answered_by space }

unfoldable pub with_canonical : Resolved → Str → Resolved
with_canonical r name = record r { canonical = or_else r.canonical name }

unfoldable pub within : Resolved → LevelCore → Resolved
within r l = record r { levels = r.levels ++ (l ∷ []) }

unfoldable pub answered : Resolution → Option Str → Resolution
unfolding with_answered_by
answered (hit r) (some id) = hit (with_answered_by r id)
answered r _ = r

-- The loop of `EndpointSpace` over its bindings.
unfoldable pub first_binding : List (Grammar × Endpoint) → Str → Resolution
unfolding match_iri
first_binding [] target = miss
first_binding ((g, e) ∷ bindings) target = elim (match_iri g target) [
  | some b ↦ hit (found e b)
  | none ↦ first_binding bindings target
]

-- A hit in a level.
unfoldable pub enter : LevelCore → Resolution → Resolution
unfolding with_answered_by within
enter l (hit r) = hit (within (with_answered_by r l.name) l)
enter l miss = miss

-- A hit under another name.
unfoldable pub reported : Str → Resolution → Resolution
unfolding with_canonical
reported name (hit r) = hit (with_canonical r name)
reported name miss = miss

-- `if let Resolution::Hit(resolved) = …`, and the rest of the loop otherwise.
unfoldable pub or_next : Resolution → Resolution → Resolution
or_next (hit r) next = hit r
or_next miss next = next

unfoldable mutual
  unfolding starts_with answered first_binding admits_name enter reported or_next

  pub resolve : Space → Str → Resolution
  resolve (endpoints bindings id) target = answered (first_binding bindings target) id
  resolve (mount p inner id) target =
      if starts_with p target then answered (resolve inner target) id else miss
  resolve (fallback spaces id) target = answered (resolve_first spaces target) id
  resolve (limit family id) target =
      if admits_name family target then answered (hit (found bottom [])) id else miss
  resolve (level name serial inner seals namespace) target =
      enter
        (record {
          name = name;
          serial = serial;
          inner = inner;
          seals = seals;
          namespace = namespace;
        })
        (resolve inner target)
  resolve (rewrite rule inner id) target = elim (rule target) [
    | some name ↦ answered (reported name (resolve inner name)) id
    | none ↦ answered (resolve inner target) id
  ]

  pub resolve_first : Spaces → Str → Resolution
  resolve_first nil target = miss
  resolve_first (cons s spaces) target = or_next (resolve s target) (resolve_first spaces target)
