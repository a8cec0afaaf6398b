-- ===== src/Spaces/Seals.antt =====
-- crates/ikigai-core/src/seal.rs: the table of sealed prefixes, and what it admits.
use ikigai_core.Prelude.{
  ℕ, Str, ◌==◌, nat_eq, list_eq, option_eq, Bool, true, false, not, ◌&&◌, List, [], ◌∷◌, Option,
  none, some, Result, ok, err, any, starts_with, if◌then◌else◌,
}
use ikigai_core.Spaces.Tree.{LevelCore, LevelPath}

pub data SealOwner : Type 0 where
  core : SealOwner
  host : SealOwner
  sealing_level : Str → SealOwner

pub record SealBreach : Type 0 where
  pub name : Str
  pub owner : SealOwner
  pub level : Option Str
  pub unregistered : Bool

pub record Seals : Type 0 where
  pub claims : List (Str × SealOwner)
  pub levels : List (Str × ℕ)
  pub trivial : Bool

unfoldable pub owner_among : List (Str × SealOwner) → Str → Option SealOwner
unfolding starts_with
owner_among [] name = none
owner_among ((prefix, owner) ∷ claims) name =
    let rest = owner_among claims name in if starts_with prefix name then some owner else rest

unfoldable pub owner_of : Seals → Str → Option SealOwner
unfolding owner_among
owner_of s name = owner_among s.claims name

abbrev pub registered : Seals → ℕ → Bool
registered s serial = any (λ p. p.1 == serial) s.levels

abbrev pub is_owner : Seals → Str → LevelCore → Bool
is_owner s name l = l.name == name && registered s l.serial

unfoldable pub frame_admits : Seals → SealOwner → LevelCore → Bool
frame_admits s core l = false
frame_admits s host l = false
frame_admits s (sealing_level name) l = is_owner s name l

abbrev pub is_unsealing : List Str → Bool
is_unsealing [] = true
is_unsealing (p ∷ seals) = false

-- The first level of the path that seals and is not registered.
unfoldable pub unregistered_sealing : Seals → LevelPath → Option Str
unregistered_sealing s [] = none
unregistered_sealing s (l ∷ path) =
    let rest = unregistered_sealing s path in
    if not (is_unsealing l.seals) && not (registered s l.serial) then some l.name else rest

unfoldable pub innermost : LevelPath → Option LevelCore
innermost [] = none
innermost (l ∷ path) = some l

unfoldable pub admitted : Seals → SealOwner → LevelPath → Bool
admitted s core path = false
admitted s host [] = true
admitted s host (l ∷ path) = false
admitted s (sealing_level name) [] = false
admitted s (sealing_level name) (l ∷ path) = is_owner s name l

abbrev pub level_name : LevelPath → Option Str
level_name [] = none
level_name (l ∷ path) = some l.name

-- The loop over the names.
unfoldable pub admit_names : Seals → List Str → LevelPath → Result (Unit {0}) SealBreach
unfolding owner_of admitted
admit_names s [] path = ok tt
admit_names s (name ∷ names) path = elim (owner_of s name) [
  | none ↦ admit_names s names path
  | some owner ↦ elim (admitted s owner path) [
    | true ↦ admit_names s names path
    | false ↦
        err (record { name = name; owner = owner; level = level_name path; unregistered = false })
  ]
]

-- `names.into_iter().next()`, or the hidden level's own name.
abbrev pub first_name : List Str → Str → Str
first_name [] hidden = hidden
first_name (n ∷ names) hidden = n

unfoldable pub admit_seals : Seals → List Str → LevelPath → Result (Unit {0}) SealBreach
unfolding unregistered_sealing admit_names
admit_seals s names path = elim (unregistered_sealing s path) [
  | some hidden ↦ err (record {
    name = first_name names hidden;
    owner = sealing_level hidden;
    level = some hidden;
    unregistered = true;
  })
  | none ↦ admit_names s names path
]
