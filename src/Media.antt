-- ===== src/Media.antt =====
-- crates/ikigai-core/src/media.rs: media types and their comparison. A text is its characters.
pub mod Symmetry
mod Tests
use ikigai_core.Capability.Scope.{split_once}
use ikigai_core.Prelude.{
  ℕ, zero, suc, ◌+◌, ◌-◌, ◌*◌, ◌/◌, ◌%◌, ◌^◌, ◌≤◌, ◌<◌, min, max, Str, codes, Eq, ◌==◌, nat_eq,
  list_eq, option_eq, eq_cases, eq_refl, eq→≡, ≡→eq, ◌≡◌, refl, sym, ap, ◌∙◌, ◌≢◌, ◌↔◌, ◌⊎◌, inl,
  inr, Bool, true, false, not, ◌&&◌, ◌||◌, List, [], ◌∷◌, ◌++◌, map, reverse, Option, none, some,
  Result, ok, err, ltb, leb, any, all, All, keep, length, starts_with, strip_prefix, is_some,
  is_none, if◌then◌else◌, arith, Bool-cases, Option-cases, str_cmp, str_cmp_eq, str_cmp_refl,
}
use ikigai_core.Alias.Walk.{to_ascii_lowercase}

abbrev is_whitespace : ℕ → Bool
is_whitespace c =
    leb 9 c && leb c 13
    || c == 0x20
    || c == 0x85
    || c == 0xa0
    || c == 0x1680
    || leb 0x2000 c && leb c 0x200a
    || c == 0x2028
    || c == 0x2029
    || c == 0x202f
    || c == 0x205f
    || c == 0x3000

-- `str::split`: a text with no separator is one piece.
unfoldable pub split : ℕ → Str → List Str
split sep [] = [] ∷ []
split sep (c ∷ s) = elim (split sep s) [
  | [] ↦ []
  | piece ∷ pieces ↦ if c == sep then [] ∷ piece ∷ pieces else (c ∷ piece) ∷ pieces
]

unfoldable pub trim_start : Str → Str
trim_start [] = []
trim_start (c ∷ s) = let rest = trim_start s in if is_whitespace c then rest else c ∷ s

unfoldable pub trim_end : Str → Str
trim_end [] = []
trim_end (c ∷ s) = elim (trim_end s) [
  | [] ↦ if is_whitespace c then [] else c ∷ []
  | d ∷ t ↦ c ∷ d ∷ t
]

unfoldable pub trim : Str → Str
unfolding trim_start trim_end
trim s = trim_end (trim_start s)

abbrev pub lowercased : Str → Str
lowercased s = map to_ascii_lowercase s

-- `strip_suffix` of a quotation mark.
unfoldable pub strip_quote : Str → Option Str
strip_quote [] = none
strip_quote (c ∷ []) = if c == 0x22 then some [] else none
strip_quote (c ∷ d ∷ s) = elim (strip_quote (d ∷ s)) [ none ↦ none | some t ↦ some (c ∷ t) ]

unfoldable pub unquoted : Str → Str
unfolding strip_quote
unquoted [] = []
unquoted (c ∷ s) = elim (strip_quote s) [
  | none ↦ c ∷ s
  | some inner ↦ if c == 0x22 then inner else c ∷ s
]

unfoldable pub media_type_essence : Str → Str
unfolding split trim
media_type_essence media_type = elim (split 0x3b media_type) [
  | [] ↦ []
  | first ∷ _ ↦ lowercased (trim first)
]

-- The closure of `media_type_parts` over one parameter.
unfoldable pub parameter : Str → Option (Str × Str)
unfolding split_once trim unquoted
parameter param = elim (split_once 0x3d param) [
  | none ↦ none
  | some (before, after) ↦
      let name = lowercased (trim before) in
      let value = unquoted (trim after) in
      some (name, if name == codes "charset" then lowercased value else value)
]

unfoldable pub parameters : List Str → List (Str × Str)
unfolding parameter
parameters [] = []
parameters (param ∷ params) = elim (parameter param) [
  | none ↦ parameters params
  | some p ↦ p ∷ parameters params
]

unfoldable pub media_type_parts : Str → Str × List (Str × Str)
unfolding media_type_essence split parameters
media_type_parts media_type = (
  media_type_essence media_type,
  elim (split 0x3b media_type) [ [] ↦ [] | _ ∷ rest ↦ parameters rest ],
)

-- The value of the first parameter of a name.
unfoldable pub find : Str → List (Str × Str) → Option Str
find name [] = none
find name ((n, v) ∷ ps) = let rest = find name ps in if n == name then some v else rest

unfoldable pub agrees : List (Str × Str) → Str × Str → Bool
unfolding find
agrees ps (name, value) = elim (find name ps) [ none ↦ true | some v ↦ v == value ]

unfoldable pub media_types_agree : Str → Str → Bool
unfolding media_type_parts agrees
media_types_agree a b =
    let (a_essence, a_params) = media_type_parts a in
    let (b_essence, b_params) = media_type_parts b in
    a_essence == b_essence && all (agrees a_params) b_params
