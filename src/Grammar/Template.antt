-- ===== src/Grammar/Template.antt =====
-- crates/ikigai-core/src/grammar.rs: `UriTemplate`, its parts, and the texts it stands for. A text
-- is the list of its characters here: a template is cut only between characters, so that counting
use mathlib.Core.Option
use ikigai_core.Grammar.Bindings
use ikigai_core.Grammar.Bindings.{Bindings}
use ikigai_core.Prelude.{◌>>=◌}
use ikigai_core.Prelude.{
  ℕ, zero, suc, ◌+◌, ◌/◌, ◌%◌, Str, ◌==◌, nat_eq, list_eq, option_eq, Bool, true, false, ◌&&◌, ◌||◌,
  List, [], ◌∷◌, ◌++◌, Option, none, some, Result, ok, err, ltb, leb, all, length, if◌then◌else◌,
}
use ikigai_core.Capability.Scope.{is_ascii_digit, is_ascii_lowercase, split_once}

-- characters in the place of bytes changes no answer.

pub data Part : Type 0 where
  lit : Str → Part
  var : Str → Part

pub record UriTemplate : Type 0 where
  pub parts : List Part
  pub source : Str

pub data TemplateError : Type 0 where
  unclosed : Str → TemplateError
  invalid_variable : Str → Str → TemplateError
  adjacent : Str → TemplateError

-- `MatchKind` of crates/ikigai-core/src/topology.rs.
pub data MatchKind : Type 0 where
  exact : MatchKind
  template : MatchKind
  prefix : MatchKind
  custom : MatchKind

abbrev pub opening : ℕ
opening = 0x7b

abbrev pub closing : ℕ
closing = 0x7d

abbrev pub is_ascii_uppercase : ℕ → Bool
is_ascii_uppercase c = leb 0x41 c && leb c 0x5a

abbrev pub is_ascii_alphanumeric : ℕ → Bool
is_ascii_alphanumeric c = is_ascii_lowercase c || is_ascii_uppercase c || is_ascii_digit c

abbrev pub is_nonempty : Str → Bool
is_nonempty [] = false
is_nonempty (c ∷ s) = true

abbrev pub name_char : ℕ → Bool
name_char c = is_ascii_alphanumeric c || c == 0x5f

unfoldable pub valid_name : Str → Bool
valid_name name = is_nonempty name && all name_char name

-- `if !text.is_empty() { parts.push(Part::Lit(text)) }`
unfoldable pub push_lit : Str → List Part → List Part
push_lit [] parts = parts
push_lit (c ∷ s) parts = lit (c ∷ s) ∷ parts

-- The loop of `parse` on the rest of the source. Every round takes two characters at least.
unfoldable pub parse_parts : ℕ → Str → Str → Result (List Part) TemplateError
unfolding valid_name push_lit split_once
parse_parts zero source rest = err (unclosed source)
parse_parts (suc fuel) source rest = elim (split_once opening rest) [
  | none ↦ ok (push_lit rest [])
  | some (before, after) ↦ elim (split_once closing after) [
    | none ↦ err (unclosed source)
    | some (name, rest') ↦ elim (valid_name name) [
      | false ↦ err (invalid_variable name source)
      | true ↦ parse_parts fuel source rest' >>= λ parts. ok (push_lit before (var name ∷ parts))
    ]
  ]
]

-- The loop over `parts.windows(2)`.
unfoldable pub has_adjacent : List Part → Bool
has_adjacent [] = false
has_adjacent (lit l ∷ ps) = has_adjacent ps
has_adjacent (var n ∷ []) = false
has_adjacent (var n ∷ var m ∷ ps) = true
has_adjacent (var n ∷ lit l ∷ ps) = has_adjacent ps

unfoldable pub parse : Str → Result UriTemplate TemplateError
unfolding parse_parts has_adjacent
parse source = do
  parts ← parse_parts (suc (length source)) source source
  if has_adjacent parts
      then err (adjacent source)
      else ok (record { parts = parts; source = source })

abbrev pub pattern : UriTemplate → Str
pattern t = t.source

abbrev pub match_kind : UriTemplate → MatchKind
match_kind t = template

-- `variables`, the names in their order.
unfoldable pub variables : List Part → List Str
variables [] = []
variables (lit l ∷ ps) = variables ps
variables (var n ∷ ps) = n ∷ variables ps

-- The loop of `expand`, and of `expand_encoded`: what is written for the value of a variable is `f`.
unfoldable pub expand_with : (Str → Str) → List Part → Bindings → Option Str
expand_with f [] b = some []
expand_with f (lit l ∷ ps) b = Option.map (λ out. l ++ out) (expand_with f ps b)
expand_with f (var n ∷ ps) b = elim (Bindings.get b n) [
  | none ↦ none
  | some v ↦ Option.map (λ out. f v ++ out) (expand_with f ps b)
]

unfoldable pub expand : UriTemplate → Bindings → Option Str
unfolding expand_with
expand t b = expand_with (λ v. v) t.parts b

-- `b"-._~".contains(&byte)`
abbrev pub is_mark : ℕ → Bool
is_mark c = c == 0x2d || c == 0x2e || c == 0x5f || c == 0x7e

-- The digits of `HEX`.
unfoldable pub hex_upper : ℕ → ℕ
hex_upper d = if ltb d 10 then 0x30 + d else 0x37 + d

unfoldable pub encode_byte : ℕ → Str
unfolding hex_upper
encode_byte c =
    if is_ascii_alphanumeric c || is_mark c
    then c ∷ []
    else 0x25 ∷ hex_upper (c / 16) ∷ hex_upper (c % 16) ∷ []

unfoldable pub encode_bytes : Str → Str
unfolding encode_byte
encode_bytes [] = []
encode_bytes (c ∷ s) = encode_byte c ++ encode_bytes s

-- `str::bytes`: the UTF-8 form of a character.
unfoldable pub utf8_char : ℕ → Str
utf8_char c =
    if ltb c 0x80
    then c ∷ []
    else if ltb c 0x800
    then (0xc0 + c / 64) ∷ (0x80 + c % 64) ∷ []
    else if ltb c 0x10000
    then (0xe0 + c / 4096) ∷ (0x80 + c / 64 % 64) ∷ (0x80 + c % 64) ∷ []
    else (0xf0 + c / 262144) ∷ (0x80 + c / 4096 % 64) ∷ (0x80 + c / 64 % 64) ∷ (0x80 + c % 64) ∷ []

unfoldable pub utf8 : Str → Str
unfolding utf8_char
utf8 [] = []
utf8 (c ∷ s) = utf8_char c ++ utf8 s

unfoldable pub expand_encoded : UriTemplate → Bindings → Option Str
unfolding expand_with encode_bytes utf8
expand_encoded t b = expand_with (λ v. encode_bytes (utf8 v)) t.parts b
