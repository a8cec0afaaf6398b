-- ===== src/Content/Address.antt =====
-- crates/ikigai-core/src/content.rs: the text of a content address, and its parser.
pub mod Text
use ikigai_core.Prelude.{
  ℕ, zero, suc, ◌+◌, ◌*◌, ◌-◌, ◌/◌, ◌%◌, ◌==◌, nat_eq, Str, codes, Bool, true, false, ◌&&◌, ◌||◌,
  List, [], ◌∷◌, ◌++◌, Option, none, some, Result, ok, err, all, leb, length, strip_prefix,
  if◌then◌else◌,
}
use ikigai_core.Content.{ltb, ContentId}

-- `ContentIdError`, by its three texts
pub data AddressError : Type 0 where
  expected_prefix invalid_hex not_32_bytes : AddressError

-- A digit of `{:x}`.
unfoldable pub hex_digit : ℕ → ℕ
hex_digit n = if ltb n 10 then 0x30 + n else 0x57 + n

-- `{b:02x}` of every byte
unfoldable pub encode_hex : List ℕ → Str
unfolding hex_digit
encode_hex [] = []
encode_hex (b ∷ bytes) = hex_digit (b / 16) ∷ hex_digit (b % 16) ∷ encode_hex bytes

-- `Display for ContentId`
unfoldable pub display : ContentId → Str
unfolding encode_hex
display id = codes "b3:" ++ encode_hex id

abbrev between : ℕ → ℕ → ℕ → Bool
between low high c = leb low c && leb c high

-- `u8::is_ascii_hexdigit`
abbrev pub is_ascii_hexdigit : ℕ → Bool
is_ascii_hexdigit c = between 0x30 0x39 c || between 0x61 0x66 c || between 0x41 0x46 c

-- The value of a digit, of either case.
unfoldable pub hex_value : ℕ → Option ℕ
hex_value c =
    if between 0x30 0x39 c
    then some (c - 0x30)
    else if between 0x61 0x66 c
    then some (c - 0x57)
    else if between 0x41 0x46 c
    then some (c - 0x37)
    else none

abbrev pub two_digits : Option ℕ → Option ℕ → Option ℕ
two_digits (some high) (some low) = some (16 * high + low)
two_digits _ _ = none

-- `u8::from_str_radix(.., 16)` of two digits
unfoldable pub byte_of : ℕ → ℕ → Option ℕ
unfolding hex_value
byte_of high low = two_digits (hex_value high) (hex_value low)

abbrev pub prepend : Option ℕ → Option (List ℕ) → Option (List ℕ)
prepend (some b) (some bytes) = some (b ∷ bytes)
prepend _ _ = none

unfoldable pub decode_pairs : Str → Option (List ℕ)
unfolding byte_of
decode_pairs [] = some []
decode_pairs (c ∷ []) = none
decode_pairs (high ∷ low ∷ rest) = prepend (byte_of high low) (decode_pairs rest)

unfoldable pub decode_hex : Str → Option (List ℕ)
unfolding decode_pairs
decode_hex s = if length s % 2 == 0 && all is_ascii_hexdigit s then decode_pairs s else none

-- `ContentId::parse`
unfoldable pub parse : Str → Result ContentId AddressError
unfolding strip_prefix decode_hex
parse s = elim (strip_prefix (codes "b3:") s) [
  | none ↦ err expected_prefix
  | some hex ↦ elim (decode_hex hex) [
    | none ↦ err invalid_hex
    | some bytes ↦ if length bytes == 32 then ok bytes else err not_32_bytes
  ]
]
