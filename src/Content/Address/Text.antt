-- ===== src/Content/Address/Text.antt =====
-- crates/ikigai-core/src/content.rs: the text of a content address, printed and parsed.
use ikigai_core.Prelude.{
  ◌∙◌, ℕ, suc, ◌+◌, ◌*◌, ◌<◌, ◌≡◌, refl, ap, ◌==◌, nat_eq, ◌/◌, ◌%◌, Str, codes, true, ◌&&◌, List,
  [], ◌∷◌, ◌++◌, map, some, ok, all, All, length, arith, if◌then◌else◌, leb,
}
use ikigai_core.Content.{ContentId}
use ikigai_core.Content.Address.{
  two_digits, hex_digit, encode_hex, display, is_ascii_hexdigit, hex_value, byte_of, decode_pairs,
  decode_hex, parse,
}

hex_value-hex_digit : (n : ℕ) → n < 16 → hex_value (hex_digit n) ≡ some n
unfolding hex_value hex_digit
hex_value-hex_digit n h = ground arith

is_hexdigit-hex_digit : (n : ℕ) → n < 16 → is_ascii_hexdigit (hex_digit n) ≡ true
unfolding hex_digit
is_hexdigit-hex_digit n h = ground arith

length-encode_hex : (bytes : List ℕ) → length (encode_hex bytes) ≡ 2 * length bytes
unfolding encode_hex
length-encode_hex [] = omega arith
length-encode_hex (b ∷ bytes) = omega (arith, length-encode_hex bytes)

all-encode_hex :
    (bytes : List ℕ) → All (λ b. b < 256) bytes → all is_ascii_hexdigit (encode_hex bytes) ≡ true
unfolding encode_hex
all-encode_hex [] h = refl
all-encode_hex (b ∷ bytes) h = ground (
  arith,
  is_hexdigit-hex_digit (b / 16) (omega (arith, h.0)),
  is_hexdigit-hex_digit (b % 16) (omega arith),
  all-encode_hex bytes h.1,
)

byte_of-digits : (b : ℕ) → b < 256 → byte_of (hex_digit (b / 16)) (hex_digit (b % 16)) ≡ some b
unfolding byte_of
byte_of-digits b h =
    let digits : byte_of (hex_digit (b / 16)) (hex_digit (b % 16)) ≡ some (16 * (b / 16) + b % 16) =
      λ i.
        two_digits (hex_value-hex_digit (b / 16) (omega (arith, h)) i)
          (hex_value-hex_digit (b % 16) (omega arith) i) in
    digits ∙ ap some (omega arith)

decode_pairs-encode_hex :
    (bytes : List ℕ) → All (λ b. b < 256) bytes → decode_pairs (encode_hex bytes) ≡ some bytes
unfolding decode_pairs encode_hex
decode_pairs-encode_hex [] h = refl
decode_pairs-encode_hex (b ∷ bytes) h =
    rw (byte_of-digits b h.0, decode_pairs-encode_hex bytes h.1) refl

decode_hex-encode_hex :
    (bytes : List ℕ) → All (λ b. b < 256) bytes → decode_hex (encode_hex bytes) ≡ some bytes
unfolding decode_hex
decode_hex-encode_hex bytes small =
    let even : (length (encode_hex bytes) % 2 == 0) ≡ true =
      ground (arith, length-encode_hex bytes) in
    rw (even, all-encode_hex bytes small, decode_hex) (decode_pairs-encode_hex bytes small)

-- The text of a content address, whose 32 numbers are bytes, parses to the address.
pub parse-display :
    (id : ContentId) → length id ≡ 32 → All (λ b. b < 256) id → parse (display id) ≡ ok id
unfolding parse display
parse-display id wide small = rw (decode_hex-encode_hex id small, wide, parse) refl

-- A digit in lower case.
abbrev pub to_lower : ℕ → ℕ
to_lower c = if leb 0x41 c && leb c 0x5a then c + 32 else c

hex_value-to_lower : (c : ℕ) → is_ascii_hexdigit c ≡ true → hex_value (to_lower c) ≡ hex_value c
unfolding hex_value
hex_value-to_lower c h = ground arith

all-to_lower :
    (s : Str) → all is_ascii_hexdigit s ≡ true → all is_ascii_hexdigit (map to_lower s) ≡ true
all-to_lower [] h = refl
all-to_lower (c ∷ s) h = ground (arith, all-to_lower s)

byte_of-to_lower :
    (high low : ℕ)
    → is_ascii_hexdigit high ≡ true
    → is_ascii_hexdigit low ≡ true
    → byte_of (to_lower high) (to_lower low) ≡ byte_of high low
unfolding byte_of
byte_of-to_lower high low a b =
    λ i. two_digits (hex_value-to_lower high a i) (hex_value-to_lower low b i)

decode_pairs-to_lower :
    (s : Str) → all is_ascii_hexdigit s ≡ true → decode_pairs (map to_lower s) ≡ decode_pairs s
unfolding decode_pairs
decode_pairs-to_lower [] h = refl
decode_pairs-to_lower (c ∷ []) h = refl
decode_pairs-to_lower (high ∷ low ∷ rest) h =
    rw
      (
        byte_of-to_lower high low (ground arith) (ground arith),
        decode_pairs-to_lower rest (ground arith),
        decode_pairs,
      )
      refl

length-map : (s : Str) → length (map to_lower s) ≡ length s
length-map [] = refl
length-map (c ∷ s) = ap suc (length-map s)

decode_hex-to_lower :
    (s : Str) → all is_ascii_hexdigit s ≡ true → decode_hex (map to_lower s) ≡ decode_hex s
unfolding decode_hex
decode_hex-to_lower s h =
    rw (length-map s, all-to_lower s h, h, decode_pairs-to_lower s h, decode_hex) refl

-- The parser of content addresses answers the same for hexadecimal digits in upper case as for
-- those in lower case.
pub parse-to_lower :
    (hex : Str)
    → all is_ascii_hexdigit hex ≡ true
    → parse (codes "b3:" ++ map to_lower hex) ≡ parse (codes "b3:" ++ hex)
unfolding parse
parse-to_lower hex h = rw (decode_hex-to_lower hex h, parse) refl
