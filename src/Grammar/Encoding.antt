-- ===== src/Grammar/Encoding.antt =====
-- crates/ikigai-core/src/grammar.rs: what `expand_encoded` writes for a value.
use ikigai_core.Prelude.{
  ℕ, ◌+◌, ◌-◌, ◌*◌, ◌/◌, ◌%◌, ◌<◌, Str, ◌==◌, nat_eq, list_eq, option_eq, ◌≡◌, refl, ap, ◌∙◌, inl,
  inr, true, false, ◌||◌, [], ◌∷◌, ◌++◌, ltb, leb, All, if◌then◌else◌, arith, Bool-cases,
}
use ikigai_core.Prelude.{
  ltb→lt, ℕ, ◌+◌, ◌-◌, ◌*◌, ◌/◌, ◌%◌, ◌<◌, Str, ◌==◌, nat_eq, list_eq, option_eq, ◌≡◌, refl, ap,
  ◌∙◌, inl, inr, true, false, ◌||◌, [], ◌∷◌, ◌++◌, ltb, leb, All, if◌then◌else◌, arith, Bool-cases,
}
use ikigai_core.Prelude.{
  All-append, ℕ, ◌+◌, ◌-◌, ◌*◌, ◌/◌, ◌%◌, ◌<◌, Str, ◌==◌, nat_eq, list_eq, option_eq, ◌≡◌, refl, ap,
  ◌∙◌, inl, inr, true, false, ◌||◌, [], ◌∷◌, ◌++◌, ltb, leb, All, if◌then◌else◌, arith, Bool-cases,
}
use ikigai_core.Grammar.Template.{
  is_ascii_alphanumeric, is_mark, hex_upper, encode_byte, encode_bytes, utf8_char, utf8,
}

-- The value of a hexadecimal digit in upper case.
hex_value : ℕ → ℕ
hex_value d = if leb d 0x39 then d - 0x30 else d - 0x37

-- A reader of percent-encoded bytes.
unfoldable pub decode : Str → Str
unfolding hex_value
decode [] = []
decode (c ∷ []) = c ∷ []
decode (c ∷ a ∷ []) = c ∷ a ∷ []
decode (c ∷ a ∷ b ∷ s) =
    let coded = (hex_value a * 16 + hex_value b) ∷ decode s in
    let plain = c ∷ decode (a ∷ b ∷ s) in if c == 0x25 then coded else plain

abbrev pub IsByte : ℕ → Type 0
IsByte c = c < 256

-- A character that delimits nothing, or the sign of an encoded byte.
abbrev pub IsPlain : ℕ → Type 0
IsPlain c = (is_ascii_alphanumeric c || is_mark c || c == 0x25) ≡ true

hex_upper-IsPlain : (d : ℕ) → d < 16 → IsPlain (hex_upper d) × (hex_value (hex_upper d) ≡ d)
unfolding hex_upper hex_value
hex_upper-IsPlain d h = ground arith

encode_byte-IsPlain : (c : ℕ) → IsByte c → All IsPlain (encode_byte c)
unfolding encode_byte
encode_byte-IsPlain c h = elim (Bool-cases (is_ascii_alphanumeric c || is_mark c)) [
  | inl e ↦ rw e (ground arith, tt)
  | inr e ↦ rw e (
    refl,
    (
      (hex_upper-IsPlain (c / 16) (omega arith)).0,
      ((hex_upper-IsPlain (c % 16) (omega arith)).0, tt),
    ),
  )
]

decode-plain : (c : ℕ) (s : Str) → (c == 0x25) ≡ false → decode (c ∷ s) ≡ c ∷ decode s
unfolding decode
decode-plain c [] h = refl
decode-plain c (a ∷ []) h = refl
decode-plain c (a ∷ b ∷ s) h = ground arith

decode-coded :
    (c : ℕ) (s : Str)
    → IsByte c
    → decode (0x25 ∷ hex_upper (c / 16) ∷ hex_upper (c % 16) ∷ s) ≡ c ∷ decode s
unfolding decode
decode-coded c s h =
    let high = (hex_upper-IsPlain (c / 16) (omega arith)).1 in
    let low = (hex_upper-IsPlain (c % 16) (omega arith)).1 in
    let value : hex_value (hex_upper (c / 16)) * 16 + hex_value (hex_upper (c % 16)) ≡ c =
      omega (arith, high, low) in
    ap (λ x. x ∷ decode s) value

decode-encode_byte : (c : ℕ) (s : Str) → IsByte c → decode (encode_byte c ++ s) ≡ c ∷ decode s
unfolding encode_byte
decode-encode_byte c s h = elim (Bool-cases (is_ascii_alphanumeric c || is_mark c)) [
  | inl e ↦ rw e (decode-plain c s (ground arith))
  | inr e ↦ rw e (decode-coded c s h)
]

pub record Encodes (v : Str) : Type 0 where
  pub harmless : All IsPlain (encode_bytes (utf8 v))
  pub decoded : decode (encode_bytes (utf8 v)) ≡ utf8 v

encode_bytes-IsPlain : (s : Str) → All IsByte s → All IsPlain (encode_bytes s)
unfolding encode_bytes
encode_bytes-IsPlain [] h = tt
encode_bytes-IsPlain (c ∷ s) h =
    All-append IsPlain (encode_byte c) (encode_bytes s) (encode_byte-IsPlain c h.0)
      (encode_bytes-IsPlain s h.1)

decode-encode_bytes : (s : Str) → All IsByte s → decode (encode_bytes s) ≡ s
unfolding encode_bytes decode
decode-encode_bytes [] h = refl
decode-encode_bytes (c ∷ s) h =
    decode-encode_byte c (encode_bytes s) h.0 ∙ ap (λ r. c ∷ r) (decode-encode_bytes s h.1)

-- `char`
abbrev pub IsScalar : ℕ → Type 0
IsScalar c = c < 0x110000

utf8_char-IsByte : (c : ℕ) → IsScalar c → All IsByte (utf8_char c)
unfolding utf8_char
utf8_char-IsByte c h = elim (Bool-cases (ltb c 0x80)) [
  | inl e ↦ rw e (omega (arith, ltb→lt c 0x80 e), tt)
  | inr e ↦ rw e (elim (Bool-cases (ltb c 0x800)) [
    | inl e' ↦ let small = ltb→lt c 0x800 e' in rw e' (omega arith, (omega arith, tt))
    | inr e' ↦ rw e' (elim (Bool-cases (ltb c 0x10000)) [
      | inl d ↦
          let small = ltb→lt c 0x10000 d in rw d (omega arith, (omega arith, (omega arith, tt)))
      | inr d ↦ rw d (omega arith, (omega arith, (omega arith, (omega arith, tt))))
    ])
  ])
]

utf8-IsByte : (v : Str) → All IsScalar v → All IsByte (utf8 v)
unfolding utf8
utf8-IsByte [] h = tt
utf8-IsByte (c ∷ v) h =
    All-append IsByte (utf8_char c) (utf8 v) (utf8_char-IsByte c h.0) (utf8-IsByte v h.1)

-- What encoded expansion writes for a value holds only letters, digits, the four marks and the
-- percent sign, and reading it as percent-encoded text gives the bytes of the value back.
pub encode_bytes-utf8 : (v : Str) → All IsScalar v → Encodes v
encode_bytes-utf8 v h = record {
  harmless = encode_bytes-IsPlain (utf8 v) (utf8-IsByte v h);
  decoded = decode-encode_bytes (utf8 v) (utf8-IsByte v h);
}
