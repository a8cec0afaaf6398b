-- ===== src/Capability/Scope.antt =====
-- crates/ikigai-core/src/capability.rs: the syntax of a scope. A text is its bytes. All that these
-- functions test for is ASCII, and a byte of a longer character is none of it, so that a test on
-- `chars` and one on the bytes agree.
use ikigai_core.Prelude.{
  ℕ, zero, suc, Str, codes, ◌==◌, nat_eq, Bool, true, false, ◌&&◌, ◌||◌, List, [], ◌∷◌, Option,
  none, some, leb, all, starts_with, strip_prefix, if◌then◌else◌,
}

abbrev pub colon : ℕ
colon = 0x3a

abbrev pub cap_prefix : Str
cap_prefix = codes "urn:cap:"

-- `split_once`: the text before the first separator, and the text behind it.
unfoldable pub split_once : ℕ → Str → Option (Str × Str)
split_once sep [] = none
split_once sep (c ∷ s) =
    if c == sep
    then some ([], s)
    else elim (split_once sep s) [ none ↦ none | some (a, b) ↦ some (c ∷ a, b) ]

-- `splitn`: at most `n` segments, the last one with the separators that are left.
unfoldable pub splitn : ℕ → ℕ → Str → List Str
unfolding split_once
splitn zero sep s = []
splitn (suc zero) sep s = s ∷ []
splitn (suc (suc n)) sep s = elim (split_once sep s) [
  | none ↦ s ∷ []
  | some (a, b) ↦ a ∷ splitn (suc n) sep b
]

abbrev pub is_ascii_lowercase : ℕ → Bool
is_ascii_lowercase c = leb 0x61 c && leb c 0x7a

abbrev pub is_ascii_digit : ℕ → Bool
is_ascii_digit c = leb 0x30 c && leb c 0x39

abbrev word_start : ℕ → Bool
word_start c = is_ascii_lowercase c || is_ascii_digit c

abbrev word_char : ℕ → Bool
word_char c = is_ascii_lowercase c || is_ascii_digit c || c == 0x5f || c == 0x2d

unfoldable pub is_word : Str → Bool
is_word [] = false
is_word (c ∷ s) = word_start c && all word_char s

unfoldable pub starts_with_dash : Str → Bool
unfolding starts_with
starts_with_dash s = starts_with (codes "-") s

-- `segments.next().is_some_and(|rule| rule.starts_with('-'))`
deny_rule : List Str → Bool
deny_rule [] = false
deny_rule (rule ∷ _) = starts_with_dash rule

-- The `match` on the second segment, with its guards in order.
deny_second : List Str → Bool
deny_second [] = false
deny_second (second ∷ rest) =
    if starts_with_dash second then true else if is_word second then deny_rule rest else false

deny_segments : List Str → Bool
deny_segments [] = false
deny_segments (family ∷ rest) = if is_word family then deny_second rest else false

unfoldable pub is_deny_scope : Str → Bool
unfolding strip_prefix splitn is_word starts_with_dash deny_rule deny_second deny_segments
is_deny_scope scope = elim (strip_prefix cap_prefix scope) [
  | none ↦ false
  | some rest ↦ deny_segments (splitn 3 colon rest)
]
