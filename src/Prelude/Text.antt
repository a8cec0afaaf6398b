-- ===== src/Prelude/Text.antt =====
-- Texts as lists of bytes, which is what `str::len`, `starts_with` and the order of `String` read.
use Prim.Native.Nat.{ℕ, compare, Ordering}
use Prim.Native.Char.{code}
use Prim.Native.String.{String}
use mathlib.Core.Path.{◌≡◌, refl}
use mathlib.Core.Bool.{Bool, true, false, ◌&&◌}
use mathlib.Core.List.{List, [], ◌∷◌, ◌++◌}
use mathlib.Core.Option.{Option, none, some}
use native.Mathlib.Omega.{arith}
use ikigai_core.Prelude.Numbers.{if◌then◌else◌}
use ikigai_core.Prelude.Equality.{nat_eq, ◌==◌, list_eq}

abbrev pub Str : Type 0
Str = List ℕ

-- The bytes of an ASCII literal.
abbrev pub codes : String → Str
codes String.[] = []
codes (String.◌∷◌ c s) = code c ∷ codes s

unfoldable pub strip_prefix : Str → Str → Option Str
strip_prefix [] s = some s
strip_prefix (p ∷ ps) [] = none
strip_prefix (p ∷ ps) (c ∷ s) = let rest = strip_prefix ps s in if p == c then rest else none

unfoldable pub starts_with : Str → Str → Bool
starts_with [] s = true
starts_with (p ∷ ps) [] = false
starts_with (p ∷ ps) (c ∷ s) = p == c && starts_with ps s

pub strip_prefix-append : (p s : Str) → strip_prefix p (p ++ s) ≡ some s
unfolding strip_prefix
strip_prefix-append [] s = refl
strip_prefix-append (c ∷ p) s = ground (arith, strip_prefix-append p s)

pub append_of-strip_prefix : (p s r : Str) → strip_prefix p s ≡ some r → s ≡ p ++ r
unfolding strip_prefix
append_of-strip_prefix [] s r h = ground arith
append_of-strip_prefix (c ∷ p) [] r h = ground arith
append_of-strip_prefix (c ∷ p) (d ∷ s) r h = ground (arith, append_of-strip_prefix p s r)

pub starts_with-append : (p s : Str) → starts_with p (p ++ s) ≡ true
unfolding starts_with
starts_with-append [] s = refl
starts_with-append (c ∷ p) s = ground (arith, starts_with-append p s)

-- The order of `String`: by bytes, a proper prefix first.
unfoldable pub str_cmp : Str → Str → Ordering
str_cmp [] [] = Ordering.eq
str_cmp [] (y ∷ ys) = Ordering.lt
str_cmp (x ∷ xs) [] = Ordering.gt
str_cmp (x ∷ xs) (y ∷ ys) = elim (compare x y) [
  | Ordering.lt ↦ Ordering.lt
  | Ordering.eq ↦ str_cmp xs ys
  | Ordering.gt ↦ Ordering.gt
]

abbrev pub Lt : Str → Str → Type 0
Lt a b = str_cmp a b ≡ Ordering.lt

pub str_cmp_refl : (a : Str) → str_cmp a a ≡ Ordering.eq
unfolding str_cmp
str_cmp_refl [] = refl
str_cmp_refl (x ∷ xs) = ground (arith, str_cmp_refl xs)

pub str_cmp_eq : (a b : Str) → str_cmp a b ≡ Ordering.eq → a ≡ b
unfolding str_cmp
str_cmp_eq [] [] h = refl
str_cmp_eq [] (y ∷ b) h = ground arith
str_cmp_eq (x ∷ a) [] h = ground arith
str_cmp_eq (x ∷ a) (y ∷ b) h = ground (arith, str_cmp_eq a b)

pub str_cmp_gt : (a b : Str) → str_cmp a b ≡ Ordering.gt → Lt b a
unfolding str_cmp
str_cmp_gt [] [] h = ground arith
str_cmp_gt [] (y ∷ b) h = ground arith
str_cmp_gt (x ∷ a) [] h = refl
str_cmp_gt (x ∷ a) (y ∷ b) h = ground (arith, str_cmp_gt a b)

pub Lt_trans : (a b c : Str) → Lt a b → Lt b c → Lt a c
unfolding str_cmp
Lt_trans [] [] c h k = ground arith
Lt_trans [] (y ∷ b) [] h k = ground arith
Lt_trans [] (y ∷ b) (z ∷ c) h k = refl
Lt_trans (x ∷ a) [] c h k = ground arith
Lt_trans (x ∷ a) (y ∷ b) [] h k = ground arith
Lt_trans (x ∷ a) (y ∷ b) (z ∷ c) h k = ground (arith, Lt_trans a b c)

pub Lt_irrefl : (a : Str) → Lt a a → ⊥
Lt_irrefl a h = ground (arith, str_cmp_refl a)
