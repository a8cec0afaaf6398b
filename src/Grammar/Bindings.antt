-- ===== src/Grammar/Bindings.antt =====
-- crates/ikigai-core/src/grammar.rs: `Bindings`, a `BTreeMap<String, String>` as the list of its
-- pairs in the order of their names.
use ikigai_core.Prelude.{
  Str, ◌==◌, nat_eq, list_eq, option_eq, eq_cases, ◌≡◌, refl, Bool, true, false, List, [], ◌∷◌,
  Option, none, some, if◌then◌else◌, arith, str_cmp, str_cmp_eq, str_cmp_refl,
}
use Prim.Native.Nat.{Ordering}

abbrev pub Bindings : Type 0
Bindings = List (Str × Str)

abbrev pub new : Bindings
new = []

unfoldable pub get : Bindings → Str → Option Str
get [] key = none
get ((k, v) ∷ b) key = if k == key then some v else get b key

unfoldable pub insert : Str → Str → Bindings → Bindings
insert key value [] = (key, value) ∷ []
insert key value ((k, v) ∷ b) = elim (str_cmp key k) [
  | Ordering.lt ↦ (key, value) ∷ (k, v) ∷ b
  | Ordering.eq ↦ (k, value) ∷ b
  | Ordering.gt ↦ (k, v) ∷ insert key value b
]

unfoldable pub is_empty : Bindings → Bool
is_empty [] = true
is_empty (p ∷ b) = false

pub get-insert :
    (key value j : Str) (b : Bindings)
    → get (insert key value b) j ≡ (if key == j then some value else get b j)
unfolding get insert
get-insert key value j [] = refl
get-insert key value j ((k, v) ∷ b) = ground (
  arith,
  get-insert key value j b,
  str_cmp_eq key k,
  str_cmp_refl key,
  eq_cases key j,
  eq_cases k j,
)
