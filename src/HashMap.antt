-- ===== src/HashMap.antt =====
-- `HashMap` as an association list. The order of the pairs stands for the table's own order, which
-- the program may not rely on.
pub mod Laws
pub mod Totals
use ikigai_core.Prelude.{
  Eq, ◌==◌, Bool, true, false, List, [], ◌∷◌, Option, none, some, if◌then◌else◌, is_some, map,
}

abbrev pub HashMap {ℓ κ} : Type ℓ → Type κ → Type (ℓ ⊔ κ)
HashMap K V = List (K × V)

module _ {ℓ κ} {K : Type ℓ} {V : Type κ} ⦃e : Eq K⦄ where
  unfoldable pub get : HashMap K V → K → Option V
  get [] k = none
  get ((j, v) ∷ m) k = if j == k then some v else get m k

  abbrev pub contains_key : HashMap K V → K → Bool
  contains_key m k = is_some (get m k)

  -- A present key keeps its place.
  unfoldable pub insert : K → V → HashMap K V → HashMap K V
  insert k v [] = (k, v) ∷ []
  insert k v ((j, w) ∷ m) = if j == k then (j, v) ∷ m else (j, w) ∷ insert k v m

  unfoldable pub remove : K → HashMap K V → HashMap K V
  remove k [] = []
  remove k ((j, w) ∷ m) = if j == k then m else (j, w) ∷ remove k m

  -- A write through `get_mut`.
  unfoldable pub modify : K → (V → V) → HashMap K V → HashMap K V
  modify k f [] = []
  modify k f ((j, w) ∷ m) = if j == k then (j, f w) ∷ m else (j, w) ∷ modify k f m

module _ {ℓ κ} {K : Type ℓ} {V : Type κ} where
  unfoldable pub retain : (K → V → Bool) → HashMap K V → HashMap K V
  retain p [] = []
  retain p ((j, w) ∷ m) = elim (p j w) [ true ↦ (j, w) ∷ retain p m | false ↦ retain p m ]

  abbrev pub keys : HashMap K V → List K
  keys = map (λ p. p.0)

  abbrev pub values : HashMap K V → List V
  values = map (λ p. p.1)
