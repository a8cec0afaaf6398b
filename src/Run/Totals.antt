-- ===== src/Run/Totals.antt =====
-- crates/ikigai-core/src/run.rs: what reservations hold of each cell.
use ikigai_core.Run.Taking.{drawn}
use ikigai_core.Run.Narrowed.{IsBelow}
use ikigai_core.Run.Reservations.{Reservation}
use ikigai_core.Run.Pools.{child, minted, Pool}
use ikigai_core.Prelude.{
  remove_at, get_elem?, u64_mod, of_some, subst, ℕ, zero, suc, ◌+◌, ◌-◌, ◌≤◌, ◌<◌, nat_eq, list_eq,
  option_eq, eq_cases, eq_refl, ◌≡◌, refl, inl, inr, List, [], ◌∷◌, some, All, arith,
}

pub drawn_zero : (p : Pool) (c : ℕ) → drawn 0 p c ≡ 0
drawn_zero (minted cell) c = ground arith
drawn_zero (child cell above) c = ground (arith, drawn_zero above c)

pub drawn_add : (a b : ℕ) (p : Pool) (c : ℕ) → drawn (a + b) p c ≡ drawn a p c + drawn b p c
drawn_add a b (minted cell) c = ground arith
drawn_add a b (child cell above) c = ground (arith, drawn_add a b above c)

pub drawn_less :
    (a b : ℕ) (p : Pool) (c : ℕ) → b ≤ a → drawn (a - b) p c + drawn b p c ≡ drawn a p c
drawn_less a b (minted cell) c h = ground arith
drawn_less a b (child cell above) c h = ground (arith, drawn_less a b above c h)

pub drawn_fresh : (a n : ℕ) (p : Pool) → IsBelow n p → drawn a p n ≡ 0
drawn_fresh a n (minted cell) b = elim (eq_cases n cell) [
  | inl e ↦ absurd (omega (arith, e.0, b))
  | inr e ↦ ground (arith, e)
]
drawn_fresh a n (child cell above) b = elim (eq_cases n cell) [
  | inl e ↦ absurd (omega (arith, e.0, b.0))
  | inr e ↦ ground (arith, e, drawn_fresh a n above b.1)
]

pub IsBelow-suc : (n : ℕ) (p : Pool) → IsBelow n p → IsBelow (suc n) p
IsBelow-suc n (minted cell) b = omega (arith, b)
IsBelow-suc n (child cell above) b = (omega (arith, b.0), IsBelow-suc n above b.1)

-- The pool's own cell.
abbrev own : Pool → ℕ
own (minted cell) = cell
own (child cell above) = cell

drawn-own : (a : ℕ) (p : Pool) → a ≤ drawn a p (own p)
drawn-own a (minted cell) = ground (arith, eq_refl cell)
drawn-own a (child cell above) = ground (arith, eq_refl cell)

-- An amount that no cell shows to pass 64 bits does not.
pub drawn-IsU64 : (a : ℕ) (p : Pool) → ((c : ℕ) → drawn a p c < u64_mod) → a < u64_mod
drawn-IsU64 a p h = let here = h (own p) in omega (arith, drawn-own a p, here)

-- What the reservations of a list hold of a cell.
abbrev pub total : List Reservation → ℕ → ℕ
total [] c = 0
total (r ∷ rs) c = drawn r.bytes r.pool c + total rs c

pub total-remove_at :
    (rs : List Reservation) (i : ℕ) (r : Reservation) (c : ℕ)
    → get_elem? rs i ≡ some r
    → drawn r.bytes r.pool c + total (remove_at rs i) c ≡ total rs c
unfolding remove_at
total-remove_at [] i r c e = absurd (ground arith)
total-remove_at (x ∷ rs) zero r c e = ground (arith, of_some e)
total-remove_at (x ∷ rs) (suc i) r c e = omega (arith, total-remove_at rs i r c e)

abbrev pub IsHeld : ℕ → Reservation → Type 0
IsHeld n r = IsBelow n r.pool

pub total_fresh : (n : ℕ) (rs : List Reservation) → All (IsHeld n) rs → total rs n ≡ 0
total_fresh n [] h = refl
total_fresh n (r ∷ rs) h = omega (arith, drawn_fresh r.bytes n r.pool h.0, total_fresh n rs h.1)

module _ {ℓ κ} {A : Type ℓ} (P : A → Type κ) where
  pub All-remove_at : (xs : List A) (i : ℕ) → All P xs → All P (remove_at xs i)
  unfolding remove_at
  All-remove_at [] i h = tt
  All-remove_at (x ∷ xs) zero h = h.1
  All-remove_at (x ∷ xs) (suc i) h = (h.0, All-remove_at xs i h.1)

  pub All-get_elem? : (xs : List A) (i : ℕ) (x : A) → All P xs → get_elem? xs i ≡ some x → P x
  All-get_elem? [] i x h e = absurd (ground arith)
  All-get_elem? (y ∷ xs) zero x h e = subst P (of_some e) h.0
  All-get_elem? (y ∷ xs) (suc i) x h e = All-get_elem? xs i x h.1 e
