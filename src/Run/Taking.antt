-- ===== src/Run/Taking.antt =====
-- crates/ikigai-core/src/run.rs: `try_take` and `give_back`, cell by cell.
-- What a taking of the amount takes from a cell, by a list of cells and by a pool.
use ikigai_core.Run.Pools.{
  child, set_left, fetch_add, minted, take, Left, take_along, return_taken, try_take, Pool,
  give_back,
}
use ikigai_core.Prelude.{
  u64_mod, ℕ, ◌+◌, ◌<◌, ◌==◌, nat_eq, list_eq, option_eq, eq_cases, ◌≡◌, ◌∙◌, inl, inr, Bool, true,
  false, List, [], ◌∷◌, ◌++◌, some, if◌then◌else◌, arith, Option-cases,
}

abbrev pub charge : ℕ → ℕ → ℕ → ℕ
charge amount cell c = if c == cell then amount else 0

abbrev pub charged : ℕ → List ℕ → ℕ → ℕ
charged amount [] c = 0
charged amount (cell ∷ taken) c = charge amount cell c + charged amount taken c

abbrev pub drawn : ℕ → Pool → ℕ → ℕ
drawn amount (minted cell) c = charge amount cell c
drawn amount (child cell above) c = charge amount cell c + drawn amount above c

abbrev pub IsU64 : Left → Type 0
IsU64 left = (c : ℕ) → left c < u64_mod

charged_more :
    (amount : ℕ) (taken : List ℕ) (cell c : ℕ)
    → charged amount (taken ++ cell ∷ []) c ≡ charged amount taken c + charge amount cell c
charged_more amount [] cell c = omega arith
charged_more amount (x ∷ taken) cell c = omega (arith, charged_more amount taken cell c)

-- An addition that does not wrap.
fetch_add-charge :
    (cell amount : ℕ) (left : Left) (c : ℕ)
    → left c + charge amount cell c < u64_mod
    → fetch_add cell amount left c ≡ left c + charge amount cell c
fetch_add-charge cell amount left c b = elim (eq_cases c cell) [
  | inl e ↦ ground (arith, e)
  | inr e ↦ ground (arith, e)
]

set_left-charge :
    (cell amount next : ℕ) (left : Left) (c : ℕ)
    → take (left cell) amount ≡ some next
    → set_left cell next left c + charge amount cell c ≡ left c
set_left-charge cell amount next left c t = elim (eq_cases c cell) [
  | inl e ↦ ground (arith, e)
  | inr e ↦ ground (arith, e)
]

return_taken-charged :
    (amount : ℕ) (taken : List ℕ) (left : Left)
    → ((c : ℕ) → left c + charged amount taken c < u64_mod)
    → (c : ℕ) → return_taken amount taken left c ≡ left c + charged amount taken c
unfolding return_taken
return_taken-charged amount [] left b c = omega arith
return_taken-charged amount (cell ∷ taken) left b c =
    let step : (x : ℕ) → fetch_add cell amount left x ≡ left x + charge amount cell x =
      λ x. let bx = b x in fetch_add-charge cell amount left x (omega arith) in
    let rest =
      return_taken-charged amount taken (fetch_add cell amount left)
        (λ x. let bx = b x in let sx = step x in omega arith) c in
    let sc = step c in omega arith

-- What an outcome of `try_take` leaves in each cell: the amount less along the pool and the same
-- elsewhere, or all as it was at first.
abbrev pub Outcome : Left → Left → ℕ → Pool → Left × Bool → Type 0
Outcome first left amount p (after, true) = (c : ℕ) → after c + drawn amount p c ≡ left c
Outcome first left amount p (after, false) = (c : ℕ) → after c ≡ first c

take_along-Outcome :
    (amount : ℕ) (p : Pool) (taken : List ℕ) (first left : Left)
    → IsU64 first
    → ((c : ℕ) → left c + charged amount taken c ≡ first c)
    → Outcome first left amount p (take_along amount p taken left)
unfolding take_along
take_along-Outcome amount (minted cell) taken first left u owed =
    elim (Option-cases (take (left cell) amount)) [
      | inl t ↦
          rw (t, take_along)
            λ c. return_taken-charged amount taken left (λ x. rw (owed x) (u x)) c ∙ owed c
      | inr (next, t) ↦ rw (t, take_along) λ c. set_left-charge cell amount next left c t
    ]
take_along-Outcome amount (child cell above) taken first left u owed =
    elim (Option-cases (take (left cell) amount)) [
      | inl t ↦
          rw (t, take_along)
            λ c. return_taken-charged amount taken left (λ x. rw (owed x) (u x)) c ∙ owed c
      | inr (next, t) ↦
          let step : (c : ℕ) → set_left cell next left c + charge amount cell c ≡ left c =
            λ c. set_left-charge cell amount next left c t in
          rw (t, take_along)
            (further amount cell above first left (set_left cell next left)
              (take_along amount above (taken ++ cell ∷ []) (set_left cell next left)) step
              (take_along-Outcome amount above (taken ++ cell ∷ []) first (set_left cell next left)
                u
                λ c.
                  let s = step c in
                  let o = owed c in let m = charged_more amount taken cell c in omega arith))
    ]
  where
    further :
        (amount cell : ℕ) (above : Pool) (first left lower : Left) (r : Left × Bool)
        → ((c : ℕ) → lower c + charge amount cell c ≡ left c)
        → Outcome first lower amount above r
        → Outcome first left amount (child cell above) r
    further amount cell above first left lower (after, true) step h =
        λ c. let s = step c in let hc = h c in omega arith
    further amount cell above first left lower (after, false) step h = h

pub try_take-Outcome :
    (left : Left) (p : Pool) (amount : ℕ)
    → IsU64 left
    → Outcome left left amount p (try_take left p amount)
unfolding try_take
try_take-Outcome left p amount u = take_along-Outcome amount p [] left left u λ c. omega arith

-- What is given back is added along the pool.
pub give_back-drawn :
    (p : Pool) (left : Left) (amount : ℕ)
    → ((c : ℕ) → left c + drawn amount p c < u64_mod)
    → (c : ℕ) → give_back left p amount c ≡ left c + drawn amount p c
unfolding give_back
give_back-drawn (minted cell) left amount b c = fetch_add-charge cell amount left c (b c)
give_back-drawn (child cell above) left amount b c =
    let step : (x : ℕ) → fetch_add cell amount left x ≡ left x + charge amount cell x =
      λ x. let bx = b x in fetch_add-charge cell amount left x (omega arith) in
    let rest =
      give_back-drawn above (fetch_add cell amount left) amount
        (λ x. let bx = b x in let sx = step x in omega arith) c in
    let sc = step c in omega arith
