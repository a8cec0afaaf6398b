-- ===== src/Spaces/Stacking.antt =====
-- crates/ikigai-core/src/space.rs: chains as a host builds them, and one stacked on another.
use ikigai_core.Prelude.{
  ℕ, zero, suc, ◌+◌, ◌≤◌, nat_eq, list_eq, option_eq, ◌≡◌, refl, sym, ap, ◌∙◌, inl, inr, true,
  false, not, ◌&&◌, List, [], ◌∷◌, ◌++◌, Option, none, some, length, if◌then◌else◌, arith,
  Bool-cases,
}
use ikigai_core.Prelude.{
  subst, ℕ, zero, suc, ◌+◌, ◌≤◌, nat_eq, list_eq, option_eq, ◌≡◌, refl, sym, ap, ◌∙◌, inl, inr,
  true, false, not, ◌&&◌, List, [], ◌∷◌, ◌++◌, Option, none, some, length, if◌then◌else◌, arith,
  Bool-cases,
}
use ikigai_core.Prelude.{
  ℕ, zero, suc, ◌+◌, ◌≤◌, nat_eq, list_eq, option_eq, ◌≡◌, refl, sym, ap, ◌∙◌, inl, inr, true,
  false, not, ◌&&◌, List, [], ◌∷◌, ◌++◌, Option, none, some, length, if◌then◌else◌, arith,
  Bool-cases,
}
use ikigai_core.Prelude.{length-append}
use mathlib.Core.List.{append-nil, append_assoc}
use ikigai_core.Grammar.Search.{take, drop}
use ikigai_core.Spaces.Tree.{Space}
use ikigai_core.Spaces.Scope.{
  Chain, Scope, CorridorIdentity, no_chain, none_of, is_empty_chain, chain_of, edit, push, push_at,
  sever, confined, stack_on, stack,
}
use ikigai_core.Spaces.Order.{IsChain, IsScope}

-- A step of a host.
pub data Step : Type 0 where
  pushed : Space → CorridorIdentity → Step
  pushed_at : Space → CorridorIdentity → ℕ → Step
  severed_here : Step
  confined_to : Space → CorridorIdentity → Step

unfoldable pub apply_step : Step → Scope → Scope
unfolding push push_at sever confined
apply_step (pushed space i) s = push space i s
apply_step (pushed_at space i clock) s = push_at space i clock s
apply_step severed_here s = sever s
apply_step (confined_to space i) s = confined space i s

unfoldable pub build : List Step → Scope → Scope
unfolding apply_step
build [] s = s
build (x ∷ xs) s = build xs (apply_step x s)

-- A chain that a host has built.
pub record IsBuilt (c : Chain) : Type 0 where
  pub paired : length c.identities ≡ length c.injected
  pub within : c.confined_count ≤ length c.injected
  pub filled : (none_of c.injected && not c.severed) ≡ false

abbrev pub IsHostScope : Scope → Type 0
IsHostScope none = Unit {0}
IsHostScope (some c) = IsBuilt c

none_of-snoc {ℓ} : {A : Type ℓ} (l : List A) (x : A) → none_of (l ++ (x ∷ [])) ≡ false
none_of-snoc [] x = refl
none_of-snoc (y ∷ l) x = refl

take-append {ℓ} : {A : Type ℓ} (n : ℕ) (l r : List A) → n ≤ length l → take n (l ++ r) ≡ take n l
unfolding take
take-append zero l r h = refl
take-append (suc n) [] r h = absurd (omega arith)
take-append (suc n) (x ∷ l) r h = ap (λ m. x ∷ m) (take-append n l r (omega arith))

drop-append {ℓ} :
    {A : Type ℓ} (n : ℕ) (l r : List A) → n ≤ length l → drop n (l ++ r) ≡ drop n l ++ r
unfolding drop
drop-append zero l r h = refl
drop-append (suc n) [] r h = absurd (omega arith)
drop-append (suc n) (x ∷ l) r h = drop-append n l r (omega arith)

edit-some :
    (s : Scope) (step : Chain → Chain)
    → is_empty_chain (step (chain_of s)) ≡ false
    → edit s step ≡ some (step (chain_of s))
unfolding edit
edit-some s step h = rw h

-- The result of each edit.
abbrev pushed_chain : Space → CorridorIdentity → Option ℕ → Chain → Chain
pushed_chain space i clock c = record c {
  injected = c.injected ++ (space ∷ []);
  identities = c.identities ++ (i ∷ []);
  clock = elim clock [ none ↦ c.clock | some t ↦ some t ];
}

abbrev severed_chain : Chain → Chain
severed_chain c = record c { severed = true }

abbrev confined_chain : Space → CorridorIdentity → Chain → Chain
confined_chain space i c = record c {
  injected = space ∷ c.injected;
  identities = i ∷ c.identities;
  confined_count = c.confined_count + 1;
  levels = [];
  severed = true;
}

abbrev step_chain : Step → Chain → Chain
step_chain (pushed space i) c = pushed_chain space i none c
step_chain (pushed_at space i clock) c = pushed_chain space i (some clock) c
step_chain severed_here c = severed_chain c
step_chain (confined_to space i) c = confined_chain space i c

severed-filled : (c : Chain) → is_empty_chain (severed_chain c) ≡ false
unfolding is_empty_chain
severed-filled c = ground arith

confined-filled :
    (space : Space) (i : CorridorIdentity) (c : Chain)
    → is_empty_chain (confined_chain space i c) ≡ false
unfolding is_empty_chain
confined-filled space i c = refl

pushed-filled :
    (space : Space) (i : CorridorIdentity) (clock : Option ℕ) (c : Chain)
    → is_empty_chain (pushed_chain space i clock c) ≡ false
unfolding is_empty_chain
pushed-filled space i clock c = ground (arith, none_of-snoc c.injected space)

apply_step-some : (x : Step) (s : Scope) → apply_step x s ≡ some (step_chain x (chain_of s))
unfolding apply_step push push_at sever confined
apply_step-some (pushed space i) s =
    edit-some s (pushed_chain space i none) (pushed-filled space i none (chain_of s))
apply_step-some (pushed_at space i clock) s =
    edit-some s (pushed_chain space i (some clock))
      (pushed-filled space i (some clock) (chain_of s))
apply_step-some severed_here s = edit-some s severed_chain (severed-filled (chain_of s))
apply_step-some (confined_to space i) s =
    edit-some s (confined_chain space i) (confined-filled space i (chain_of s))

chain_of-IsChain : (s : Scope) → IsHostScope s → IsChain (chain_of s)
chain_of-IsChain none h = record { paired = refl; within = omega arith }
chain_of-IsChain (some c) h = record { paired = h.paired; within = h.within }

pushed-IsBuilt :
    (space : Space) (i : CorridorIdentity) (clock : Option ℕ) (c : Chain)
    → IsChain c
    → IsBuilt (pushed_chain space i clock c)
pushed-IsBuilt space i clock c p = record {
  paired =
      omega (
        arith,
        p.paired,
        length-append c.identities (i ∷ []),
        length-append c.injected (space ∷ []),
      );
  within = omega (arith, p.within, length-append c.injected (space ∷ []));
  filled = ground (arith, none_of-snoc c.injected space);
}

step_chain-IsBuilt : (x : Step) (c : Chain) → IsChain c → IsBuilt (step_chain x c)
step_chain-IsBuilt (pushed space i) c p = pushed-IsBuilt space i none c p
step_chain-IsBuilt (pushed_at space i clock) c p = pushed-IsBuilt space i (some clock) c p
step_chain-IsBuilt severed_here c p = record {
  paired = p.paired;
  within = p.within;
  filled = ground arith;
}
step_chain-IsBuilt (confined_to space i) c p = record {
  paired = omega (arith, p.paired);
  within = omega (arith, p.within);
  filled = refl;
}

apply_step-IsHostScope : (x : Step) (s : Scope) → IsHostScope s → IsHostScope (apply_step x s)
apply_step-IsHostScope x s h =
    subst IsHostScope (sym (apply_step-some x s))
      (step_chain-IsBuilt x (chain_of s) (chain_of-IsChain s h))

none_of-parted {ℓ} :
    {A : Type ℓ} (n : ℕ) (l m : List A)
    → none_of l ≡ false
    → none_of (take n l ++ (m ++ drop n l)) ≡ false
unfolding take drop
none_of-parted n [] m h = absurd (ground arith)
none_of-parted zero (x ∷ l) [] h = refl
none_of-parted zero (x ∷ l) (y ∷ m) h = refl
none_of-parted (suc n) (x ∷ l) m h = refl

take-suc {ℓ} : {A : Type ℓ} (n : ℕ) (x : A) (l : List A) → take (n + 1) (x ∷ l) ≡ x ∷ take n l
unfolding take
take-suc n x l = let e : n + 1 ≡ suc n = omega arith in ap (λ k. take k (x ∷ l)) e

drop-suc {ℓ} : {A : Type ℓ} (n : ℕ) (x : A) (l : List A) → drop (n + 1) (x ∷ l) ≡ drop n l
unfolding drop
drop-suc n x l = let e : n + 1 ≡ suc n = omega arith in ap (λ k. drop k (x ∷ l)) e

-- What a step adds at an end of the list that stands for the corridors.
parted-snoc {ℓ} :
    {A : Type ℓ} (n : ℕ) (l m : List A) (x : A)
    → n ≤ length l
    → take n (l ++ (x ∷ [])) ++ (m ++ drop n (l ++ (x ∷ [])))
      ≡ (take n l ++ (m ++ drop n l)) ++ (x ∷ [])
parted-snoc n l m x h =
    (λ k. take-append n l (x ∷ []) h k ++ (m ++ drop-append n l (x ∷ []) h k))
    ∙ ap (λ r. take n l ++ r) (sym (append_assoc m (drop n l) (x ∷ [])))
    ∙ sym (append_assoc (take n l) (m ++ drop n l) (x ∷ []))

parted-cons {ℓ} :
    {A : Type ℓ} (n : ℕ) (l m : List A) (x : A)
    → take (n + 1) (x ∷ l) ++ (m ++ drop (n + 1) (x ∷ l)) ≡ x ∷ (take n l ++ (m ++ drop n l))
parted-cons n l m x = λ k. take-suc n x l k ++ (m ++ drop-suc n x l k)

abbrev latest : Option ℕ → Option ℕ → Option ℕ
latest a b = elim a [ none ↦ b | some t ↦ some t ]

latest_assoc : (a b c : Option ℕ) → latest (latest a b) c ≡ latest a (latest b c)
latest_assoc none b c = refl
latest_assoc (some t) b c = refl

count-more :
    (n : ℕ) (l : List Space) → n + suc (length l) ≡ (if none_of l then n else n + length l) + 1
count-more n [] = omega arith
count-more n (x ∷ l) = omega arith

module _ (o c : Chain) (p : IsChain o) where
  stack_on-pushed :
      (space : Space) (i : CorridorIdentity) (clock : Option ℕ)
      → stack_on (pushed_chain space i clock o) c ≡ pushed_chain space i clock (stack_on o c)
  unfolding stack_on
  stack_on-pushed space i clock =
      let inside : o.confined_count ≤ length o.identities = omega (arith, p.within, p.paired) in
      let behind = take-append o.confined_count o.injected (space ∷ []) p.within in
      λ k. record {
        injected = parted-snoc o.confined_count o.injected c.injected space p.within k;
        identities = parted-snoc o.confined_count o.identities c.identities i inside k;
        severed = if o.severed then true else c.severed;
        confined_count =
            if none_of (behind k) then c.confined_count else c.confined_count + length (behind k);
        levels =
            if none_of o.levels then (if none_of (behind k) then c.levels else []) else o.levels;
        clock = latest_assoc clock o.clock c.clock k;
      }

  stack_on-confined :
      (space : Space) (i : CorridorIdentity)
      → stack_on (confined_chain space i o) c ≡ confined_chain space i (stack_on o c)
  unfolding stack_on
  stack_on-confined space i =
      let behind = take-suc o.confined_count space o.injected in
      let taken : List Space = take o.confined_count o.injected in
      (λ k. record {
        injected = parted-cons o.confined_count o.injected c.injected space k;
        identities = parted-cons o.confined_count o.identities c.identities i k;
        severed = true;
        confined_count =
            if none_of (behind k) then c.confined_count else c.confined_count + length (behind k);
        levels = if none_of (behind k) then c.levels else [];
        clock = latest o.clock c.clock;
      })
      ∙ (λ k. record {
        injected = space ∷ (taken ++ (c.injected ++ drop o.confined_count o.injected));
        identities =
            i
            ∷ (take o.confined_count o.identities
                ++ (c.identities ++ drop o.confined_count o.identities));
        severed = true;
        confined_count = count-more c.confined_count taken k;
        levels = [];
        clock = latest o.clock c.clock;
      })

  stack_on-step : (x : Step) → stack_on (step_chain x o) c ≡ step_chain x (stack_on o c)
  unfolding stack_on
  stack_on-step (pushed space i) = stack_on-pushed space i none
  stack_on-step (pushed_at space i clock) = stack_on-pushed space i (some clock)
  stack_on-step severed_here = refl
  stack_on-step (confined_to space i) = stack_on-confined space i

stack_on-filled : (o c : Chain) → IsBuilt o → is_empty_chain (stack_on o c) ≡ false
unfolding is_empty_chain stack_on
stack_on-filled o c p = elim (Bool-cases o.severed) [
  | inl e ↦ ground (arith, e)
  | inr e ↦
      let full =
        none_of-parted o.confined_count o.injected c.injected (ground (arith, e, p.filled)) in
      ground (arith, full)
]

stack_on-no_chain : (c : Chain) → stack_on no_chain c ≡ c
unfolding stack_on take drop
stack_on-no_chain c = λ k. record {
  injected = append-nil c.injected k;
  identities = append-nil c.identities k;
  severed = c.severed;
  confined_count = c.confined_count;
  levels = c.levels;
  clock = c.clock;
}

-- The chain that stacking leaves.
chain_of-stack :
    (s u : Scope) → IsHostScope u → chain_of (stack s u) ≡ stack_on (chain_of u) (chain_of s)
unfolding stack
chain_of-stack s none h = sym (stack_on-no_chain (chain_of s))
chain_of-stack s (some o) h =
    ap chain_of (edit-some s (stack_on o) (stack_on-filled o (chain_of s) h))

stack-some : (s : Scope) (o : Chain) → IsBuilt o → stack s (some o) ≡ some (stack_on o (chain_of s))
unfolding stack
stack-some s o p = edit-some s (stack_on o) (stack_on-filled o (chain_of s) p)

stack-apply_step :
    (x : Step) (s u : Scope) → IsHostScope u → stack s (apply_step x u) ≡ apply_step x (stack s u)
stack-apply_step x s u h =
    ap (stack s) (apply_step-some x u)
    ∙ stack-some s (step_chain x (chain_of u))
        (step_chain-IsBuilt x (chain_of u) (chain_of-IsChain u h))
    ∙ ap some (stack_on-step (chain_of u) (chain_of s) (chain_of-IsChain u h) x)
    ∙ ap (λ c. some (step_chain x c)) (sym (chain_of-stack s u h))
    ∙ sym (apply_step-some x (stack s u))

stack-build_on :
    (xs : List Step) (s u : Scope) → IsHostScope u → stack s (build xs u) ≡ build xs (stack s u)
unfolding build
stack-build_on [] s u h = refl
stack-build_on (x ∷ xs) s u h =
    stack-build_on xs s (apply_step x u) (apply_step-IsHostScope x u h)
    ∙ ap (build xs) (stack-apply_step x s u h)

-- A chain that a host has built by injecting, severing and confining, stacked on another chain, is
-- the other one with the same steps made on it.
pub stack-build : (xs : List Step) (s : Scope) → stack s (build xs none) ≡ build xs s
unfolding stack
stack-build xs s = stack-build_on xs s none tt

build-IsHostScope : (xs : List Step) (s : Scope) → IsHostScope s → IsHostScope (build xs s)
unfolding build
build-IsHostScope [] s h = h
build-IsHostScope (x ∷ xs) s h =
    build-IsHostScope xs (apply_step x s) (apply_step-IsHostScope x s h)

-- The chains of a host keep an identity for each corridor.
pub build-IsScope : (xs : List Step) → IsScope (build xs none)
build-IsScope xs = scoped (build xs none) (build-IsHostScope xs none tt)
  where
    scoped : (s : Scope) → IsHostScope s → IsScope s
    scoped none h = tt
    scoped (some c) h = record { paired = h.paired; within = h.within }
