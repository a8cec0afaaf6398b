-- ===== src/Spaces/Scope.antt =====
-- crates/ikigai-core/src/space.rs: `Scope`, the chain that a request is resolved in. A clock is a
-- number that stands for it. The fingerprint is left out: it is a hash of the other fields.
use ikigai_core.Prelude.{
  ℕ, ◌+◌, Str, nat_eq, list_eq, option_eq, Bool, true, false, not, ◌&&◌, ◌||◌, List, [], ◌∷◌, ◌++◌,
  map, reverse, Option, none, some, Result, ok, length, is_some, is_none, if◌then◌else◌,
}
use ikigai_core.Prelude.{◌>>◌}
use ikigai_core.Grammar.Search.{take, drop}
use ikigai_core.Spaces.Tree.{
  Space, LevelCore, LevelPath, Resolved, Resolution, hit, miss, resolve, with_answered_by,
  is_limiter,
}
use ikigai_core.Spaces.Seals.{SealOwner, SealBreach, Seals, owner_of, frame_admits, admit_seals}

pub data CorridorIdentity : Type 0 where
  named : Str → CorridorIdentity
  anonymous : ℕ → CorridorIdentity

-- The injected corridors stand outermost first.
pub record Chain : Type 0 where
  pub injected : List Space
  pub identities : List CorridorIdentity
  pub severed : Bool
  pub confined_count : ℕ
  pub levels : LevelPath
  pub clock : Option ℕ

abbrev pub Scope : Type 0
Scope = Option Chain

abbrev pub no_chain : Chain
no_chain = record {
  injected = [];
  identities = [];
  severed = false;
  confined_count = 0;
  levels = [];
  clock = none;
}

abbrev pub none_of {ℓ} : {A : Type ℓ} → List A → Bool
none_of [] = true
none_of (x ∷ l) = false

-- `Chain::is_empty`
unfoldable pub is_empty_chain : Chain → Bool
is_empty_chain c = none_of c.injected && not c.severed && none_of c.levels

abbrev pub chain_of : Scope → Chain
chain_of none = no_chain
chain_of (some c) = c

unfoldable pub edit : Scope → (Chain → Chain) → Scope
unfolding is_empty_chain
edit s step = let c = step (chain_of s) in if is_empty_chain c then none else some c

unfoldable pub push : Space → CorridorIdentity → Scope → Scope
unfolding edit
push space identity s = edit s λ c. record c {
  injected = c.injected ++ (space ∷ []);
  identities = c.identities ++ (identity ∷ []);
}

-- `with_named_at`, past the check of the claim.
unfoldable pub push_at : Space → CorridorIdentity → ℕ → Scope → Scope
unfolding edit
push_at space identity clock s = edit s λ c. record c {
  injected = c.injected ++ (space ∷ []);
  identities = c.identities ++ (identity ∷ []);
  clock = some clock;
}

unfoldable pub sever : Scope → Scope
unfolding edit
sever s = edit s λ c. record c { severed = true }

-- `confined`, past the check of the claim.
unfoldable pub confined : Space → CorridorIdentity → Scope → Scope
unfolding edit
confined space identity s = edit s λ c. record c {
  injected = space ∷ c.injected;
  identities = identity ∷ c.identities;
  confined_count = c.confined_count + 1;
  levels = [];
  severed = true;
}

-- The edit that stacking `other` makes.
unfoldable pub stack_on : Chain → Chain → Chain
unfolding take drop
stack_on other c =
    let behind = take other.confined_count other.injected in
    let behind_ids = take other.confined_count other.identities in
    record {
      injected = behind ++ (c.injected ++ drop other.confined_count other.injected);
      identities = behind_ids ++ (c.identities ++ drop other.confined_count other.identities);
      severed = if other.severed then true else c.severed;
      confined_count =
          if none_of behind then c.confined_count else c.confined_count + length behind;
      levels =
          if none_of other.levels then (if none_of behind then c.levels else []) else other.levels;
      clock = elim (other.clock) [ none ↦ c.clock | some t ↦ some t ];
    }

unfoldable pub stack : Scope → Scope → Scope
unfolding edit stack_on
stack s none = s
stack s (some other) = edit s (stack_on other)

unfoldable pub descend : Scope → LevelPath → Scope
unfolding edit
descend s path = edit s λ c. record c { levels = path }

-- A chain by the parts that a walk reads.
abbrev pub host_of : Chain → List Space
host_of c = drop c.confined_count c.injected

abbrev pub behind_of : Chain → List Space
behind_of c = take c.confined_count c.injected

abbrev pub inner_spaces : LevelPath → List Space
inner_spaces = map (λ l. l.inner)

-- `consulted`, without the root.
unfoldable pub consulted_before_root : Chain → List Space
unfolding take drop
consulted_before_root c = reverse (host_of c) ++ (inner_spaces c.levels ++ reverse (behind_of c))

unfoldable pub consulted : Scope → Space → List Space
unfolding consulted_before_root
consulted none root = root ∷ []
consulted (some c) root = consulted_before_root c ++ (if c.severed then [] else root ∷ [])

unfoldable pub zip {ℓ κ} : {A : Type ℓ} {B : Type κ} → List A → List B → List (A × B)
zip [] bs = []
zip (a ∷ as') [] = []
zip (a ∷ as') (b ∷ bs) = (a, b) ∷ zip as' bs

-- The answer of a corridor under its identity.
unfoldable pub corridor_answer : CorridorIdentity → Resolved → Resolved
unfolding with_answered_by
corridor_answer (named name) r = with_answered_by r name
corridor_answer (anonymous id) r = r

-- The loop of `corridor_hit`, over the corridors from the innermost on.
unfoldable pub corridor_hit : List (Space × CorridorIdentity) → Str → Option Resolved
unfolding resolve corridor_answer
corridor_hit [] target = none
corridor_hit ((space, identity) ∷ corridors) target = elim (resolve space target) [
  | hit r ↦ some (corridor_answer identity r)
  | miss ↦ corridor_hit corridors target
]

abbrev pub names_of : Str → Resolved → List Str
names_of target r = target ∷ (elim (r.canonical) [ none ↦ [] | some c ↦ c ∷ [] ])

-- Whether a hit is checked against the seals.
unfoldable pub is_checked : Seals → Resolved → Bool
unfolding is_limiter
is_checked seals r =
    not (is_limiter r.endpoint) && (is_some r.canonical || not (seals.trivial && none_of r.levels))

unfoldable pub admit : Seals → Str → Resolution → Result Resolution SealBreach
unfolding is_checked admit_seals
admit seals target miss = ok miss
admit seals target (hit r) =
    if is_checked seals r
    then admit_seals seals (names_of target r) r.levels >> ok (hit r)
    else ok (hit r)

-- Whether the walk passes a level by: the name is sealed, and the level is not its owner's.
unfoldable pub passes_by : Seals → Option SealOwner → LevelCore → Bool
unfolding frame_admits
passes_by seals none l = false
passes_by seals (some owner) l = not (frame_admits seals owner l)

-- A hit in a level of the stack.
unfoldable pub from_stack : LevelCore → LevelPath → Resolved → Resolved
unfolding with_answered_by
from_stack l outward r =
    let r' = with_answered_by r l.name in record r' { levels = r.levels ++ (l ∷ outward) }

unfoldable pub level_hit : Seals → Option SealOwner → LevelPath → Str → Option Resolved
unfolding passes_by resolve from_stack
level_hit seals sealed [] target = none
level_hit seals sealed (l ∷ outward) target =
    let rest = level_hit seals sealed outward target in
    if passes_by seals sealed l
    then rest
    else elim (resolve l.inner target) [ hit r ↦ some (from_stack l outward r) | miss ↦ rest ]

abbrev pub sealed_by : Seals → Str → Option SealOwner
sealed_by seals target = if seals.trivial then none else owner_of seals target

-- The confined corridors and the root.
unfoldable pub resolve_behind : Seals → Chain → Space → Str → Result Resolution SealBreach
unfolding corridor_hit admit resolve
resolve_behind seals c root target =
    let behind =
      if is_none (sealed_by seals target)
      then corridor_hit (reverse (zip (behind_of c) (take c.confined_count c.identities))) target
      else none in
    let at_root = if c.severed then ok miss else admit seals target (resolve root target) in
    elim (behind) [ some r ↦ ok (hit r) | none ↦ at_root ]

unfoldable pub resolve_chain : Seals → Chain → Space → Str → Result Resolution SealBreach
unfolding corridor_hit level_hit resolve_behind admit
resolve_chain seals c root target =
    elim (corridor_hit (reverse (zip (host_of c) (drop c.confined_count c.identities))) target) [
      | some r ↦ ok (hit r)
      | none ↦ elim (level_hit seals (sealed_by seals target) c.levels target) [
        | some r ↦ admit seals target (hit r)
        | none ↦ resolve_behind seals c root target
      ]
    ]

unfoldable pub resolve_in : Seals → Scope → Space → Str → Result Resolution SealBreach
unfolding resolve_chain admit resolve
resolve_in seals none root target = admit seals target (resolve root target)
resolve_in seals (some c) root target = resolve_chain seals c root target
