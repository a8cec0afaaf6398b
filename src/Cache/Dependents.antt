-- ===== src/Cache/Dependents.antt =====
-- crates/ikigai-core/src/cache.rs: what a cut tells its listeners.
use ikigai_core.Prelude.{
  Option-cases, ℕ, suc, ◌<◌, ◌≡◌, ◌==◌, nat_eq, list_eq, Bool, true, ◌&&◌, Str, List, [], ◌∷◌,
  Option, none, some, any, saturating_sub, wrapping_add, if◌then◌else◌, arith, eq_cases, eq_refl,
  inl, inr, u64_mod, of_some,
}
use ikigai_core.TreeSet.{contains}
use ikigai_core.HashMap
use ikigai_core.HashMap.{HashMap}
use ikigai_core.HashMap.Laws.{get-insert}
use ikigai_core.Repr.{Thread}
use ikigai_core.Cache.Entry.{CacheKey, key_eq, Edge, Slot}
use ikigai_core.Cache.State.{
  CacheState, generation_in, generation_of, edges_current, edge_threads, record_cut,
}
use ikigai_core.Cache.Serve.{ReprCache}

pub record Dependent : Type 0 where
  pub target : Str
  pub capability : ℕ
  pub live : Bool

-- `entry.edges.iter().find(|(t, _)| t == thread)`
unfoldable pub pinned_on : List Edge → Thread → Option ℕ
pinned_on [] thread = none
pinned_on ((t, pinned) ∷ edges) thread = if t == thread then some pinned else pinned_on edges thread

unfoldable pub dependents_in : ℕ → Thread → HashMap CacheKey Slot → List Dependent
unfolding pinned_on
dependents_in current thread [] = []
dependents_in current thread ((key, entry) ∷ m) = elim (pinned_on entry.edges thread) [
  | none ↦ dependents_in current thread m
  | some pinned ↦
      record { target = entry.target; capability = key.capability; live = pinned == current }
      ∷ dependents_in current thread m
]

module _ {Error : Type 0} where
  unfoldable pub dependents_before : CacheState Error → Thread → List Dependent
  unfolding dependents_in generation_of
  dependents_before s thread =
      dependents_in (saturating_sub (generation_of s thread) 1) thread s.entries

  -- `cut_with`: the cache after the cut, and what `observe` is given.
  unfoldable pub cut_with :
      {S : Type 0} → ReprCache Error S → Thread → ReprCache Error S × ℕ × List Dependent
  unfolding record_cut dependents_before
  cut_with c thread =
      let (s, seq) = record_cut c.state thread in
      (record c { state = s; cut_seq = seq }, seq, dependents_before s thread)

-- The dependent that an entry is listed as, if the cut made it stale.
abbrev pub is_dependent : CacheKey → Slot → Dependent → Bool
is_dependent key entry d = d.target == entry.target && d.capability == key.capability && d.live

pinned_on-current :
    (generations : HashMap Thread ℕ) (edges : List Edge) (thread : Thread)
    → edges_current generations edges ≡ true
    → contains (edge_threads edges) thread ≡ true
    → pinned_on edges thread ≡ some (generation_in generations thread)
unfolding pinned_on edges_current edge_threads contains
pinned_on-current generations [] thread c h = absurd (ground arith)
pinned_on-current generations ((t, pinned) ∷ edges) thread c h = elim (eq_cases t thread) [
  | inl same ↦ ground (arith, same, c)
  | inr other ↦ elim (eq_cases thread t) [
    | inl same ↦ absurd (ground (arith, same, other, eq_refl t))
    | inr apart ↦ ground (arith, other.1, apart.1, c, h, pinned_on-current generations edges thread)
  ]
]

dependents_in-lists :
    (current : ℕ) (thread : Thread) (m : HashMap CacheKey Slot) (key : CacheKey) (entry : Slot)
    → HashMap.get m key ≡ some entry
    → pinned_on entry.edges thread ≡ some current
    → any (is_dependent key entry) (dependents_in current thread m) ≡ true
unfolding dependents_in HashMap.get
dependents_in-lists current thread [] key entry e h = absurd (ground arith)
dependents_in-lists current thread ((k, slot) ∷ m) key entry e h = elim (eq_cases k key) [
  | inl same ↦
      ground (arith, same, of_some (rw same.1 at e), h, eq_refl entry.target, eq_refl current)
  | inr other ↦
      let later = dependents_in-lists current thread m key entry (rw other.1 at e) h in
      elim (Option-cases (pinned_on slot.edges thread)) [
        | inl n ↦ rw (n, dependents_in) later
        | inr (pinned, n) ↦ rw (n, dependents_in) (ground (arith, later))
      ]
]

module _ {Error S : Type 0} where
  -- A cut tells its listeners of every entry that it makes stale: one whose threads were all
  -- current before, and that depends on the thread, while the thread's generation does not wrap.
  pub cut_with-lists :
      (c : ReprCache Error S) (thread : Thread) (key : CacheKey) (entry : Slot)
      → suc (generation_of c.state thread) < u64_mod
      → HashMap.get c.state.entries key ≡ some entry
      → edges_current c.state.generations entry.edges ≡ true
      → contains (edge_threads entry.edges) thread ≡ true
      → any (is_dependent key entry) (cut_with c thread).2 ≡ true
  unfolding cut_with dependents_before record_cut generation_of generation_in
  cut_with-lists c thread key entry fits there_it_is current depends =
      let before = pinned_on-current c.state.generations entry.edges thread current depends in
      let moved : saturating_sub (generation_of (record_cut c.state thread).0 thread) 1
          ≡ generation_of c.state thread =
        ground (
          arith,
          fits,
          eq_refl thread,
          get-insert c.state.generations thread thread
              (wrapping_add (generation_of c.state thread) 1),
        ) in
      rw moved (
        dependents_in-lists (generation_of c.state thread) thread c.state.entries key entry
          there_it_is before)
