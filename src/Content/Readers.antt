-- ===== src/Content/Readers.antt =====
-- crates/ikigai-core/src/content_store.rs: `get` and `get_for`, beside the live handles.
use ikigai_core.Prelude.{
  ◌∙◌, option_eq, ℕ, ◌<◌, ◌≤◌, ◌≡◌, ◌↔◌, refl, Str, Eq, ◌==◌, ◌&&◌, ◌||◌, nat_eq, list_eq, Bool,
  true, false, List, [], ◌∷◌, Option, none, some, arith, inl, inr, eq_cases, eq_refl, any, is_some,
  length, u64_mod, u64_max, Option-cases, Bool-cases,
}
use ikigai_core.HashMap
use ikigai_core.HashMap.{HashMap}
use ikigai_core.HashMap.Laws.{All-get}
use ikigai_core.HashMap.Totals.{total}
use ikigai_core.Capability.Ops.{Capability, is_root}
use ikigai_core.Capability.Ops
use ikigai_core.Capability.Ops.{Kind, scoped_to}
use ikigai_core.Capability.Principal.{single_principal}
use ikigai_core.Content.{
  principal, ContentId, Holder, holder_eq, Entry, Handle, get, get_for, admits, is_empty,
}
use ikigai_core.Content.Holders.{counted, same_hold}
use ikigai_core.Content.Histories.{World, Call, run}
use ikigai_core.Content.Held.{IsEntry, IsCounted, handles_on}
use ikigai_core.Content.Addressed.{bytes_of, total-bytes_of, run-IsStore}
use ikigai_core.Content.Live.{run-IsCounted}

module _ {ℓ κ} {K : Type ℓ} {V : Type κ} ⦃e : Eq K⦄ (q : K → Bool) where
  value_of-any :
      (m : HashMap K V)
      → any q (HashMap.keys m) ≡ true
      → (k : K) × (v : V) × (HashMap.get m k ≡ some v) × (q k ≡ true)
  unfolding HashMap.get
  value_of-any [] h = absurd (ground arith)
  value_of-any ((j, w) ∷ m) h = elim (Bool-cases (q j)) [
    | inl meets ↦ (j, w, ground (arith, eq_refl j), meets)
    | inr fails ↦
        let (k, v, found, meets) = value_of-any m (ground (arith, fails)) in
        elim (eq_cases j k) [
          | inl same ↦ (k, w, ground (arith, same.1), meets)
          | inr apart ↦ (k, v, ground (arith, apart.1, found), meets)
        ]
  ]

  any_of-value :
      (m : HashMap K V) (k : K) (v : V)
      → HashMap.get m k ≡ some v
      → q k ≡ true
      → any q (HashMap.keys m) ≡ true
  unfolding HashMap.get
  any_of-value [] k v h meets = absurd (ground arith)
  any_of-value ((j, w) ∷ m) k v h meets = elim (eq_cases j k) [
    | inl same ↦ ground (arith, same, meets)
    | inr apart ↦ ground (arith, any_of-value m k v (rw apart.1 at h) meets)
  ]

-- A live handle on a content, whose holder passes a test.
abbrev pub names : ContentId → (Holder → Bool) → Handle → Bool
names id q handle = handle.id == id && q handle.holder

module _ (id : ContentId) (q : Holder → Bool) where
  any_of-handles_on :
      (live : List Handle) (holder : Holder)
      → 0 < handles_on id holder live
      → q holder ≡ true
      → any (names id q) live ≡ true
  unfolding handles_on
  any_of-handles_on [] holder h meets = absurd (ground arith)
  any_of-handles_on (x ∷ live) holder h meets = elim (Bool-cases (same_hold x id holder)) [
    | inl same ↦ elim (eq_cases x.holder holder) [
      | inl equal ↦ ground (arith, same, equal.0, meets)
      | inr apart ↦ absurd (ground (arith, same, apart.1))
    ]
    | inr apart ↦ ground (arith, any_of-handles_on live holder (ground (arith, apart)) meets)
  ]

  handles_on_of-any :
      (live : List Handle)
      → any (names id q) live ≡ true
      → (holder : Holder) × (0 < handles_on id holder live) × (q holder ≡ true)
  unfolding handles_on
  handles_on_of-any [] h = absurd (ground arith)
  handles_on_of-any (x ∷ live) h = elim (Bool-cases (names id q x)) [
    | inl meets ↦ (x.holder, ground (arith, meets, eq_refl x.holder), ground (arith, meets))
    | inr fails ↦
        let (holder, counted_here, meets) = handles_on_of-any live (ground (arith, fails)) in
        (holder, ground (arith, counted_here), meets)
  ]

-- The test, over the holders of an entry, if there is one.
abbrev passes : (Holder → Bool) → Option Entry → Bool
passes q none = false
passes q (some entry) = any q (HashMap.keys entry.holders)

-- Who a hold is for: the principal it was taken for, and nobody where it was taken for the host.
abbrev pub is_for : Option Str → Holder → Bool
is_for (some p) (principal q) = p == q
is_for _ _ = false

-- A reader is root, or the principal that a hold is for.
abbrev pub reads : (Str → Option Str) → Capability → Holder → Bool
reads oxiri cap holder = is_root cap || is_for (Ops.principal oxiri cap) holder

-- What the code asks of a holder is who it is for.
reads-admits :
    (oxiri : Str → Option Str) (cap : Capability) (holder : Holder)
    → reads oxiri cap holder ≡ (is_root cap || admits oxiri holder cap)
unfolding admits Ops.acts_as Ops.principal is_root
reads-admits oxiri cap holder = parts cap.kind refl holder
  where
    parts :
        (k : Kind)
        → cap.kind ≡ k
        → (h : Holder) → reads oxiri cap h ≡ (is_root cap || admits oxiri h cap)
    parts Kind.root e h = ground (arith, e)
    parts (scoped_to held) e Holder.root = elim (Option-cases (single_principal oxiri held)) [
      | inl nobody ↦ ground (arith, e, nobody)
      | inr (p, named) ↦ ground (arith, e, named)
    ]
    parts (scoped_to held) e (principal q) = elim (Option-cases (single_principal oxiri held)) [
      | inl nobody ↦ ground (arith, e, nobody)
      | inr (p, named) ↦ ground (arith, e, named)
    ]

any_each :
    (m : HashMap Holder ℕ) (q r : Holder → Bool)
    → ((h : Holder) → r h ≡ q h)
    → any r (HashMap.keys m) ≡ any q (HashMap.keys m)
any_each [] q r same = refl
any_each ((k, n) ∷ m) q r same = ground (arith, same k, any_each m q r same)

-- A test that holds of every holder, or of those of a narrower test.
any_of-nonempty :
    (m : HashMap Holder ℕ) (b : Bool) (q r : Holder → Bool)
    → ((h : Holder) → r h ≡ (b || q h))
    → is_empty m ≡ false
    → any r (HashMap.keys m) ≡ (b || any q (HashMap.keys m))
any_of-nonempty [] b q r same held = absurd (ground arith)
any_of-nonempty ((k, n) ∷ m) true q r same held = ground (arith, same k)
any_of-nonempty ((k, n) ∷ m) false q r same held = any_each ((k, n) ∷ m) q r same

module _ (max_bytes : ℕ) (w : World) (c : IsCounted max_bytes w) (id : ContentId) where
  passes_iff :
      (q : Holder → Bool)
      → (passes q (HashMap.get w.state.entries id) ≡ true) ↔ (any (names id q) w.live ≡ true)
  passes_iff q = (λ h. there h, λ h. back h)
    where
      there : passes q (HashMap.get w.state.entries id) ≡ true → any (names id q) w.live ≡ true
      there h = elim (Option-cases (HashMap.get w.state.entries id)) [
        | inl absent ↦ absurd (ground (arith, absent))
        | inr (entry, e) ↦
            let (holder, n, found, meets) = value_of-any q entry.holders (rw e at h) in
            let known = All-get (λ x. IsEntry x.1) w.state.entries id entry c.entries e in
            let positive =
              All-get (λ x. 0 < x.1) entry.holders holder n known.handles.positive found in
            any_of-handles_on id q w.live holder
              (unfold counted in ground (arith, c.counts id holder, e, found, positive)) meets
      ]

      back : any (names id q) w.live ≡ true → passes q (HashMap.get w.state.entries id) ≡ true
      back h =
          let (holder, positive, meets) = handles_on_of-any id q w.live h in
          elim (Option-cases (HashMap.get w.state.entries id)) [
            | inl absent ↦
                absurd (unfold counted in ground (arith, c.counts id holder, absent, positive))
            | inr (entry, e) ↦ elim (Option-cases (HashMap.get entry.holders holder)) [
              | inl absent ↦
                  absurd (unfold counted in ground (arith, c.counts id holder, e, absent, positive))
              | inr (n, found) ↦ rw e (any_of-value q entry.holders holder n found meets)
            ]
          ]

  get_for-passes :
      (oxiri : Str → Option Str) (cap : Capability)
      → is_some (get_for oxiri w.state id cap)
        ≡ passes (reads oxiri cap) (HashMap.get w.state.entries id)
  unfolding get_for
  get_for-passes oxiri cap = elim (Option-cases (HashMap.get w.state.entries id)) [
    | inl absent ↦ rw (absent, get_for) refl
    | inr (entry, e) ↦
        let known = All-get (λ x. IsEntry x.1) w.state.entries id entry c.entries e in
        rw (e, get_for)
          (ground (
            arith,
            any_of-nonempty entry.holders (is_root cap) (λ h. admits oxiri h cap) (reads oxiri cap)
                (reads-admits oxiri cap) known.handles.held,
            known.readable,
          ))
  ]

  get-passes : is_some (get w.state id) ≡ passes (λ _. true) (HashMap.get w.state.entries id)
  unfolding get
  get-passes = elim (Option-cases (HashMap.get w.state.entries id)) [
    | inl absent ↦ rw (absent, get) refl
    | inr (entry, e) ↦
        let known = All-get (λ x. IsEntry x.1) w.state.entries id entry c.entries e in
        rw (e, get)
          (ground (
            arith,
            any_of-nonempty entry.holders true (λ _. false) (λ _. true) (λ h. refl)
                known.handles.held,
            known.readable,
          ))
  ]

module _ (digest : Str → ContentId) (oxiri : Str → Option Str) (max_bytes : ℕ) (past : List Call)
    (bound : max_bytes < u64_max) (fits : length past < u64_mod) where
  abbrev after : World
  after = run digest oxiri max_bytes past

  -- After any history of calls on a content store, a capability reads a content exactly when a
  -- live handle on it lets it: the capability is root, or acts as the principal that the handle
  -- was taken for.
  pub get_for-live :
      (id : ContentId) (cap : Capability)
      → (is_some (get_for oxiri after.state id cap) ≡ true)
        ↔ (any (names id (reads oxiri cap)) after.live ≡ true)
  get_for-live id cap =
      rw
        (get_for-passes max_bytes after (run-IsCounted digest oxiri max_bytes past bound fits) id
          oxiri cap)
        (passes_iff max_bytes after (run-IsCounted digest oxiri max_bytes past bound fits) id
          (reads oxiri cap))

  -- After any history of calls on a content store, the store holds a content exactly while a
  -- handle on it lives.
  pub get-live :
      (id : ContentId)
      → (is_some (get after.state id) ≡ true) ↔ (any (names id (λ _. true)) after.live ≡ true)
  get-live id =
      rw (get-passes max_bytes after (run-IsCounted digest oxiri max_bytes past bound fits) id) (
        passes_iff max_bytes after (run-IsCounted digest oxiri max_bytes past bound fits) id
          (λ _. true))

  -- After any history of calls on a content store, what it counts as held is the sum over its
  -- bodies of the number of their bytes, or of the length that a body to be read again states, and
  -- it is at most the store's bound.
  pub held_within :
      (after.state.held ≡ total bytes_of after.state.entries) × (after.state.held ≤ max_bytes)
  held_within =
      let c = run-IsCounted digest oxiri max_bytes past bound fits in
      (
        c.exact
            ∙ total-bytes_of digest after.state.entries (run-IsStore digest oxiri max_bytes past),
        c.bounded,
      )
