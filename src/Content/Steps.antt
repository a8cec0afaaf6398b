-- ===== src/Content/Steps.antt =====
-- crates/ikigai-core/src/content_store.rs: the count of handles through `hold` and `clone`.
use ikigai_core.Prelude.{
  Bool-cases, Option-cases, ℕ, suc, ◌+◌, ◌<◌, ◌≤◌, ◌≡◌, refl, nat_eq, list_eq, true, [], ◌∷◌, none,
  some, arith, inl, inr, eq_cases, is_some, length, get_elem?, u64_mod, u64_max,
}
use ikigai_core.HashMap
use ikigai_core.HashMap.{HashMap}
use ikigai_core.HashMap.Laws.{get-insert, insert-Distinct, All-insert}
use ikigai_core.HashMap.Totals.{total-insert}
use ikigai_core.Repr.Content.{Body}
use ikigai_core.Content.{
  saturating_add, ltb, share_body, ContentId, Holder, holder_eq, Entry, Handle, hold, clone,
}
use ikigai_core.Content.Holders.{counted, holds, one_if, same_hold}
use ikigai_core.Content.Histories.{World, received}
use ikigai_core.Content.Held.{
  IsEntry, IsCounted, handles_on, handles_on-le, handles_on-remove_at, same_hold_refl,
  add-IsCounted,
}

abbrev size_of : Entry → ℕ
size_of entry = entry.size

module _ (max_bytes : ℕ) (w : World) where
  -- A new entry, for a content that nothing is held under.
  insert-IsCounted :
      (id : ContentId) (holder : Holder) (size : ℕ) (body : Body)
      → HashMap.get w.state.entries id ≡ none
      → is_some (share_body body) ≡ true
      → w.state.held + size ≤ max_bytes
      → IsCounted max_bytes w
      → IsCounted max_bytes (record {
        state = record {
          held = w.state.held + size;
          entries =
              HashMap.insert id
                (record { body = body; size = size; holders = (holder, 1) ∷ [] })
                w.state.entries;
        };
        live = record { id = id; holder = holder } ∷ w.live;
      })
  unfolding handles_on counted HashMap.get
  insert-IsCounted id holder size body absent readable fits c = record {
    distinct = insert-Distinct w.state.entries id _ c.distinct;
    entries =
        All-insert (λ x. IsEntry x.1) w.state.entries id _ c.entries
          (record {
            handles = record { distinct = (refl, tt); held = refl; positive = (omega arith, tt) };
            readable = readable;
          });
    counts = λ other_id other. counts_at other_id other;
    exact = ground (
      arith,
      total-insert size_of w.state.entries id
          (record { body = body; size = size; holders = (holder, 1) ∷ [] }),
      absent,
      c.exact,
    );
    bounded = fits;
  }
    where
      counts_at :
          (other_id : ContentId) (other : Holder)
          → counted
              (HashMap.get
                (HashMap.insert id
                  (record { body = body; size = size; holders = (holder, 1) ∷ [] })
                  w.state.entries)
                other_id)
              other
            ≡ one_if (same_hold (record { id = id; holder = holder }) other_id other)
              + handles_on other_id other w.live
      counts_at other_id other = elim (eq_cases id other_id) [
        | inl same ↦ ground (
          arith,
          get-insert w.state.entries id other_id
              (record { body = body; size = size; holders = (holder, 1) ∷ [] }),
          same,
          absent,
          c.counts other_id other,
        )
        | inr apart ↦ ground (
          arith,
          get-insert w.state.entries id other_id
              (record { body = body; size = size; holders = (holder, 1) ∷ [] }),
          apart.1,
          c.counts other_id other,
        )
      ]

  pub hold-IsCounted :
      (id : ContentId) (holder : Holder) (size : ℕ) (body : Body)
      → max_bytes < u64_max
      → is_some (share_body body) ≡ true
      → suc (length w.live) < u64_mod
      → IsCounted max_bytes w
      → IsCounted max_bytes (received w.live (hold max_bytes w.state holder id size body))
  unfolding hold
  hold-IsCounted id holder size body bound readable fits c =
      elim (Option-cases (HashMap.get w.state.entries id)) [
        | inr (entry, e) ↦
            rw (e, hold)
              (add-IsCounted max_bytes w (record { id = id; holder = holder }) entry e fits c)
        | inl absent ↦ elim (Bool-cases (ltb max_bytes (saturating_add w.state.held size))) [
          | inl much ↦ rw (absent, much, hold) c
          | inr room ↦
              let sum : saturating_add w.state.held size ≡ w.state.held + size =
                ground (arith, room, bound) in
              rw (absent, room, sum, hold)
                (insert-IsCounted id holder size body absent readable (ground (arith, room, bound))
                  c)
        ]
      ]

  module _ (i : ℕ) (handle : Handle) (there_it_is : get_elem? w.live i ≡ some handle) where
    -- A live handle is counted.
    counted_once : IsCounted max_bytes w → 0 < holds w.state handle.id handle.holder
    counted_once c = ground (
      arith,
      c.counts handle.id handle.holder,
      same_hold_refl handle,
      handles_on-remove_at handle.id handle.holder w.live i handle there_it_is,
    )

    pub entry_at :
        IsCounted max_bytes w
        → (entry : Entry) × (n : ℕ) × (HashMap.get w.state.entries handle.id ≡ some entry)
          × (HashMap.get entry.holders handle.holder ≡ some n)
          × (0 < n)
          × (n ≤ length w.live)
    entry_at c = elim (Option-cases (HashMap.get w.state.entries handle.id)) [
      | inl absent ↦ absurd (unfold counted in ground (arith, counted_once c, absent))
      | inr (entry, e) ↦ elim (Option-cases (HashMap.get entry.holders handle.holder)) [
        | inl absent ↦ absurd (unfold counted in ground (arith, counted_once c, e, absent))
        | inr (n, found) ↦ (
          entry,
          n,
          e,
          found,
          unfold counted in ground (arith, counted_once c, e, found),
          unfold counted in
              ground (
                arith,
                c.counts handle.id handle.holder,
                e,
                found,
                handles_on-le handle.id handle.holder w.live,
              ),
        )
      ]
    ]

    pub clone-IsCounted :
        suc (length w.live) < u64_mod
        → IsCounted max_bytes w
        → IsCounted max_bytes (record { state = (clone w.state handle).0; live = handle ∷ w.live })
    unfolding clone
    clone-IsCounted fits c =
        let (entry, n, e, found, positive, few) = entry_at c in
        add-IsCounted max_bytes w handle entry e fits c
