-- ===== src/Content/Held.antt =====
-- crates/ikigai-core/src/content_store.rs: the count of handles, and a handle more.
use ikigai_core.Prelude.{
  remove_at, ℕ, zero, suc, ◌+◌, ◌<◌, ◌≤◌, ◌≡◌, refl, nat_eq, list_eq, true, List, [], ◌∷◌, some,
  arith, inl, inr, eq_cases, eq_refl, All, is_some, length, of_some, or_zero, get_elem?, u64_mod,
}
use ikigai_core.HashMap
use ikigai_core.HashMap.{HashMap}
use ikigai_core.HashMap.Laws.{Distinct, get-modify, modify-Distinct, All-modify_at, All-get}
use ikigai_core.HashMap.Totals.{total, total-modify}
use ikigai_core.Content.{
  or_zero, eq_refl, length, arith, share_body, true, ◌∷◌, List, ◌≡◌, ℕ, some, ContentId, Holder,
  holder_eq, Entry, Handle, add_handle,
}
use ikigai_core.Content.Holders.{
  counted, holds, one_if, same_hold, HasHandles, counted-add_handle, add_handle-HasHandles,
}
use ikigai_core.Content.Histories.{World}

-- The live handles on a content of a holder.
unfoldable pub handles_on : ContentId → Holder → List Handle → ℕ
handles_on id holder [] = 0
handles_on id holder (handle ∷ live) =
    one_if (same_hold handle id holder) + handles_on id holder live

pub handles_on-le :
    (id : ContentId) (holder : Holder) (live : List Handle)
    → handles_on id holder live ≤ length live
unfolding handles_on
handles_on-le id holder [] = omega arith
handles_on-le id holder (handle ∷ live) = ground (arith, handles_on-le id holder live)

pub handles_on-remove_at :
    (id : ContentId) (holder : Holder) (live : List Handle) (i : ℕ) (handle : Handle)
    → get_elem? live i ≡ some handle
    → one_if (same_hold handle id holder) + handles_on id holder (remove_at live i)
      ≡ handles_on id holder live
unfolding handles_on remove_at
handles_on-remove_at id holder [] i handle e = absurd (ground arith)
handles_on-remove_at id holder (x ∷ live) zero handle e = ground (arith, of_some e)
handles_on-remove_at id holder (x ∷ live) (suc i) handle e =
    omega (arith, handles_on-remove_at id holder live i handle e)

pub same_hold_refl : (handle : Handle) → same_hold handle handle.id handle.holder ≡ true
same_hold_refl handle = ground (arith, eq_refl handle.id, eq_refl handle.holder)

-- What an entry of the table must be: held, and readable again.
pub record IsEntry (entry : Entry) : Type 0 where
  pub handles : HasHandles entry
  pub readable : is_some (share_body entry.body) ≡ true

module _ (max_bytes : ℕ) where
  pub record IsCounted (w : World) : Type 0 where
    pub distinct : Distinct w.state.entries
    pub entries : All (λ (x : ContentId × Entry). IsEntry x.1) w.state.entries
    pub counts :
        (id : ContentId) (holder : Holder) → holds w.state id holder ≡ handles_on id holder w.live
    pub exact : w.state.held ≡ total (λ entry. entry.size) w.state.entries
    pub bounded : w.state.held ≤ max_bytes

  module _ (w : World) (handle : Handle) where
    entry_of :
        (entry : Entry)
        → IsCounted w
        → HashMap.get w.state.entries handle.id ≡ some entry
        → IsEntry entry
    entry_of entry c e = All-get (λ x. IsEntry x.1) w.state.entries handle.id entry c.entries e

    -- One handle more on an entry that is there.
    pub add-IsCounted :
        (entry : Entry)
        → HashMap.get w.state.entries handle.id ≡ some entry
        → suc (length w.live) < u64_mod
        → IsCounted w
        → IsCounted (record {
          state = record w.state {
            entries = HashMap.modify handle.id (add_handle handle.holder) w.state.entries;
          };
          live = handle ∷ w.live;
        })
    unfolding handles_on
    add-IsCounted entry e fits c =
        let known = entry_of entry c e in
        let few : suc (or_zero (HashMap.get entry.holders handle.holder)) < u64_mod =
          unfold counted in
          ground (
            arith,
            c.counts handle.id handle.holder,
            e,
            handles_on-le handle.id handle.holder w.live,
          ) in
        record {
          distinct = modify-Distinct w.state.entries handle.id _ c.distinct;
          entries =
              All-modify_at (λ x. IsEntry x.1) w.state.entries handle.id (add_handle handle.holder)
                entry e
                (record {
                  handles = add_handle-HasHandles handle.holder entry few known.handles;
                  readable = unfold add_handle in known.readable;
                })
                c.entries;
          counts = λ id holder. counts_at id holder few;
          exact =
              rw
                (total-modify (λ x. x.size) w.state.entries handle.id (add_handle handle.holder)
                  (λ v. unfold add_handle in refl))
                c.exact;
          bounded = c.bounded;
        }
      where
        counts_at :
            (id : ContentId) (holder : Holder)
            → suc (or_zero (HashMap.get entry.holders handle.holder)) < u64_mod
            → counted
                (HashMap.get
                  (HashMap.modify handle.id (add_handle handle.holder) w.state.entries)
                  id)
                holder
              ≡ one_if (same_hold handle id holder) + handles_on id holder w.live
        counts_at id holder few = elim (eq_cases handle.id id) [
          | inl same ↦ ground (
            arith,
            get-modify w.state.entries (add_handle handle.holder) handle.id id,
            same,
            e,
            counted-add_handle handle.holder holder entry few,
            c.counts id holder,
          )
          | inr apart ↦ ground (
            arith,
            get-modify w.state.entries (add_handle handle.holder) handle.id id,
            apart.1,
            c.counts id holder,
          )
        ]
