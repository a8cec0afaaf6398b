-- ===== src/Content/Dropping.antt =====
-- crates/ikigai-core/src/content_store.rs: the count of handles when one is dropped.
use ikigai_core.Prelude.{
  remove_at, Bool-cases, Option-cases, ℕ, ◌+◌, ◌<◌, ◌≡◌, refl, ◌==◌, nat_eq, list_eq, true, [], ◌∷◌,
  Option, none, some, arith, inl, inr, eq_cases, if◌then◌else◌, length, or_zero, get_elem?, u64_mod,
}
use ikigai_core.HashMap
use ikigai_core.HashMap.{HashMap}
use ikigai_core.HashMap.Laws.{
  get-remove_ne, get-remove_self, get-modify, remove-Distinct, modify-Distinct, All-remove,
  All-modify_at, All-get,
}
use ikigai_core.HashMap.Totals.{total-remove, total-modify}
use ikigai_core.Content.{ContentId, Holder, holder_eq, Entry, Handle, take_handle, is_empty, drop}
use ikigai_core.Content.Holders.{
  counted, holds, one_if, counted-take_handle, take_handle-HasHandles,
}
use ikigai_core.Content.Histories.{World}
use ikigai_core.Content.Held.{IsEntry, IsCounted, handles_on, handles_on-remove_at}
use ikigai_core.Content.Steps.{entry_at}

abbrev size_of : Entry → ℕ
size_of entry = entry.size

-- An entry without holders counts nothing.
counted_empty :
    (entry : Entry) (holder : Holder)
    → is_empty entry.holders ≡ true
    → counted (some entry) holder ≡ 0
unfolding counted
counted_empty entry holder e = none_left entry.holders e
  where
    none_left : (m : HashMap Holder ℕ) → is_empty m ≡ true → or_zero (HashMap.get m holder) ≡ 0
    none_left [] h = unfold HashMap.get in refl
    none_left (x ∷ m) h = absurd (ground arith)

pub size-take_handle :
    (holder : Holder) (entry : Entry) → (take_handle holder entry).size ≡ entry.size
unfolding take_handle
size-take_handle holder entry = elim (Option-cases (HashMap.get entry.holders holder)) [
  | inl n ↦ rw (n, take_handle) refl
  | inr (h, n) ↦ rw (n, take_handle) refl
]

pub body-take_handle :
    (holder : Holder) (entry : Entry) → (take_handle holder entry).body ≡ entry.body
unfolding take_handle
body-take_handle holder entry = elim (Option-cases (HashMap.get entry.holders holder)) [
  | inl n ↦ rw (n, take_handle) refl
  | inr (h, n) ↦ rw (n, take_handle) refl
]

module _ (max_bytes : ℕ) (w : World) (i : ℕ) (handle : Handle)
    (there_it_is : get_elem? w.live i ≡ some handle) (fits : length w.live < u64_mod)
    (c : IsCounted max_bytes w) where
  -- The counts without the handle, where the entry with one handle less counts what it should.
  taken_counts :
      (after : HashMap ContentId Entry) (less : Option Entry)
      → ((id : ContentId)
          → HashMap.get after id
            ≡ (if handle.id == id then less else HashMap.get w.state.entries id))
      → ((holder : Holder)
          → counted less holder + one_if (handle.holder == holder) ≡ holds w.state handle.id holder)
      → (id : ContentId) (holder : Holder)
      → counted (HashMap.get after id) holder ≡ handles_on id holder (remove_at w.live i)
  taken_counts after less looked right id holder =
      let removed = handles_on-remove_at id holder w.live i handle there_it_is in
      elim (eq_cases handle.id id) [
        | inl same ↦ ground (arith, looked id, same, right holder, c.counts id holder, removed)
        | inr apart ↦ ground (arith, looked id, apart.1, c.counts id holder, removed)
      ]

  pub drop-IsCounted :
      IsCounted max_bytes (record { state = drop w.state handle; live = remove_at w.live i })
  unfolding drop
  drop-IsCounted =
      let (entry, n, e, found, positive, few) = entry_at max_bytes w i handle there_it_is c in
      let known = All-get (λ x. IsEntry x.1) w.state.entries handle.id entry c.entries e in
      let less = λ (holder : Holder).
        counted-take_handle handle.holder holder entry n known.handles.distinct found positive
          (omega (arith, few, fits)) in
      elim (Bool-cases (is_empty (take_handle handle.holder entry).holders)) [
        | inl last ↦
            rw (e, last, drop)
              (record {
                distinct = remove-Distinct w.state.entries handle.id c.distinct;
                entries = All-remove (λ x. IsEntry x.1) w.state.entries handle.id c.entries;
                counts =
                    taken_counts (HashMap.remove handle.id w.state.entries) none
                      (λ id. looked_removed id)
                      (λ holder. ground (
                        arith,
                        less holder,
                        counted_empty (take_handle handle.holder entry) holder last,
                        e,
                        nothing holder,
                      ));
                exact = ground (arith, total-remove size_of w.state.entries handle.id, e, c.exact);
                bounded = omega (arith, c.bounded);
              })
        | inr more ↦
            rw (e, more, drop)
              (record {
                distinct =
                    modify-Distinct w.state.entries handle.id (take_handle handle.holder)
                      c.distinct;
                entries =
                    All-modify_at (λ x. IsEntry x.1) w.state.entries handle.id
                      (take_handle handle.holder) entry e
                      (record {
                        handles =
                            take_handle-HasHandles handle.holder entry n found positive
                              (omega (arith, few, fits)) more known.handles;
                        readable = rw (body-take_handle handle.holder entry) known.readable;
                      })
                      c.entries;
                counts =
                    taken_counts
                      (HashMap.modify handle.id (take_handle handle.holder) w.state.entries)
                      (some (take_handle handle.holder entry)) (λ id. looked_modified id entry e)
                      (λ holder. rw e (less holder));
                exact =
                    rw
                      (total-modify size_of w.state.entries handle.id (take_handle handle.holder)
                        (size-take_handle handle.holder))
                      c.exact;
                bounded = c.bounded;
              })
      ]
    where
      nothing : (holder : Holder) → counted none holder ≡ 0
      nothing holder = unfold counted in refl

      looked_removed :
          (id : ContentId)
          → HashMap.get (HashMap.remove handle.id w.state.entries) id
            ≡ (if handle.id == id then none else HashMap.get w.state.entries id)
      looked_removed id = elim (eq_cases handle.id id) [
        | inl same ↦ ground (arith, same, get-remove_self w.state.entries handle.id c.distinct)
        | inr apart ↦ ground (arith, apart.1, get-remove_ne w.state.entries handle.id id apart.0)
      ]

      looked_modified :
          (id : ContentId) (entry : Entry)
          → HashMap.get w.state.entries handle.id ≡ some entry
          → HashMap.get (HashMap.modify handle.id (take_handle handle.holder) w.state.entries) id
            ≡ (if handle.id == id
                then some (take_handle handle.holder entry)
                else HashMap.get w.state.entries id)
      looked_modified id entry e = elim (eq_cases handle.id id) [
        | inl same ↦
            ground
              (arith, get-modify w.state.entries (take_handle handle.holder) handle.id id, same, e)
        | inr apart ↦
            ground
              (arith, get-modify w.state.entries (take_handle handle.holder) handle.id id, apart.1)
      ]
