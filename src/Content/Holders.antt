-- ===== src/Content/Holders.antt =====
-- crates/ikigai-core/src/content_store.rs: how many handles an entry counts for each holder.
use ikigai_core.Prelude.{
  ◌+◌, ℕ, suc, ◌<◌, ◌≡◌, refl, ◌==◌, ◌&&◌, nat_eq, list_eq, true, false, [], ◌∷◌, Option, none,
  some, arith, Bool-cases, inl, inr, eq_cases, or_zero, u64_mod, wrapping_add, wrapping_sub, All,
}
use ikigai_core.HashMap
use ikigai_core.HashMap.{HashMap}
use ikigai_core.HashMap.Laws.{
  Distinct, get-insert, get-remove_ne, get-remove_self, insert-Distinct, remove-Distinct,
  All-insert, All-remove,
}
use ikigai_core.Content.{
  Bool, ContentId, Holder, holder_eq, Entry, State, Handle, add_handle, take_handle, is_empty,
}

-- The handles that an entry, or none, counts for a holder.
unfoldable pub counted : Option Entry → Holder → ℕ
counted none holder = 0
counted (some entry) holder = or_zero (HashMap.get entry.holders holder)

abbrev pub holds : State → ContentId → Holder → ℕ
holds s id holder = counted (HashMap.get s.entries id) holder

-- One, where two holds are the same.
abbrev pub one_if : Bool → ℕ
one_if true = 1
one_if false = 0

abbrev pub same_hold : Handle → ContentId → Holder → Bool
same_hold handle id holder = handle.id == id && handle.holder == holder

-- Every count is positive, there is one, and each holder has one.
pub record HasHandles (entry : Entry) : Type 0 where
  pub distinct : Distinct entry.holders
  pub held : is_empty entry.holders ≡ false
  pub positive : All (λ (x : Holder × ℕ). 0 < x.1) entry.holders

pub counted-add_handle :
    (holder other : Holder) (entry : Entry)
    → suc (or_zero (HashMap.get entry.holders holder)) < u64_mod
    → counted (some (add_handle holder entry)) other
      ≡ one_if (holder == other) + counted (some entry) other
unfolding counted add_handle
counted-add_handle holder other entry fits = elim (eq_cases holder other) [
  | inl same ↦ ground (
    arith,
    get-insert entry.holders holder other
        (wrapping_add (or_zero (HashMap.get entry.holders holder)) 1),
    same,
  )
  | inr apart ↦ ground (
    arith,
    get-insert entry.holders holder other
        (wrapping_add (or_zero (HashMap.get entry.holders holder)) 1),
    apart.1,
  )
]

pub add_handle-HasHandles :
    (holder : Holder) (entry : Entry)
    → suc (or_zero (HashMap.get entry.holders holder)) < u64_mod
    → HasHandles entry
    → HasHandles (add_handle holder entry)
unfolding add_handle HashMap.insert
add_handle-HasHandles holder entry fits h = record {
  distinct = insert-Distinct entry.holders holder _ h.distinct;
  held = nonempty _ entry.holders;
  positive = All-insert (λ x. 0 < x.1) entry.holders holder _ h.positive (omega arith);
}
  where
    nonempty : (n : ℕ) (m : HashMap Holder ℕ) → is_empty (HashMap.insert holder n m) ≡ false
    nonempty n [] = refl
    nonempty n ((j, v) ∷ m) = elim (eq_cases j holder) [
      | inl same ↦ rw same.1 refl
      | inr apart ↦ rw apart.1 refl
    ]

pub counted-take_handle :
    (holder other : Holder) (entry : Entry) (n : ℕ)
    → Distinct entry.holders
    → HashMap.get entry.holders holder ≡ some n
    → 0 < n
    → n < u64_mod
    → counted (some (take_handle holder entry)) other + one_if (holder == other)
      ≡ counted (some entry) other
unfolding counted take_handle
counted-take_handle holder other entry n d e positive fits =
    elim (Bool-cases (wrapping_sub n 1 == 0)) [
      | inl last ↦ elim (eq_cases holder other) [
        | inl same ↦ ground (arith, last, e, same, get-remove_self entry.holders holder d)
        | inr apart ↦
            ground (arith, last, e, apart.1, get-remove_ne entry.holders holder other apart.0)
      ]
      | inr more ↦ elim (eq_cases holder other) [
        | inl same ↦
            ground (arith, more, e, same, get-insert entry.holders holder other (wrapping_sub n 1))
        | inr apart ↦
            ground
              (arith, more, e, apart.1, get-insert entry.holders holder other (wrapping_sub n 1))
      ]
    ]

pub take_handle-HasHandles :
    (holder : Holder) (entry : Entry) (n : ℕ)
    → HashMap.get entry.holders holder ≡ some n
    → 0 < n
    → n < u64_mod
    → is_empty (take_handle holder entry).holders ≡ false
    → HasHandles entry
    → HasHandles (take_handle holder entry)
unfolding take_handle
take_handle-HasHandles holder entry n e positive fits left h =
    elim (Bool-cases (wrapping_sub n 1 == 0)) [
      | inl last ↦ record {
        distinct = rw (e, last, take_handle) (remove-Distinct entry.holders holder h.distinct);
        held = left;
        positive =
            rw (e, last, take_handle) (All-remove (λ x. 0 < x.1) entry.holders holder h.positive);
      }
      | inr more ↦ record {
        distinct = rw (e, more, take_handle) (insert-Distinct entry.holders holder _ h.distinct);
        held = left;
        positive =
            rw (e, more, take_handle)
              (All-insert (λ x. 0 < x.1) entry.holders holder _ h.positive (ground arith));
      }
    ]
