-- ===== src/Cache/Fresh/Served.antt =====
-- crates/ikigai-core/src/cache.rs: what a cache serves, beside its history.
use ikigai_core.Prelude.{
  ◌⊎◌, ℕ, ◌<◌, ◌≡◌, refl, sym, ap, ◌∙◌, Str, Bool, true, false, List, length, Option, some, arith,
  Option-cases, inl, inr, u64_mod,
}
use ikigai_core.HashMap
use ikigai_core.HashMap.Laws.{All-get}
use ikigai_core.Repr.{threads, Representation, Provenance, copied, into_body}
use ikigai_core.Repr.Content.{Body, bytes, replay, once}
use ikigai_core.Repr.Lifetime.{Time, Expiry, always, at, never}
use ikigai_core.Cache.Entry.{CacheKey, key_eq, Slot, FailedSlot, EntryState, live, cut, expired}
use ikigai_core.Cache.State.{CacheState, state_of, edges_current, before, failure_state}
use ikigai_core.Cache.Answer.{Answer, answer_body, Offer, hit, answer_face, offer_face}
use ikigai_core.Cache.Serve.{lookup, serve_or_offer, serve_entry, serve_live, serve_expired}
use ikigai_core.Cache.Policy.{CachePolicy}
use ikigai_core.Cache.Failure.{CachedFailure, get_failure, failure_answer, answered}
use ikigai_core.Cache.CutLog.{was_cut}
use ikigai_core.Cache.History.{Event, cut_threads, Stored, StoredFailure, run}
use ikigai_core.Cache.Fresh.Edges.{uncut_of-edges_current}
use ikigai_core.Cache.Fresh.Invariant.{SlotIsFresh, FailedIsFresh, IsFresh}
use ikigai_core.Cache.Fresh.Histories.{run-IsFresh}

-- What `Expiry` documents: an answer that is always expired is never reused, and another until its
-- deadline. With no clock, a deadline counts as passed.
abbrev pub reusable : Option Time → Expiry → Bool
reusable now always = false
reusable now (at deadline) = before now deadline
reusable now never = true

-- An answer that may be reused, or one that was stored though it is always expired.
abbrev pub IsReusable : Option Time → Expiry → Type 0
IsReusable now x = (x ≡ always) ⊎ (reusable now x ≡ true)

module _ {Error : Type 0} (s : CacheState Error) where
  live_parts :
      (entry : Slot) (now : Option Time)
      → state_of s entry now ≡ live
      → (edges_current s.generations entry.edges ≡ true)
        × IsReusable now entry.representation.expiry
  unfolding state_of
  live_parts entry now e = parts entry.representation.expiry refl
    where
      parts :
          (x : Expiry)
          → entry.representation.expiry ≡ x
          → (edges_current s.generations entry.edges ≡ true)
            × IsReusable now entry.representation.expiry
      parts always q = (ground (arith, q), inl q)
      parts (at deadline) q = (ground (arith, q), inr (ground (arith, q)))
      parts never q = (ground (arith, q), inr (ground (arith, q)))

  module _ {T : Type 0} (face : Slot → Option T) (offer : Slot → Option Offer) (key : CacheKey)
      (now : Option Time) (a : T) where
    hit_of-entry :
        (entry : Slot) (st : EntryState)
        → (serve_entry face offer s key entry st).1 ≡ hit a
        → (st ≡ live) × (face entry ≡ some a)
    unfolding serve_entry serve_live serve_expired
    hit_of-entry entry live e = ground arith
    hit_of-entry entry cut e = ground arith
    hit_of-entry entry expired e = ground arith

    -- A hit comes from a live resident entry, through the face.
    pub hit_lem :
        (serve_or_offer face offer s key now).1 ≡ hit a
        → (entry : Slot) × (HashMap.get s.entries key ≡ some entry)
          × (state_of s entry now ≡ live)
          × (face entry ≡ some a)
    unfolding serve_or_offer
    hit_lem e = elim (Option-cases (HashMap.get s.entries key)) [
      | inl n ↦ absurd (ground (arith, n))
      | inr (entry, n) ↦
          let (alive, shown) =
            hit_of-entry entry (state_of s entry now) (rw (n, serve_or_offer) at e) in
          (entry, n, alive, shown)
    ]

into_body-copied :
    (r : Representation Body) (b : Representation Str) → copied r ≡ some b → into_body b ≡ r
unfolding copied into_body
into_body-copied r b e = parts r.content refl
  where
    parts : (x : Body) → r.content ≡ x → into_body b ≡ r
    parts (bytes x) q = ground (arith, q)
    parts (replay x) q = absurd (ground (arith, q))
    parts (once x) q = absurd (ground (arith, q))

-- The face shows the representation that the entry holds.
answer_face-eq :
    (as_buffer : Bool) (incoming : Option Provenance) (entry : Slot) (a : Answer)
    → answer_face as_buffer incoming entry ≡ some a
    → answer_body a ≡ entry.representation
unfolding answer_face answer_body
answer_face-eq as_buffer incoming entry a e = parts entry.representation.content refl
  where
    parts : (x : Body) → entry.representation.content ≡ x → answer_body a ≡ entry.representation
    parts (bytes x) q = ground (arith, q)
    parts (replay x) q = ground (arith, q)
    parts (once x) q = ground (arith, q)

module _ {Error S : Type 0} (p : CachePolicy S) (kept : S) (past : List (Event Error))
    (fits : length past < u64_mod) where
  abbrev after : CacheState Error
  after = (run p kept past).state

  abbrev fresh_past : IsFresh past after
  fresh_past = run-IsFresh p kept past fits

  live_is_uncut :
      (key : CacheKey) (entry : Slot) (now : Option Time)
      → HashMap.get after.entries key ≡ some entry
      → state_of after entry now ≡ live
      → (since : ℕ) × Stored key entry.representation since past
        × (was_cut (threads entry.representation) since (cut_threads past) ≡ false)
        × IsReusable now entry.representation.expiry
  live_is_uncut key entry now there_it_is alive =
      let (current, unpast) = live_parts after entry now alive in
      let f =
        All-get (SlotIsFresh past after.generations) after.entries key entry fresh_past.entries
          there_it_is in
      (
        f.since,
        f.origin,
        ap (λ ts. was_cut ts f.since (cut_threads past)) (sym f.pins)
            ∙ uncut_of-edges_current (cut_threads past) f.since after.generations entry.edges
                f.fresh current,
        unpast,
      )

  -- What a lookup serves after any history of calls was stored under that key by one of them, none
  -- of its threads was cut since the snapshot it was computed under, and either its expiry lets it
  -- be reused at the time, by a deadline that has not come or with none, or it was stored with the
  -- expiry that is always expired.
  pub lookup-uncut :
      (key : CacheKey) (now : Option Time) (as_buffer : Bool) (incoming : Option Provenance)
      (offering : Bool) (a : Answer)
      → (lookup after key now as_buffer incoming offering).1 ≡ hit a
      → (since : ℕ) × Stored key (answer_body a) since past
        × (was_cut (threads (answer_body a)) since (cut_threads past) ≡ false)
        × IsReusable now (answer_body a).expiry
  unfolding lookup
  lookup-uncut key now as_buffer incoming offering a e =
      let (entry, there_it_is, alive, shown) =
        hit_lem after (answer_face as_buffer incoming) (offer_face offering incoming) key now a e in
      rw (answer_face-eq as_buffer incoming entry a shown)
        (live_is_uncut key entry now there_it_is alive)

  failure_answered :
      (key : CacheKey) (slot : FailedSlot Error) (incoming : Option Provenance) (st : EntryState)
      (f : CachedFailure Error)
      → (failure_answer after key slot incoming st).1 ≡ some f
      → (st ≡ live) × (f ≡ answered slot)
  unfolding failure_answer
  failure_answered key slot incoming live f e = ground arith
  failure_answered key slot incoming cut f e = ground arith
  failure_answered key slot incoming expired f e = ground arith

  live_failure :
      (slot : FailedSlot Error) (now : Option Time)
      → failure_state after slot now ≡ live
      → (edges_current after.generations slot.edges ≡ true) × (before now slot.until ≡ true)
  unfolding failure_state
  live_failure slot now e = ground arith

  -- A failure that is answered again after any history of calls was stored under that key by one
  -- of them, with the same error, end and threads, that end has not passed, and none of those
  -- threads was cut since its snapshot.
  pub get_failure-uncut :
      (key : CacheKey) (now : Option Time) (incoming : Option Provenance) (f : CachedFailure Error)
      → (get_failure after key now incoming).1 ≡ some f
      → (since : ℕ) × StoredFailure key f since past
        × (was_cut f.threads since (cut_threads past) ≡ false)
        × (before now f.until ≡ true)
  unfolding get_failure
  get_failure-uncut key now incoming f e = elim (Option-cases (HashMap.get after.failures key)) [
    | inl n ↦ absurd (ground (arith, n))
    | inr (slot, n) ↦
        let (alive, same) =
          failure_answered key slot incoming (failure_state after slot now) f
            (rw (n, get_failure) at e) in
        let (current, unpast) = live_failure slot now alive in
        let h =
          All-get (FailedIsFresh past after.generations) after.failures key slot fresh_past.failures
            n in
        rw same (
          h.since,
          h.origin,
          ap (λ ts. was_cut ts h.since (cut_threads past)) (sym h.pins)
              ∙ uncut_of-edges_current (cut_threads past) h.since after.generations slot.edges
                  h.fresh current,
          unpast,
        )
  ]
