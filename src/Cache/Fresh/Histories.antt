-- ===== src/Cache/Fresh/Histories.antt =====
-- crates/ikigai-core/src/cache.rs: the invariant over histories of calls.
use ikigai_core.Prelude.{
  ℕ, suc, ◌<◌, ◌≤◌, refl, Str, ◌&&◌, not, List, [], ◌∷◌, leb, length, Option, none, arith,
  Bool-cases, Option-cases, inl, inr, All, u64_mod,
}
use ikigai_core.HashMap
use ikigai_core.HashMap.{HashMap}
use ikigai_core.HashMap.Laws.{All-insert, All-remove}
use ikigai_core.TreeSet.{TreeSet}
use ikigai_core.Repr.{share, copied, Thread, threads, Representation, Provenance}
use ikigai_core.Repr.Content.{Body, is_one_shot}
use ikigai_core.Repr.Lifetime.{Time}
use ikigai_core.Cache.Entry.{CacheKey, key_eq, FailedSlot}
use ikigai_core.Cache.State.{generation_in, cut_since}
use ikigai_core.Cache.Serve.{state-hit_of, ReprCache, lookup, get, get_body, cut_thread}
use ikigai_core.Cache.Policy.{CachePolicy}
use ikigai_core.Cache.Store.{pin, store_outcome}
use ikigai_core.Cache.Failure.{make_failure_room, soonest, cached_failures, store_failure}
use ikigai_core.Cache.History.{
  Event, cut, look, copy, read, drop, store, fail, recall, cut_threads, here, apply, run,
}
use ikigai_core.Cache.Fresh.Edges.{
  pin-EdgeIsFresh, edge_threads-pin, contains_each, uncut_of-cut_since,
}
use ikigai_core.Cache.Fresh.Invariant.{FailedIsFresh, IsFresh, IsFresh-later}
use ikigai_core.Cache.Fresh.Calls.{
  relogged, cut-IsFresh, serve_or_offer-IsFresh, discard-IsFresh, get_failure-IsFresh,
}
use ikigai_core.Cache.Fresh.Stores.{offer_to_policy-IsFresh}

module _ {Error : Type 0} (past : List (Event Error)) where
  room-IsFresh :
      (gens : HashMap Thread ℕ) (m : HashMap CacheKey (FailedSlot Error)) (key : CacheKey)
      → All (FailedIsFresh past gens) m
      → All (FailedIsFresh past gens) (make_failure_room m key)
  unfolding make_failure_room
  room-IsFresh gens m key a =
      elim (Bool-cases (leb cached_failures (length m) && not (HashMap.contains_key m key))) [
        | inl full ↦ elim (Option-cases (soonest m)) [
          | inl n ↦ rw (full, n, make_failure_room) a
          | inr (k, n) ↦
              rw (full, n, make_failure_room) (All-remove (FailedIsFresh past gens) m k a)
        ]
        | inr room ↦ rw (room, make_failure_room) a
      ]

module _ {Error S : Type 0} (past : List (Event Error)) (c : ReprCache Error S) where
  module _ (p : CachePolicy S) where
    store-IsFresh :
        (key : CacheKey) (target : Str) (r : Representation Body) (taken : ℕ) (cost : Option ℕ)
        (incoming : Option Provenance)
        → IsFresh past c.state
        → IsFresh
            (store key target r taken cost incoming ∷ past)
            (store_outcome p c key target r taken cost incoming).0.state
    unfolding store_outcome cut_threads
    store-IsFresh key target r taken cost incoming f =
        let e : Event Error = store key target r taken cost incoming in
        let later = IsFresh-later past e c.state refl f in
        elim (Bool-cases (is_one_shot r.content)) [
          | inl once ↦ rw (once, store_outcome) later
          | inr again ↦ elim (Bool-cases (cut_since c.state (threads r) taken)) [
            | inl raced ↦ rw (again, raced, store_outcome) later
            | inr calm ↦
                rw (again, calm, store_outcome)
                  (offer_to_policy-IsFresh (e ∷ past) p c key target r (pin c.state (threads r))
                    cost incoming taken (here target cost incoming)
                    (edge_threads-pin (cut_threads past) c.state taken (threads r))
                    (pin-EdgeIsFresh (cut_threads past) c.state taken (threads r) (threads r)
                      (uncut_of-cut_since (cut_threads past) c.state taken (threads r) f.logged
                        calm)
                      (contains_each (threads r)))
                    later)
          ]
        ]

  fail-IsFresh :
      (key : CacheKey) (target : Str) (error : Error) (until : Time) (ts : TreeSet) (taken : ℕ)
      (incoming : Option Provenance)
      → IsFresh past c.state
      → IsFresh
          (fail key target error until ts taken incoming ∷ past)
          (store_failure c key target error until ts taken incoming).0.state
  unfolding store_failure cut_threads
  fail-IsFresh key target error until ts taken incoming f =
      let e : Event Error = fail key target error until ts taken incoming in
      let later = IsFresh-later past e c.state refl f in
      elim (Bool-cases (cut_since c.state ts taken)) [
        | inl raced ↦ rw (raced, store_failure) later
        | inr calm ↦
            rw (calm, store_failure)
              (record {
                logged = relogged (e ∷ past) c.state _ refl refl refl later.logged;
                bounded = later.bounded;
                entries = later.entries;
                failures =
                    All-insert (FailedIsFresh (e ∷ past) c.generations)
                      (make_failure_room c.failures key) key _
                      (room-IsFresh (e ∷ past) c.generations c.failures key later.failures)
                      (record {
                        since = taken;
                        origin = here target incoming;
                        pins = edge_threads-pin (cut_threads past) c.state taken ts;
                        fresh =
                            pin-EdgeIsFresh (cut_threads past) c.state taken ts ts
                              (uncut_of-cut_since (cut_threads past) c.state taken ts f.logged calm)
                              (contains_each ts);
                      });
              })
      ]

  apply-IsFresh :
      (p : CachePolicy S) (e : Event Error)
      → suc (length (cut_threads past)) < u64_mod
      → IsFresh past c.state
      → IsFresh (e ∷ past) (apply p c e).state
  unfolding apply cut_thread lookup get get_body cut_threads
  apply-IsFresh p (cut t) fits f = cut-IsFresh past c.state t fits f
  apply-IsFresh p (look key now as_buffer incoming offering) fits f =
      IsFresh-later past _ _ refl (serve_or_offer-IsFresh past c.state _ _ key now f)
  apply-IsFresh p (copy key now) fits f = IsFresh-later past (copy key now) _ refl (
      rw state-hit_of
        (serve_or_offer-IsFresh past c.state (λ x. copied x.representation) (λ _. none) key now f))
  apply-IsFresh p (read key now) fits f = IsFresh-later past (read key now) _ refl (
      rw state-hit_of
        (serve_or_offer-IsFresh past c.state (λ x. share x.representation) (λ _. none) key now f))
  apply-IsFresh p (drop key offer) fits f =
      IsFresh-later past _ _ refl (discard-IsFresh past c.state key offer f)
  apply-IsFresh p (store key target r taken cost incoming) fits f =
      store-IsFresh p key target r taken cost incoming f
  apply-IsFresh p (fail key target error until ts taken incoming) fits f =
      fail-IsFresh key target error until ts taken incoming f
  apply-IsFresh p (recall key now incoming) fits f =
      IsFresh-later past _ _ refl (get_failure-IsFresh past c.state key now incoming f)

bounded_empty : (t : Thread) → generation_in [] t ≤ 0
unfolding generation_in HashMap.get
bounded_empty t = omega arith

module _ {Error S : Type 0} (p : CachePolicy S) (kept : S) where
  cut_threads-le : (past : List (Event Error)) → length (cut_threads past) ≤ length past
  unfolding cut_threads
  cut_threads-le [] = omega arith
  cut_threads-le (cut t ∷ past) = omega (arith, cut_threads-le past)
  cut_threads-le (e ∷ past) = omega (arith, cut_threads-le past)

  pub run-IsFresh :
      (past : List (Event Error)) → length past < u64_mod → IsFresh past (run p kept past).state
  unfolding run cut_threads HashMap.get
  run-IsFresh [] fits = record {
    logged = record { counted = refl; forgotten = []; log = refl; horizon = refl };
    bounded = λ t. bounded_empty t;
    entries = tt;
    failures = tt;
  }
  run-IsFresh (e ∷ past) fits =
      apply-IsFresh past (run p kept past) p e (omega (arith, cut_threads-le past))
        (run-IsFresh past (omega arith))
