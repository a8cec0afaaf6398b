-- ===== src/Cache/Failure.antt =====
-- crates/ikigai-core/src/cache.rs: failures with a stated expiry, beside the entries.
use ikigai_core.Prelude.{
  ℕ, Str, nat_eq, list_eq, true, not, ◌&&◌, [], ◌∷◌, Option, none, some, Result, ok, err, length,
  ltb, leb, if◌then◌else◌,
}
use ikigai_core.TreeSet.{TreeSet}
use ikigai_core.HashMap
use ikigai_core.HashMap.{HashMap}
use ikigai_core.Repr.{Provenance}
use ikigai_core.Repr.Lifetime.{Time}
use ikigai_core.Cache.Entry.{CacheKey, key_eq, FailedSlot, EntryState, live, cut, expired}
use ikigai_core.Cache.State.{CacheState, failure_state, cut_since}
use ikigai_core.Cache.Answer.{provenance_beq}
use ikigai_core.Cache.Serve.{ReprCache}
use ikigai_core.Cache.Store.{Declined, cut_in_flight, pin}

abbrev pub cached_failures : ℕ
cached_failures = 1024

pub record CachedFailure (Error : Type 0) : Type 0 where
  pub error : Error
  pub until : Time
  pub threads : TreeSet

module _ {Error : Type 0} where
  -- `iter().min_by_key(until)`: the key of the first of the soonest.
  unfoldable pub soonest_from : CacheKey × ℕ → HashMap CacheKey (FailedSlot Error) → CacheKey
  soonest_from best [] = best.0
  soonest_from best ((key, slot) ∷ m) =
      soonest_from (if ltb slot.until best.1 then (key, slot.until) else best) m

  unfoldable pub soonest : HashMap CacheKey (FailedSlot Error) → Option CacheKey
  unfolding soonest_from
  soonest [] = none
  soonest ((key, slot) ∷ m) = some (soonest_from (key, slot.until) m)

  -- A full table gives up the failure that ends soonest, for a new key.
  unfoldable pub make_failure_room :
      HashMap CacheKey (FailedSlot Error) → CacheKey → HashMap CacheKey (FailedSlot Error)
  unfolding soonest
  make_failure_room failures key =
      if leb cached_failures (length failures) && not (HashMap.contains_key failures key)
      then elim (soonest failures) [ none ↦ failures | some k ↦ HashMap.remove k failures ]
      else failures

  unfoldable pub store_failure :
      {S : Type 0}
      → ReprCache Error S
      → CacheKey
      → Str
      → Error
      → Time
      → TreeSet
      → ℕ
      → Option Provenance
      → ReprCache Error S × Result (Unit {0}) Declined
  unfolding cut_since pin make_failure_room
  store_failure c key target error until threads taken incoming =
      if cut_since c.state threads taken then (c, err cut_in_flight) else (
        record c {
          state = record c.state {
            failures =
                HashMap.insert key
                  (record {
                    incoming = incoming;
                    target = target;
                    error = error;
                    until = until;
                    threads = threads;
                    edges = pin c.state threads;
                  })
                  (make_failure_room c.state.failures key);
          };
          failed_once = true;
        },
        ok tt,
      )

  abbrev pub answered : FailedSlot Error → CachedFailure Error
  answered slot = record { error = slot.error; until = slot.until; threads = slot.threads }

  unfoldable pub failure_answer :
      CacheState Error
      → CacheKey
      → FailedSlot Error
      → Option Provenance
      → EntryState
      → CacheState Error × Option (CachedFailure Error)
  failure_answer s key slot incoming live =
      (s, if provenance_beq slot.incoming incoming then some (answered slot) else none)
  failure_answer s key slot incoming cut =
      (record s { failures = HashMap.remove key s.failures }, none)
  failure_answer s key slot incoming expired =
      (record s { failures = HashMap.remove key s.failures }, none)

  unfoldable pub get_failure :
      CacheState Error
      → CacheKey
      → Option Time
      → Option Provenance
      → CacheState Error × Option (CachedFailure Error)
  unfolding failure_answer failure_state
  get_failure s key now incoming = elim (HashMap.get s.failures key) [
    | none ↦ (s, none)
    | some slot ↦ failure_answer s key slot incoming (failure_state s slot now)
  ]
