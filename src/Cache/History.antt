-- ===== src/Cache/History.antt =====
-- crates/ikigai-core/src/cache.rs: a cache as the result of calls, under the lock one after the
-- other. Histories are newest first.
use ikigai_core.Prelude.{ℕ, Str, Bool, false, List, [], ◌∷◌, Option}
use ikigai_core.TreeSet.{TreeSet}
use ikigai_core.Repr.{Thread, Provenance, Representation}
use ikigai_core.Repr.Content.{Body}
use ikigai_core.Repr.Lifetime.{Time}
use ikigai_core.Cache.Entry.{CacheKey}
use ikigai_core.Cache.Policy.{CachePolicy}
use ikigai_core.Cache.State.{CacheState}
use ikigai_core.Cache.Answer.{Offer}
use ikigai_core.Cache.Serve.{ReprCache, lookup, get, get_body, discard, cut_thread}
use ikigai_core.Cache.Store.{store_outcome}
use ikigai_core.Cache.Failure.{CachedFailure, store_failure, get_failure}

-- The calls that change a cache.
pub data Event (Error : Type 0) : Type 0 where
  cut : Thread → Event Error
  look : CacheKey → Option Time → Bool → Option Provenance → Bool → Event Error
  copy : CacheKey → Option Time → Event Error
  read : CacheKey → Option Time → Event Error
  drop : CacheKey → Option Offer → Event Error
  store : CacheKey → Str → Representation Body → ℕ → Option ℕ → Option Provenance → Event Error
  fail : CacheKey → Str → Error → Time → TreeSet → ℕ → Option Provenance → Event Error
  recall : CacheKey → Option Time → Option Provenance → Event Error

abbrev pub empty_state : {Error : Type 0} → CacheState Error
empty_state = record {
  entries = [];
  failures = [];
  generations = [];
  cuts = [];
  horizon = 0;
  seq = 0;
  tick = 0;
  bytes = 0;
  evictions = 0;
}

module _ {Error S : Type 0} where
  -- `ReprCache::new`
  abbrev pub new_cache : S → ReprCache Error S
  new_cache kept = record {
    state = empty_state;
    policy_state = kept;
    cut_seq = 0;
    failed_once = false;
  }

  abbrev pub with_state : ReprCache Error S → CacheState Error → ReprCache Error S
  with_state c s = record c { state = s }

  unfoldable pub apply : CachePolicy S → ReprCache Error S → Event Error → ReprCache Error S
  unfolding cut_thread lookup get get_body discard store_outcome store_failure get_failure
  apply p c (cut t) = cut_thread c t
  apply p c (look key now as_buffer incoming offering) =
      with_state c (lookup c.state key now as_buffer incoming offering).0
  apply p c (copy key now) = with_state c (get c.state key now).0
  apply p c (read key now) = with_state c (get_body c.state key now).0
  apply p c (drop key offer) = with_state c (discard c.state key offer)
  apply p c (store key target r taken cost incoming) =
      (store_outcome p c key target r taken cost incoming).0
  apply p c (fail key target error until ts taken incoming) =
      (store_failure c key target error until ts taken incoming).0
  apply p c (recall key now incoming) = with_state c (get_failure c.state key now incoming).0

  unfoldable pub run : CachePolicy S → S → List (Event Error) → ReprCache Error S
  unfolding apply
  run p kept [] = new_cache kept
  run p kept (e ∷ older) = apply p (run p kept older) e

-- The threads cut in a history.
unfoldable pub cut_threads : {Error : Type 0} → List (Event Error) → List Thread
cut_threads [] = []
cut_threads (cut t ∷ older) = t ∷ cut_threads older
cut_threads (_ ∷ older) = cut_threads older

-- The history stored this representation under this key, computed since this snapshot.
pub data Stored {Error : Type 0} (key : CacheKey) (r : Representation Body) (taken : ℕ)
    : List (Event Error) → Type 0 where
  here :
      {older : List (Event Error)} (target : Str) (cost : Option ℕ) (incoming : Option Provenance)
      → Stored key r taken (store key target r taken cost incoming ∷ older)
  there :
      {older : List (Event Error)} (e : Event Error)
      → Stored key r taken older
      → Stored key r taken (e ∷ older)

-- The history stored this failure under this key, with its error, its end and its threads,
-- computed since this snapshot.
pub data StoredFailure {Error : Type 0} (key : CacheKey) (f : CachedFailure Error) (taken : ℕ)
    : List (Event Error) → Type 0 where
  here :
      {older : List (Event Error)} (target : Str) (incoming : Option Provenance)
      → StoredFailure key f taken (fail key target f.error f.until f.threads taken incoming ∷ older)
  there :
      {older : List (Event Error)} (e : Event Error)
      → StoredFailure key f taken older
      → StoredFailure key f taken (e ∷ older)
