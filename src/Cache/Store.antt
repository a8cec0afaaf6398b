-- ===== src/Cache/Store.antt =====
-- crates/ikigai-core/src/cache.rs: storing a representation, and the bound that follows.
use ikigai_core.Prelude.{
  ℕ, zero, suc, ◌-◌, Str, nat_eq, list_eq, Bool, true, false, not, ◌&&◌, ◌||◌, List, [], ◌∷◌,
  Option, none, some, Result, ok, err, length, get_elem?, ltb, leb, if◌then◌else◌, wrapping_add,
  saturating_add,
}
use ikigai_core.TreeSet.{TreeSet}
use ikigai_core.HashMap
use ikigai_core.HashMap.{HashMap}
use ikigai_core.Repr.{Provenance, Representation, threads, share, into_body}
use ikigai_core.Repr.Content.{Body, is_one_shot}
use ikigai_core.Repr.Lifetime.{Time}
use ikigai_core.Cache.Entry.{CacheKey, key_eq, Edge, Slot, EntryFacts, body_size, slot_bytes, facts}
use ikigai_core.Cache.Policy.{CachePolicy}
use ikigai_core.Cache.State.{CacheState, generation_of, cut_since, evict, sweep_generations}
use ikigai_core.Cache.Serve.{ReprCache}

-- `Declined` of crates/ikigai-core/src/uncached.rs
pub data Declined : Type 0 where
  no_clock : Declined
  expired : Time → Declined
  cut_in_flight : Declined
  policy : Declined

abbrev pub size_of : Option Slot → ℕ
size_of none = 0
size_of (some slot) = slot_bytes slot

unfoldable pub resident : HashMap CacheKey Slot → List EntryFacts
unfolding facts
resident [] = []
resident ((key, slot) ∷ m) = facts key.request slot ∷ resident m

-- The entry that the policy names, by its place among the keys.
unfoldable pub choose : {S : Type 0} → CachePolicy S → S → HashMap CacheKey Slot → Option CacheKey
unfolding resident
choose p kept entries = elim (p.victim kept (resident entries)) [
  | none ↦ none
  | some index ↦ get_elem? (HashMap.keys entries) index
]

module _ {Error : Type 0} where
  -- Every thread of an answer, with its generation at the time of storing.
  unfoldable pub pin : CacheState Error → TreeSet → List Edge
  unfolding generation_of
  pin s [] = []
  pin s (t ∷ ts) = (t, generation_of s t) ∷ pin s ts

  -- The entry goes in, and the total of bytes follows.
  unfoldable pub file : CacheState Error → CacheKey → Slot → CacheState Error
  unfolding slot_bytes
  file s key slot = record s {
    failures = HashMap.remove key s.failures;
    entries = HashMap.insert key slot s.entries;
    bytes = saturating_add (s.bytes - size_of (HashMap.get s.entries key)) (slot_bytes slot);
  }

  module _ {S : Type 0} (p : CachePolicy S) where
    unfoldable pub over : CacheState Error → Bool
    over s = ltb p.capacity.max_entries (length s.entries) || ltb p.capacity.max_bytes s.bytes

    -- One round of the loop of `enforce_bound`: the state after an eviction, or nothing when the
    -- loop returns.
    unfoldable pub evict_one : S → CacheState Error → Option (CacheState Error)
    unfolding over choose resident evict
    evict_one kept s =
        if over s || p.partitioned && p.over_partition (resident s.entries)
        then elim (choose p kept s.entries) [
          | none ↦ none
          | some key ↦ if HashMap.contains_key s.entries key then some (evict s key) else none
        ]
        else none

    -- The loop on fuel: nothing when the fuel runs out.
    unfoldable pub enforce : ℕ → S → CacheState Error → Option (CacheState Error)
    unfolding evict_one
    enforce zero kept s = none
    enforce (suc fuel) kept s = elim (evict_one kept s) [
      | none ↦ some s
      | some s' ↦ enforce fuel kept s'
    ]

    abbrev pub or_same : CacheState Error → Option (CacheState Error) → CacheState Error
    or_same s none = s
    or_same s (some s') = s'

    -- A round for each entry is enough, and one more to see that nothing is left to do.
    unfoldable pub enforce_bound : S → CacheState Error → CacheState Error
    unfolding enforce
    enforce_bound kept s = or_same s (enforce (suc (length s.entries)) kept s)

    unfoldable pub candidate_facts :
        CacheState Error → CacheKey → Str → Representation Body → List Edge → Option ℕ → EntryFacts
    unfolding body_size
    candidate_facts s key target r edges cost = record {
      request = key.request;
      target = target;
      media_type = r.repr_type.media_type;
      bytes = body_size r.content;
      cost_millis = cost;
      hits = 0;
      threads = length edges;
      stored_tick = s.tick;
      last_used_tick = s.tick;
    }

    -- Whether the contest keeps the residents: a new key that would displace one.
    unfoldable pub loses_contest : S → CacheState Error → CacheKey → EntryFacts → Bool
    unfolding resident
    loses_contest kept s key candidate =
        not (HashMap.contains_key s.entries key)
        && (leb p.capacity.max_entries (length s.entries)
            || ltb p.capacity.max_bytes (saturating_add s.bytes candidate.bytes)
            || p.partitioned)
        && not (p.contest kept candidate (resident s.entries))

    -- The last part of `store_outcome`, for an admitted candidate.
    unfoldable pub settle :
        S
        → CacheState Error
        → CacheKey
        → Str
        → Representation Body
        → List Edge
        → Option ℕ
        → Option Provenance
        → CacheState Error × Result (Unit {0}) Declined
    unfolding file enforce_bound sweep_generations share
    settle kept s key target r edges cost incoming = elim (share r) [
      | none ↦ (s, err policy)
      | some shared ↦ (
        sweep_generations
            (enforce_bound kept (
              file s key (record {
                incoming = incoming;
                target = target;
                representation = shared;
                edges = edges;
                cost_millis = cost;
                hits = 0;
                stored_tick = s.tick;
                last_used_tick = s.tick;
              })))
            p.capacity.max_entries,
        ok tt,
      )
    ]

    -- The part of `store_outcome` behind the race check.
    unfoldable pub offer_to_policy :
        ReprCache Error S
        → CacheKey
        → Str
        → Representation Body
        → List Edge
        → Option ℕ
        → Option Provenance
        → ReprCache Error S × Result (Unit {0}) Declined
    unfolding candidate_facts loses_contest settle
    offer_to_policy c key target r edges cost incoming =
        let s = record c.state { tick = wrapping_add c.state.tick 1 } in
        let candidate = candidate_facts s key target r edges cost in
        let (admitted, kept) = p.admit c.policy_state candidate in
        let declined = record c { state = s; policy_state = kept } in
        if not admitted
        then (declined, err policy)
        else if loses_contest kept s key candidate
        then (declined, err policy)
        else (let (s', outcome) = settle kept s key target r edges cost incoming in
            (record declined { state = s' }, outcome))

    unfoldable pub store_outcome :
        ReprCache Error S
        → CacheKey
        → Str
        → Representation Body
        → ℕ
        → Option ℕ
        → Option Provenance
        → ReprCache Error S × Result (Unit {0}) Declined
    unfolding is_one_shot cut_since threads pin offer_to_policy
    store_outcome c key target r taken cost incoming =
        if is_one_shot r.content
        then (c, err policy)
        else if cut_since c.state (threads r) taken
        then (c, err cut_in_flight)
        else offer_to_policy c key target r (pin c.state (threads r)) cost incoming

    abbrev stored_ok : ReprCache Error S × Result (Unit {0}) Declined → ReprCache Error S × Bool
    stored_ok (c, ok _) = (c, true)
    stored_ok (c, err _) = (c, false)

    -- `store_body` and `store`
    unfoldable pub store_body :
        ReprCache Error S
        → CacheKey
        → Str
        → Representation Body
        → ℕ
        → Option ℕ
        → ReprCache Error S × Bool
    unfolding store_outcome
    store_body c key target r taken cost = stored_ok (store_outcome c key target r taken cost none)

    unfoldable pub store :
        ReprCache Error S
        → CacheKey
        → Str
        → Representation Str
        → ℕ
        → Option ℕ
        → ReprCache Error S × Bool
    unfolding store_body into_body
    store c key target r taken cost = store_body c key target (into_body r) taken cost
