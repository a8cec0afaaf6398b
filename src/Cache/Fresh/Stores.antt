-- ===== src/Cache/Fresh/Stores.antt =====
-- crates/ikigai-core/src/cache.rs: the invariant through storing and the eviction loop.
use ikigai_core.Prelude.{
  subst, ℕ, zero, suc, ◌≡◌, refl, Str, ◌&&◌, ◌||◌, List, length, Option, some, arith, Bool-cases,
  Option-cases, inl, inr, All, of_some, wrapping_add,
}
use ikigai_core.HashMap
use ikigai_core.HashMap.{HashMap}
use ikigai_core.Repr.{threads, Representation, Provenance, share}
use ikigai_core.Repr.Content.{Body, share_body, share_body-eq}
use ikigai_core.Cache.Entry.{CacheKey, key_eq, Edge}
use ikigai_core.Cache.State.{edge_threads, CacheState}
use ikigai_core.Cache.Serve.{ReprCache}
use ikigai_core.Cache.Policy.{CachePolicy}
use ikigai_core.Cache.Store.{
  over, choose, resident, evict_one, enforce, enforce_bound, settle, offer_to_policy,
  candidate_facts, loses_contest,
}
use ikigai_core.Cache.History.{Event, cut_threads, Stored}
use ikigai_core.Cache.Fresh.Edges.{EdgeIsFresh}
use ikigai_core.Cache.Fresh.Invariant.{IsFresh, evict-IsFresh}
use ikigai_core.Cache.Fresh.Sweep.{sweep-IsFresh}
use ikigai_core.Cache.Fresh.Calls.{file-IsFresh, relogged}

pub share-eq : (r r' : Representation Body) → share r ≡ some r' → r' ≡ r
unfolding share
share-eq r r' e = elim (Option-cases (share_body r.content)) [
  | inl n ↦ absurd (ground (arith, n))
  | inr (b, n) ↦ ground (arith, n, share_body-eq r.content b)
]

module _ {Error S : Type 0} (past : List (Event Error)) (p : CachePolicy S) (kept : S) where
  pub evict_one-IsFresh :
      (s s' : CacheState Error) → evict_one p kept s ≡ some s' → IsFresh past s → IsFresh past s'
  unfolding evict_one
  evict_one-IsFresh s s' e f =
      elim (Bool-cases (over p s || p.partitioned && p.over_partition (resident s.entries))) [
        | inl yes_over ↦ elim (Option-cases (choose p kept s.entries)) [
          | inl n ↦ absurd (ground (arith, n))
          | inr (key, n) ↦ elim (Bool-cases (HashMap.contains_key s.entries key)) [
            | inl there_it_is ↦
                subst (λ (x : CacheState Error). IsFresh past x)
                  (of_some (rw (yes_over, n, there_it_is, evict_one) at e))
                  (evict-IsFresh past s key f)
            | inr absent ↦ absurd (ground (arith, n, absent))
          ]
        ]
        | inr fine ↦ absurd (ground (arith, fine))
      ]

  pub enforce-IsFresh :
      (fuel : ℕ) (s s' : CacheState Error)
      → enforce p fuel kept s ≡ some s'
      → IsFresh past s
      → IsFresh past s'
  unfolding enforce
  enforce-IsFresh zero s s' e f = absurd (ground arith)
  enforce-IsFresh (suc fuel) s s' e f = elim (Option-cases (evict_one p kept s)) [
    | inl n ↦ subst (λ (x : CacheState Error). IsFresh past x) (of_some (rw (n, enforce) at e)) f
    | inr (s'', n) ↦
        enforce-IsFresh fuel s'' s' (rw (n, enforce) at e) (evict_one-IsFresh s s'' n f)
  ]

  pub enforce_bound-IsFresh :
      (s : CacheState Error) → IsFresh past s → IsFresh past (enforce_bound p kept s)
  unfolding enforce_bound
  enforce_bound-IsFresh s f = elim (Option-cases (enforce p (suc (length s.entries)) kept s)) [
    | inl n ↦ rw (n, enforce_bound) f
    | inr (s', n) ↦ rw (n, enforce_bound) (enforce-IsFresh (suc (length s.entries)) s s' n f)
  ]

  pub settle-IsFresh :
      (s : CacheState Error) (key : CacheKey) (target : Str) (r : Representation Body)
      (edges : List Edge) (cost : Option ℕ) (incoming : Option Provenance) (since : ℕ)
      → Stored key r since past
      → edge_threads edges ≡ threads r
      → All (EdgeIsFresh (cut_threads past) since s.generations) edges
      → IsFresh past s
      → IsFresh past (settle p kept s key target r edges cost incoming).0
  unfolding settle
  settle-IsFresh s key target r edges cost incoming since origin pins fresh f =
      elim (Option-cases (share r)) [
        | inl n ↦ rw (n, settle) f
        | inr (shared, n) ↦
            rw (n, settle)
              (sweep-IsFresh past _ p.capacity.max_entries (
                enforce_bound-IsFresh _ (
                  file-IsFresh past s key _
                    (record {
                      since = since;
                      origin = rw (share-eq r shared n) origin;
                      pins = rw (share-eq r shared n) pins;
                      fresh = fresh;
                    })
                    f)))
      ]

module _ {Error S : Type 0} (past : List (Event Error)) (p : CachePolicy S)
    (c : ReprCache Error S) where
  ticked : (tick : ℕ) → IsFresh past c.state → IsFresh past (record c.state { tick = tick })
  ticked tick f = record {
    logged = relogged past c.state (record c.state { tick = tick }) refl refl refl f.logged;
    bounded = f.bounded;
    entries = f.entries;
    failures = f.failures;
  }

  pub offer_to_policy-IsFresh :
      (key : CacheKey) (target : Str) (r : Representation Body) (edges : List Edge)
      (cost : Option ℕ) (incoming : Option Provenance) (since : ℕ)
      → Stored key r since past
      → edge_threads edges ≡ threads r
      → All (EdgeIsFresh (cut_threads past) since c.generations) edges
      → IsFresh past c.state
      → IsFresh past (offer_to_policy p c key target r edges cost incoming).0.state
  unfolding offer_to_policy
  offer_to_policy-IsFresh key target r edges cost incoming since origin pins fresh f =
      let s = record c.state { tick = wrapping_add c.state.tick 1 } in
      let candidate = candidate_facts p s key target r edges cost in
      let answer = p.admit c.policy_state candidate in
      elim (Bool-cases answer.0) [
        | inl admitted ↦ elim (Bool-cases (loses_contest p answer.1 s key candidate)) [
          | inl loses ↦
              rw (admitted, loses, offer_to_policy) (ticked (wrapping_add c.state.tick 1) f)
          | inr wins ↦
              rw (admitted, wins, offer_to_policy)
                (settle-IsFresh past p answer.1 s key target r edges cost incoming since origin pins
                  fresh (ticked (wrapping_add c.state.tick 1) f))
        ]
        | inr declined ↦ rw (declined, offer_to_policy) (ticked (wrapping_add c.state.tick 1) f)
      ]
