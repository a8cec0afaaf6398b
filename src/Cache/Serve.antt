-- ===== src/Cache/Serve.antt =====
-- crates/ikigai-core/src/cache.rs: `ReprCache` and its reads. A read returns the cache beside its
-- answer: a hit counts, and a stale entry is evicted.
use ikigai_core.Cache.Answer.{
  offered, hit, miss, offer_face, answer_face, touch, Served, Offer, Answer,
}
use ikigai_core.Prelude.{
  refl, ◌≡◌, ℕ, Str, ◌==◌, nat_eq, list_eq, Bool, true, false, Option, none, some, if◌then◌else◌,
  wrapping_add, is_some,
}
use ikigai_core.HashMap
use ikigai_core.HashMap.{HashMap}
use ikigai_core.Repr.{Thread, Provenance, Representation, origin_validator, copied, share}
use ikigai_core.Repr.Content.{Body}
use ikigai_core.Repr.Lifetime.{Time}
use ikigai_core.Cache.Entry.{CacheKey, key_eq, Slot, EntryState, live, cut, expired, is_live}
use ikigai_core.Cache.State.{CacheState, state_of, record_cut, evict}

-- `ReprCache`, with what its policy keeps. The mirror of the cut counter stands beside the state.
pub record ReprCache (Error : Type 0) (S : Type 0) : Type 0 where
  pub state : CacheState Error
  pub open state use *
  pub policy_state : S
  pub cut_seq : ℕ
  pub failed_once : Bool

abbrev pub hit_of {ℓ} : {A : Type ℓ} {T : Type 0} → A × Served T → A × Option T
hit_of (s, hit t) = (s, some t)
hit_of (s, offered _) = (s, none)
hit_of (s, miss) = (s, none)

pub state-hit_of {ℓ} : {A : Type ℓ} {T : Type 0} (x : A × Served T) → (hit_of x).0 ≡ x.0
state-hit_of (s, hit t) = refl
state-hit_of (s, offered _) = refl
state-hit_of (s, miss) = refl

module _ {Error : Type 0} where
  unfoldable pub count_hit : CacheState Error → CacheKey → CacheState Error
  count_hit s key =
      let tick = wrapping_add s.tick 1 in
      record s { tick = tick; entries = HashMap.modify key (touch tick) s.entries }

  module _ {T : Type 0} (face : Slot → Option T) (offer : Slot → Option Offer) where
    unfoldable pub serve_live : CacheState Error → CacheKey → Slot → CacheState Error × Served T
    unfolding count_hit
    serve_live s key entry = elim (face entry) [
      | none ↦ (s, miss)
      | some answer ↦ (count_hit s key, hit answer)
    ]

    unfoldable pub serve_expired : CacheState Error → CacheKey → Slot → CacheState Error × Served T
    unfolding evict origin_validator
    serve_expired s key entry =
        if is_some (origin_validator entry.representation)
        then (s, elim (offer entry) [ none ↦ miss | some o ↦ offered o ])
        else (evict s key, miss)

    unfoldable pub serve_entry :
        CacheState Error → CacheKey → Slot → EntryState → CacheState Error × Served T
    unfolding serve_live serve_expired evict
    serve_entry s key entry live = serve_live s key entry
    serve_entry s key entry expired = serve_expired s key entry
    serve_entry s key entry cut = (evict s key, miss)

    unfoldable pub serve_or_offer :
        CacheState Error → CacheKey → Option Time → CacheState Error × Served T
    unfolding serve_entry state_of
    serve_or_offer s key now = elim (HashMap.get s.entries key) [
      | none ↦ (s, miss)
      | some entry ↦ serve_entry s key entry (state_of s entry now)
    ]

  -- `lookup`: its result is `Served`, constructor by constructor.
  unfoldable pub lookup :
      CacheState Error
      → CacheKey
      → Option Time
      → Bool
      → Option Provenance
      → Bool
      → CacheState Error × Served Answer
  unfolding serve_or_offer answer_face offer_face
  lookup s key now as_buffer incoming offering =
      serve_or_offer (answer_face as_buffer incoming) (offer_face offering incoming) s key now

  -- `get` and `get_body`
  unfoldable pub get :
      CacheState Error → CacheKey → Option Time → CacheState Error × Option (Representation Str)
  unfolding serve_or_offer copied
  get s key now =
      hit_of (serve_or_offer (λ entry. copied entry.representation) (λ _. none) s key now)

  unfoldable pub get_body :
      CacheState Error → CacheKey → Option Time → CacheState Error × Option (Representation Body)
  unfolding serve_or_offer share
  get_body s key now =
      hit_of (serve_or_offer (λ entry. share entry.representation) (λ _. none) s key now)

  unfoldable pub get_answer :
      CacheState Error
      → CacheKey
      → Option Time
      → Bool
      → Option Provenance
      → CacheState Error × Option Answer
  unfolding lookup
  get_answer s key now as_buffer incoming = hit_of (lookup s key now as_buffer incoming false)

  -- `get_or_offer`: the answer, and the offer left in the caller's variable.
  unfoldable pub get_or_offer :
      CacheState Error
      → CacheKey
      → Option Time
      → Bool
      → Option Provenance
      → Option Offer
      → CacheState Error × Option Answer × Option Offer
  unfolding lookup
  get_or_offer s key now as_buffer incoming offer =
      let (s', served) = lookup s key now as_buffer incoming true in
      elim served [
        | hit answer ↦ (s', some answer, offer)
        | offered o ↦ (s', none, some o)
        | miss ↦ (s', none, offer)
      ]

  unfoldable pub discard : CacheState Error → CacheKey → Option Offer → CacheState Error
  unfolding evict
  discard s key none = s
  discard s key (some offer) = elim (HashMap.get s.entries key) [
    | none ↦ s
    | some entry ↦ if entry.stored_tick == offer.stored_tick then evict s key else s
  ]

  unfoldable pub probe : CacheState Error → CacheKey → Option Time → Bool
  unfolding state_of
  probe s key now = elim (HashMap.get s.entries key) [
    | none ↦ false
    | some entry ↦ is_live (state_of s entry now)
  ]

module _ {Error S : Type 0} where
  -- The cut is recorded under the lock, then published.
  unfoldable pub cut_thread : ReprCache Error S → Thread → ReprCache Error S
  unfolding record_cut
  cut_thread c thread =
      let (s, seq) = record_cut c.state thread in record c { state = s; cut_seq = seq }

  abbrev pub snapshot : ReprCache Error S → ℕ
  snapshot c = c.cut_seq
