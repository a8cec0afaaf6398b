-- ===== src/Cache/Policy/ScanResistant.antt =====
-- crates/ikigai-core/src/cache.rs: `ScanResistant`, which keeps a sketch between calls.
use ikigai_core.Prelude.{
  ℕ, suc, ◌*◌, ◌/◌, min, max, ◌==◌, nat_eq, Bool, true, false, not, ◌&&◌, ◌||◌, List, [], ◌∷◌,
  Option, none, some, get_elem?, leb, ltb, saturating_add, saturating_sub, if◌then◌else◌, u64_max,
}
use ikigai_core.Cache.Entry.{EntryFacts, CacheBound}
use ikigai_core.Cache.Policy.{CachePolicy}
use ikigai_core.Cache.Policy.Sketch.{Sketch, estimate, increment}

-- The fields that do not change.
pub record Settings : Type 0 where
  pub bound : CacheBound
  pub protected_percent : ℕ

-- `protecting`, which clamps
unfoldable pub protecting : CacheBound → ℕ → Settings
protecting bound percent = record { bound = bound; protected_percent = min (max percent 1) 99 }

-- `enumerate().filter(..).min_by(..)`: the first of the least, of those that are kept.
abbrev pub better :
    (EntryFacts → EntryFacts → Bool) → ℕ → EntryFacts → Option (ℕ × EntryFacts) → ℕ × EntryFacts
better less i x none = (i, x)
better less i x (some best) = if less x best.1 then (i, x) else best

abbrev pub place : Option (ℕ × EntryFacts) → Option ℕ
place none = none
place (some best) = some best.0

unfoldable pub least_kept :
    (EntryFacts → EntryFacts → Bool)
    → (EntryFacts → Bool)
    → ℕ
    → Option (ℕ × EntryFacts)
    → List EntryFacts
    → Option ℕ
least_kept less kept i best [] = place best
least_kept less kept i best (x ∷ xs) =
    least_kept less kept (suc i) (if kept x then some (better less i x best) else best) xs

-- An entry that has been served since it was stored.
abbrev pub is_protected : EntryFacts → Bool
is_protected facts = ltb 0 facts.hits

abbrev pub is_probationary : EntryFacts → Bool
is_probationary facts = not (is_protected facts)

abbrev pub used_before : EntryFacts → EntryFacts → Bool
used_before a b = ltb a.last_used_tick b.last_used_tick

unfoldable pub newest_use : List EntryFacts → ℕ
newest_use [] = 0
newest_use (facts ∷ resident) = max facts.last_used_tick (newest_use resident)

-- Ticks that an entry has been resident.
abbrev ticks : ℕ → EntryFacts → ℕ
ticks now facts = saturating_add (saturating_sub now facts.stored_tick) 1

-- `HitRate`'s order, then the last use. The products are taken in 128 bits.
unfoldable pub served_less : ℕ → EntryFacts → EntryFacts → Bool
served_less now a b =
    let left = a.hits * ticks now b in
    let right = b.hits * ticks now a in ltb left right || left == right && used_before a b

-- The number and the bytes of the protected entries.
unfoldable pub protected_total : ℕ × ℕ → List EntryFacts → ℕ × ℕ
protected_total total [] = total
protected_total total (facts ∷ resident) =
    protected_total
      (if is_protected facts then (suc total.0, saturating_add total.1 facts.bytes) else total)
      resident

module _ (settings : Settings) where
  abbrev pub share : ℕ → ℕ
  share of = min (of * settings.protected_percent / 100) u64_max

  unfoldable pub protected_over : List EntryFacts → Bool
  unfolding protected_total
  protected_over resident =
      let total = protected_total (0, 0) resident in
      ltb (share settings.bound.max_entries) total.0 || ltb (share settings.bound.max_bytes) total.1

  unfoldable pub protected_victim : List EntryFacts → Option ℕ
  unfolding least_kept newest_use served_less
  protected_victim resident =
      least_kept (served_less (newest_use resident)) is_protected 0 none resident

  unfoldable pub scan_victim : List EntryFacts → Option ℕ
  unfolding least_kept protected_over protected_victim
  scan_victim resident = elim (least_kept used_before is_probationary 0 none resident) [
    | none ↦ protected_victim resident
    | some index ↦ if protected_over resident then protected_victim resident else some index
  ]

  unfoldable pub frequency : Sketch → EntryFacts → ℕ
  unfolding estimate
  frequency sketch facts = saturating_add (estimate sketch facts.request) facts.hits

  unfoldable pub scan_contest : Sketch → EntryFacts → List EntryFacts → Bool
  unfolding scan_victim frequency
  scan_contest sketch candidate resident = elim (scan_victim resident) [
    | none ↦ true
    | some index ↦ elim (get_elem? resident index) [
      | none ↦ true
      | some victim ↦
          if ltb 0 victim.hits
          then true
          else ltb (frequency sketch victim) (frequency sketch candidate)
    ]
  ]

  abbrev pub scan_resistant : CachePolicy Sketch
  scan_resistant = record {
    capacity = settings.bound;
    admit = λ sketch candidate.
        (leb candidate.bytes settings.bound.max_bytes, increment sketch candidate.request);
    victim = λ _ resident. scan_victim resident;
    contest = scan_contest;
    partitioned = false;
    over_partition = λ resident. false;
  }
