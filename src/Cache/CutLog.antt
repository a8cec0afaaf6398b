-- ===== src/Cache/CutLog.antt =====
-- crates/ikigai-core/src/cache.rs: the bounded log of cuts beside the whole history of cuts, newest
-- first.
use ikigai_core.Prelude.{
  ℕ, suc, ◌<◌, ◌≤◌, ◌≡◌, refl, sym, ap, ◌∙◌, nat_eq, list_eq, Bool, true, false, ◌&&◌, ◌||◌, List,
  [], ◌∷◌, ◌++◌, reverse, length, ltb, leb, wrapping_add, u64_mod, arith, Bool-cases, inl, inr,
}
use mathlib.Core.List.{reverse-append, append_assoc}
use ikigai_core.TreeSet.{contains, TreeSet}
use ikigai_core.Repr.{Thread}
use ikigai_core.Cache.State.{make_room, CacheState, cut_log, cut_after, record_cut, cut_since}

-- The n-th cut has the number n.
unfoldable pub numbered : List Thread → List (Thread × ℕ)
numbered [] = []
numbered (t ∷ older) = (t, suc (length older)) ∷ numbered older

-- Whether one of the threads was cut after the first `taken` cuts.
unfoldable pub was_cut : TreeSet → ℕ → List Thread → Bool
unfolding contains
was_cut ts taken [] = false
was_cut ts taken (t ∷ older) =
    ltb taken (suc (length older)) && contains ts t || was_cut ts taken older

pub was_cut_late : (ts : TreeSet) (n : ℕ) (h : List Thread) → length h ≤ n → was_cut ts n h ≡ false
unfolding was_cut
was_cut_late ts n [] p = refl
was_cut_late ts n (t ∷ h) p = ground (arith, was_cut_late ts n h)

pub was_cut_nobody : (n : ℕ) (h : List Thread) → was_cut [] n h ≡ false
unfolding was_cut
was_cut_nobody n [] = refl
was_cut_nobody n (t ∷ h) = ground (arith, was_cut_nobody n h)

cut_after-numbered :
    (ts : TreeSet) (n : ℕ) (h : List Thread) → cut_after ts n (numbered h) ≡ was_cut ts n h
unfolding cut_after numbered was_cut
cut_after-numbered ts n [] = refl
cut_after-numbered ts n (t ∷ h) = ground (arith, cut_after-numbered ts n h, was_cut_late ts n h)

cut_after-append :
    (ts : TreeSet) (n : ℕ) (new old : List (Thread × ℕ))
    → cut_after ts n old ≡ false
    → cut_after ts n (new ++ old) ≡ cut_after ts n new
unfolding cut_after
cut_after-append ts n [] old e = e
cut_after-append ts n ((t, k) ∷ new) old e = ground (arith, cut_after-append ts n new old e)

module _ {Error : Type 0} where
  -- The state has counted the cuts of the history, and holds all but the oldest of them.
  pub record IsLogged (h : List Thread) (s : CacheState Error) : Type 0 where
    pub counted : s.seq ≡ length h
    pub forgotten : List Thread
    pub log : numbered h ≡ reverse s.cuts ++ numbered forgotten
    pub horizon : s.horizon ≡ length forgotten

  -- A set with a thread in it, where a snapshot before the horizon counts as cut.
  cut_since_threaded :
      (h : List Thread) (s : CacheState Error) (t : Thread) (ts : TreeSet) (n : ℕ)
      → IsLogged h s
      → cut_since s (t ∷ ts) n ≡ (ltb n s.horizon || was_cut (t ∷ ts) n h)
  unfolding cut_since
  cut_since_threaded h s t ts n l = elim (Bool-cases (ltb n s.horizon)) [
    | inl old ↦ ground (arith, old)
    | inr recent ↦ ground (
      arith,
      recent,
      l.log,
      l.horizon,
      cut_after-numbered (t ∷ ts) n h,
      cut_after-numbered (t ∷ ts) n l.forgotten,
      was_cut_late (t ∷ ts) n l.forgotten,
      cut_after-append (t ∷ ts) n (reverse s.cuts) (numbered l.forgotten),
    )
  ]

  -- The check for a cut in flight on the bounded log agrees with the whole history of cuts, but
  -- that for a set of threads that is not empty it also answers that there was one for every
  -- snapshot before the horizon. For no threads it answers that there was none.
  pub cut_since-was_cut :
      (h : List Thread) (s : CacheState Error) (ts : TreeSet) (n : ℕ)
      → IsLogged h s
      → cut_since s ts n ≡ (ltb 0 (length ts) && ltb n s.horizon || was_cut ts n h)
  unfolding cut_since
  cut_since-was_cut h s [] n l = ground (arith, was_cut_nobody n h)
  cut_since-was_cut h s (t ∷ ts) n l = ground (arith, cut_since_threaded h s t ts n l)

length-numbered : (h : List Thread) → length (numbered h) ≡ length h
unfolding numbered
length-numbered [] = refl
length-numbered (t ∷ h) = ap suc (length-numbered h)

-- The oldest of the retained cuts carries the number behind the forgotten ones.
oldest_number :
    (h : List Thread) (new : List (Thread × ℕ)) (x : Thread × ℕ) (old : List Thread)
    → numbered h ≡ new ++ x ∷ numbered old
    → x.1 ≡ suc (length old)
unfolding numbered
oldest_number [] [] x old e = absurd (ground arith)
oldest_number [] (y ∷ new) x old e = absurd (ground arith)
oldest_number (t ∷ h) (y ∷ new) x old e = oldest_number h new x old (ground arith)
oldest_number (t ∷ h) [] x old e = ground (arith, length-numbered h, length-numbered old)

numbered-forget :
    (h : List Thread) (x : Thread × ℕ) (rest : List (Thread × ℕ)) (old : List Thread)
    → numbered h ≡ reverse (x ∷ rest) ++ numbered old
    → (x.1 ≡ suc (length old)) × (numbered h ≡ reverse rest ++ numbered (x.0 ∷ old))
unfolding numbered
numbered-forget h x rest old e =
    let split : numbered h ≡ reverse rest ++ x ∷ numbered old =
      e
      ∙ ap (λ l. l ++ numbered old) (reverse-append (x ∷ []) rest)
      ∙ append_assoc (reverse rest) (x ∷ []) (numbered old) in
    let number = oldest_number h (reverse rest) x old split in
    (number, split ∙ ap (λ (n : ℕ). reverse rest ++ (x.0, n) ∷ numbered old) number)

-- One more cut at the front of the history, after the log has made room.
numbered-push :
    (h old : List Thread) (kept : List (Thread × ℕ)) (t : Thread)
    → numbered h ≡ reverse kept ++ numbered old
    → numbered (t ∷ h) ≡ reverse (kept ++ (t, suc (length h)) ∷ []) ++ numbered old
unfolding numbered
numbered-push h old kept t e =
    ap (λ l. (t, suc (length h)) ∷ l) e
    ∙ sym (ap (λ l. l ++ numbered old) (reverse-append kept ((t, suc (length h)) ∷ [])))

module _ {Error : Type 0} (h : List Thread) (s : CacheState Error) (t : Thread) where
  IsLogged-from :
      (old : List Thread) (horizon : ℕ) (kept : List (Thread × ℕ))
      → s.seq ≡ length h
      → suc (length h) < u64_mod
      → numbered h ≡ reverse kept ++ numbered old
      → horizon ≡ length old
      → make_room s.horizon s.cuts ≡ (horizon, kept)
      → IsLogged (t ∷ h) (record_cut s t).0
  unfolding record_cut
  IsLogged-from old horizon kept counted fits log at room =
      let number : wrapping_add s.seq 1 ≡ suc (length h) = omega arith in
      record {
        counted = number;
        forgotten = old;
        log = rw (room, number) (numbered-push h old kept t log);
        horizon = rw room at;
      }

  -- A recorded cut keeps the bounded log exact: the counter counts the cuts, the log holds all but
  -- the oldest, and the horizon is the number of those, until the counter wraps.
  pub record_cut-IsLogged :
      IsLogged h s → suc (length h) < u64_mod → IsLogged (t ∷ h) (record_cut s t).0
  record_cut-IsLogged l fits = elim (Bool-cases (leb cut_log (length s.cuts))) [
    | inl full ↦ forget s.cuts refl full
    | inr room ↦
        IsLogged-from l.forgotten s.horizon s.cuts l.counted fits l.log l.horizon
          (unfold make_room in rw room)
  ]
    where
      forget :
          (cuts : List (Thread × ℕ))
          → s.cuts ≡ cuts
          → leb cut_log (length s.cuts) ≡ true
          → IsLogged (t ∷ h) (record_cut s t).0
      forget [] e full = absurd (ground (arith, e))
      forget (x ∷ rest) e full =
          let (number, log) =
            numbered-forget h x rest l.forgotten
              (l.log ∙ ap (λ c. reverse c ++ numbered l.forgotten) e) in
          IsLogged-from (x.0 ∷ l.forgotten) x.1 rest l.counted fits log number
            (unfold make_room in rw full (ground (arith, e)))
