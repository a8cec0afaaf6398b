-- ===== src/Media/Symmetry.antt =====
-- crates/ikigai-core/src/media.rs: `media_types_agree` from either side.
use ikigai_core.Prelude.{
  of_some, subst, Str, ◌==◌, nat_eq, list_eq, option_eq, eq_cases, eq_refl, eq→≡, ◌≡◌, refl, inl,
  inr, Bool, true, List, [], ◌∷◌, none, some, all, arith, Bool-cases, Option-cases,
}
use ikigai_core.Media.{media_type_parts, agrees, media_types_agree, find}

-- Each name is stated once.
abbrev pub IsDistinct : List (Str × Str) → Type 0
IsDistinct [] = Unit
IsDistinct ((n, v) ∷ ps) = (find n ps ≡ none) × IsDistinct ps

found_holds :
    (p : Str × Str → Bool) (ps : List (Str × Str)) (n w : Str)
    → all p ps ≡ true
    → find n ps ≡ some w
    → p (n, w) ≡ true
unfolding find
found_holds p [] n w h e = absurd (ground arith)
found_holds p ((m, v) ∷ ps) n w h e = elim (eq_cases m n) [
  | inl q ↦
      let same : some v ≡ some w = ground (arith, q, e) in
      subst (λ z. p (z, w) ≡ true) q.0
        (subst (λ z. p (m, z) ≡ true) (of_some same) (ground (arith, h)))
  | inr q ↦ found_holds p ps n w (ground (arith, h)) (ground (arith, q, e))
]

-- What holds of each parameter that can be found holds of all, when the names are distinct.
all_of-find :
    (p : Str × Str → Bool) (ps : List (Str × Str))
    → IsDistinct ps
    → ((n w : Str) → find n ps ≡ some w → p (n, w) ≡ true)
    → all p ps ≡ true
unfolding find
all_of-find p [] d h = refl
all_of-find p ((m, v) ∷ ps) d h =
    let first : p (m, v) ≡ true = h m v (ground (arith, eq_refl m)) in
    let rest = all_of-find p ps d.1 λ n w e. elim (eq_cases m n) [
      | inl q ↦ absurd (ground (arith, subst (λ z. find z ps ≡ none) q.0 d.0, e))
      | inr q ↦ h n w (ground (arith, q, e))
    ] in
    ground (arith, first, rest)

other_way :
    (a b : List (Str × Str)) → IsDistinct a → all (agrees a) b ≡ true → all (agrees b) a ≡ true
unfolding agrees
other_way a b d h = all_of-find (agrees b) a d λ n v e. elim (Option-cases (find n b)) [
  | inl f ↦ ground (arith, f)
  | inr (w, f) ↦
      let here : agrees a (n, w) ≡ true = found_holds (agrees a) b n w h f in
      let equal : v == w ≡ true = ground (arith, here, e) in
      ground (arith, f, eq→≡ v w equal, eq_refl w)
]

-- Whether two media types agree does not depend on their order, when each states no parameter
-- twice.
pub media_types_agree_comm :
    (a b : Str)
    → IsDistinct (media_type_parts a).1
    → IsDistinct (media_type_parts b).1
    → media_types_agree a b ≡ media_types_agree b a
unfolding media_types_agree
media_types_agree_comm a b da db =
    let (ea, pa) = media_type_parts a in
    let (eb, pb) = media_type_parts b in
    let same : all (agrees pa) pb ≡ all (agrees pb) pa = elim (Bool-cases (all (agrees pa) pb)) [
      | inl h ↦ ground (arith, h, other_way pa pb da h)
      | inr h ↦ elim (Bool-cases (all (agrees pb) pa)) [
        | inl k ↦ absurd (ground (arith, h, other_way pb pa db k))
        | inr k ↦ ground (arith, h, k)
      ]
    ] in
    elim (eq_cases ea eb) [
      | inl e ↦ ground (arith, same, e, eq_refl eb)
      | inr e ↦ ground (arith, same, e, eq_cases eb ea)
    ]
