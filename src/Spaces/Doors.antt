-- ===== src/Spaces/Doors.antt =====
-- crates/ikigai-core/src/space.rs: which door a space answers by, and for which name.
use ikigai_core.Prelude.{
  subst, Str, nat_eq, list_eq, option_eq, ◌≡◌, refl, sym, ap, ◌∙◌, ◌⊎◌, inl, inr, Bool, true, false,
  List, [], ◌∷◌, Option, none, some, starts_with, if◌then◌else◌, arith, Option-cases,
}
use ikigai_core.Prelude.{
  Str, nat_eq, list_eq, option_eq, ◌≡◌, refl, sym, ap, ◌∙◌, ◌⊎◌, inl, inr, Bool, true, false, List,
  [], ◌∷◌, Option, none, some, starts_with, if◌then◌else◌, arith, Option-cases,
}
use ikigai_core.Spaces.Tree.{
  Grammar, match_iri, Endpoint, bottom, is_limiter, admits_name, Space, Spaces, endpoints, mount,
  fallback, limit, level, rewrite, nil, cons, LevelCore, Resolved, Resolution, hit, miss, found,
  or_else, with_answered_by, with_canonical, within, answered, first_binding, enter, reported,
  or_next, resolve, resolve_first,
}

abbrev pub Listed : List (Grammar × Endpoint) → Grammar → Endpoint → Type 0
Listed [] g e = ⊥
Listed ((g', e') ∷ bindings) g e = ((g' ≡ g) × (e' ≡ e)) ⊎ Listed bindings g e

-- A door and its grammar stand somewhere in a space.
unfoldable mutual
  pub Bound : Space → Grammar → Endpoint → Type 0
  Bound (endpoints bindings id) g e = Listed bindings g e
  Bound (mount p inner id) g e = Bound inner g e
  Bound (fallback spaces id) g e = BoundIn spaces g e
  Bound (limit family id) g e = ⊥
  Bound (level name serial inner seals namespace) g e = Bound inner g e
  Bound (rewrite rule inner id) g e = Bound inner g e

  pub BoundIn : Spaces → Grammar → Endpoint → Type 0
  BoundIn nil g e = ⊥
  BoundIn (cons s spaces) g e = Bound s g e ⊎ BoundIn spaces g e

-- The name that a hit stands for: the one it reports, or the one that was asked for.
abbrev pub name_or : Option Str → Str → Str
name_or none target = target
name_or (some name) target = name

abbrev pub meant : Resolved → Str → Str
meant r target = name_or r.canonical target

name_or-or_else :
    (o : Option Str) (name target : Str) → name_or (or_else o name) target ≡ name_or o name
name_or-or_else none name target = refl
name_or-or_else (some c) name target = refl

-- A hit comes from a limiter, or from a door whose grammar matches the name with these bindings.
pub record Answers (B : Grammar → Endpoint → Type 0) (target : Str) (r : Resolved) : Type 0 where
  pub by : Grammar
  pub bound : B by r.endpoint
  pub matched : match_iri by (meant r target) ≡ some r.bindings

abbrev pub Sound : (Grammar → Endpoint → Type 0) → Str → Resolution → Type 0
Sound B target miss = Unit {0}
Sound B target (hit r) = (r.endpoint ≡ bottom) ⊎ Answers B target r

Sound-answered :
    (B : Grammar → Endpoint → Type 0) (target : Str) (o : Resolution) (id : Option Str)
    → Sound B target o
    → Sound B target (answered o id)
unfolding answered with_answered_by
Sound-answered B target miss none h = tt
Sound-answered B target miss (some id) h = tt
Sound-answered B target (hit r) none h = h
Sound-answered B target (hit r) (some id) (inl h) = inl h
Sound-answered B target (hit r) (some id) (inr h) =
    inr record { by = h.by; bound = h.bound; matched = h.matched }

Sound-enter :
    (B : Grammar → Endpoint → Type 0) (target : Str) (o : Resolution) (l : LevelCore)
    → Sound B target o
    → Sound B target (enter l o)
unfolding enter with_answered_by within
Sound-enter B target miss l h = tt
Sound-enter B target (hit r) l (inl h) = inl h
Sound-enter B target (hit r) l (inr h) =
    inr record { by = h.by; bound = h.bound; matched = h.matched }

-- A hit under another name reports that name, unless it reports one already.
Sound-reported :
    (B : Grammar → Endpoint → Type 0) (target name : Str) (o : Resolution)
    → Sound B name o
    → Sound B target (reported name o)
unfolding reported with_canonical
Sound-reported B target name miss h = tt
Sound-reported B target name (hit r) (inl h) = inl h
Sound-reported B target name (hit r) (inr h) = inr record {
  by = h.by;
  bound = h.bound;
  matched = ap (match_iri h.by) (name_or-or_else r.canonical name target) ∙ h.matched;
}

Sound-or_next :
    (B : Grammar → Endpoint → Type 0) (target : Str) (o next : Resolution)
    → Sound B target o
    → Sound B target next
    → Sound B target (or_next o next)
unfolding or_next
Sound-or_next B target miss next h k = k
Sound-or_next B target (hit r) next h k = h

Sound-mono :
    (B C : Grammar → Endpoint → Type 0) (target : Str) (o : Resolution)
    → ((g : Grammar) (e : Endpoint) → B g e → C g e)
    → Sound B target o
    → Sound C target o
Sound-mono B C target miss f h = tt
Sound-mono B C target (hit r) f (inl h) = inl h
Sound-mono B C target (hit r) f (inr h) =
    inr record { by = h.by; bound = f h.by r.endpoint h.bound; matched = h.matched }

first_binding-Sound :
    (bindings : List (Grammar × Endpoint)) (target : Str)
    → Sound (Listed bindings) target (first_binding bindings target)
unfolding first_binding
first_binding-Sound [] target = tt
first_binding-Sound ((g, e) ∷ bindings) target = elim (Option-cases (match_iri g target)) [
  | inl n ↦
      let later : Resolution = first_binding bindings target in
      let falls : first_binding ((g, e) ∷ bindings) target ≡ later = ground (arith, n) in
      subst (Sound (Listed ((g, e) ∷ bindings)) target) (sym falls) (
        Sound-mono (Listed bindings) (Listed ((g, e) ∷ bindings)) target later (λ g' e' h. inr h)
          (first_binding-Sound bindings target))
  | inr (b, n) ↦
      let stops : first_binding ((g, e) ∷ bindings) target ≡ hit (found e b) = ground (arith, n) in
      subst (Sound (Listed ((g, e) ∷ bindings)) target) (sym stops)
        (inr record { by = g; bound = inl (refl, refl); matched = n })
]

Sound-if :
    (B : Grammar → Endpoint → Type 0) (target : Str) (b : Bool) (o : Resolution)
    → Sound B target o
    → Sound B target (if b then o else miss)
Sound-if B target true o h = h
Sound-if B target false o h = tt

Sound-rewrite :
    (B : Grammar → Endpoint → Type 0) (target : Str) (next : Option Str) (f : Str → Resolution)
    (id : Option Str)
    → ((name : Str) → Sound B name (f name))
    → Sound B target (elim next [
      | some name ↦ answered (reported name (f name)) id
      | none ↦ answered (f target) id
    ])
Sound-rewrite B target none f id h = Sound-answered B target (f target) id (h target)
Sound-rewrite B target (some name) f id h =
    Sound-answered B target (reported name (f name)) id
      (Sound-reported B target name (f name) (h name))

mutual
  unfolding resolve Bound

  pub resolve-Sound : (s : Space) (target : Str) → Sound (Bound s) target (resolve s target)
  resolve-Sound (endpoints bindings id) target =
      Sound-answered (Listed bindings) target (first_binding bindings target) id
        (first_binding-Sound bindings target)
  resolve-Sound (mount p inner id) target =
      Sound-if (Bound inner) target (starts_with p target) (answered (resolve inner target) id)
        (Sound-answered (Bound inner) target (resolve inner target) id (resolve-Sound inner target))
  resolve-Sound (fallback spaces id) target =
      Sound-answered (BoundIn spaces) target (resolve_first spaces target) id
        (resolve_first-Sound spaces target)
  resolve-Sound (limit family id) target =
      Sound-if (Bound (limit family id)) target (admits_name family target)
        (answered (hit (found bottom [])) id)
        (Sound-answered (Bound (limit family id)) target (hit (found bottom [])) id (inl refl))
  resolve-Sound (level name serial inner seals namespace) target =
      Sound-enter (Bound inner) target (resolve inner target)
        record { name = name; serial = serial; inner = inner; seals = seals; namespace = namespace }
        (resolve-Sound inner target)
  resolve-Sound (rewrite rule inner id) target =
      Sound-rewrite (Bound inner) target (rule target) (resolve inner) id
        (λ name. resolve-Sound inner name)

  resolve_first-Sound :
      (spaces : Spaces) (target : Str) → Sound (BoundIn spaces) target (resolve_first spaces target)
  resolve_first-Sound nil target = tt
  resolve_first-Sound (cons s spaces) target =
      Sound-or_next (BoundIn (cons s spaces)) target (resolve s target)
        (resolve_first spaces target)
        (Sound-mono (Bound s) (BoundIn (cons s spaces)) target (resolve s target) (λ g e h. inl h)
          (resolve-Sound s target))
        (Sound-mono (BoundIn spaces) (BoundIn (cons s spaces)) target (resolve_first spaces target)
          (λ g e h. inr h) (resolve_first-Sound spaces target))

-- A hit of a space that is no limiter comes from a door that is bound somewhere in the space, and
-- the door's grammar matches the name that the hit reports, or else the name asked for, with the
-- hit's bindings.
pub resolve-Answers :
    (s : Space) (target : Str) (r : Resolved)
    → resolve s target ≡ hit r
    → is_limiter r.endpoint ≡ false
    → Answers (Bound s) target r
unfolding is_limiter
resolve-Answers s target r h k = elim (subst (Sound (Bound s) target) h (resolve-Sound s target)) [
  | inl e ↦ absurd (ground (arith, e))
  | inr it ↦ it
]
