-- ===== src/Spaces/Order.antt =====
-- crates/ikigai-core/src/space.rs: the walk of `resolve_in` against the list of the spaces that a
-- chain consults.
use ikigai_core.Prelude.{
  subst, ℕ, zero, suc, ◌-◌, ◌≤◌, min, Str, nat_eq, list_eq, option_eq, ◌≡◌, refl, sym, ap, ◌∙◌,
  true, false, List, [], ◌∷◌, ◌++◌, map, reverse, Option, none, some, ok, length, is_some, is_none,
  if◌then◌else◌, arith,
}
use ikigai_core.Prelude.{map-reverse_aux}
use mathlib.Core.List.{append-nil, append_assoc}
use ikigai_core.Grammar.Search.{take, drop}
use ikigai_core.Grammar.Slices.{length-drop}
use ikigai_core.Spaces.Tree.{Space, LevelPath, Resolved, hit, miss, resolve}
use ikigai_core.Spaces.Seals.{Seals}
use ikigai_core.Spaces.Scope.{
  Chain, Scope, CorridorIdentity, host_of, behind_of, consulted, zip, corridor_hit, admit,
  level_hit, sealed_by, resolve_behind, resolve_chain, resolve_in,
}
use ikigai_core.Spaces.Sources.{
  Source, corridor, levels_of, sources, first_hit, Same, BothSame, Agrees, or_opt, first_hit-append,
  Agrees-or, Agrees-admit, corridor_hit-BothSame, level_hit-BothSame, first_hit-path,
  corridors-none, levels_of-some, spaces_of, spaces_of-sources,
}

-- Each corridor has its identity, and the confined ones are among them.
pub record IsChain (c : Chain) : Type 0 where
  pub paired : length c.identities ≡ length c.injected
  pub within : c.confined_count ≤ length c.injected

zip-firsts {ℓ κ} :
    {A : Type ℓ} {B : Type κ} (xs : List A) (ys : List B)
    → length ys ≡ length xs
    → map (λ p. p.0) (zip xs ys) ≡ xs
unfolding zip
zip-firsts [] ys h = refl
zip-firsts (x ∷ xs) [] h = absurd (omega arith)
zip-firsts (x ∷ xs) (y ∷ ys) h = ap (λ l. x ∷ l) (zip-firsts xs ys (omega arith))

reverse-zip-firsts :
    (xs : List Space) (ys : List CorridorIdentity)
    → length ys ≡ length xs
    → map (λ p. p.0) (reverse (zip xs ys)) ≡ reverse xs
reverse-zip-firsts xs ys h =
    map-reverse_aux (λ p. p.0) (zip xs ys) [] ∙ ap reverse (zip-firsts xs ys h)

length-take {ℓ} : {A : Type ℓ} (n : ℕ) (l : List A) → length (take n l) ≡ min n (length l)
unfolding take
length-take zero l = omega arith
length-take (suc n) [] = omega arith
length-take (suc n) (x ∷ l) = omega (arith, length-take n l)

module _ (seals : Seals) (root : Space) (target : Str) where
  from_corridor :
      (path : Option LevelPath) (q r : Resolved)
      → is_none path ≡ true
      → Same path q r
      → Agrees seals target (some (path, q)) (ok (hit r))
  from_corridor none q r e h = h
  from_corridor (some path) q r e h = absurd (ground arith)

  from_level :
      (path : Option LevelPath) (q r : Resolved)
      → is_some path ≡ true
      → Same path q r
      → Agrees seals target (some (path, q)) (admit seals target (hit r))
  from_level none q r e h = absurd (ground arith)
  from_level (some path) q r e h = Agrees-admit seals target path q r h

  abbrev root_source : List Source
  root_source = (some [], root) ∷ []

  at_root-Agrees :
      Agrees seals target (first_hit root_source target) (admit seals target (resolve root target))
  unfolding first_hit admit
  at_root-Agrees =
      elim (resolve root target)
        as (λ o.
          Agrees seals target (elim o [ hit r ↦ some (some [], r) | miss ↦ none ])
            (admit seals target o)) [
              | hit r ↦ Agrees-admit seals target [] r r (record {
                endpoint = refl;
                bindings = refl;
                canonical = refl;
                levels = append-nil r.levels;
              })
              | miss ↦ tt
            ]

  module _ (c : Chain) (p : IsChain c) where
    abbrev host : List Source
    host = map corridor (reverse (host_of c))

    abbrev behind : List Source
    behind = map corridor (reverse (behind_of c))

    abbrev ends : List Source
    ends = if c.severed then [] else root_source

    host-BothSame :
        BothSame
          (first_hit host target)
          (corridor_hit (reverse (zip (host_of c) (drop c.confined_count c.identities))) target)
    host-BothSame =
        subst
          (λ l.
            BothSame (first_hit (map corridor l) target) (
              corridor_hit (reverse (zip (host_of c) (drop c.confined_count c.identities))) target))
          (reverse-zip-firsts (host_of c) (drop c.confined_count c.identities) (
            length-drop c.confined_count c.identities
            ∙ ap (λ n. n - c.confined_count) p.paired
            ∙ sym (length-drop c.confined_count c.injected)))
          (corridor_hit-BothSame (reverse (zip (host_of c) (drop c.confined_count c.identities)))
            target)

    behind-BothSame :
        BothSame
          (first_hit behind target)
          (corridor_hit (reverse (zip (behind_of c) (take c.confined_count c.identities))) target)
    behind-BothSame =
        subst
          (λ l. BothSame (first_hit (map corridor l) target) (
            corridor_hit (reverse (zip (behind_of c) (take c.confined_count c.identities))) target))
          (reverse-zip-firsts (behind_of c) (take c.confined_count c.identities) (
            length-take c.confined_count c.identities
            ∙ ap (λ n. min c.confined_count n) p.paired
            ∙ sym (length-take c.confined_count c.injected)))
          (corridor_hit-BothSame (reverse (zip (behind_of c) (take c.confined_count c.identities)))
            target)

    ends-Agrees :
        Agrees seals target
          (first_hit ends target)
          (if c.severed then ok miss else admit seals target (resolve root target))
    unfolding first_hit
    ends-Agrees =
        elim (c.severed)
          as (λ b.
            Agrees seals target (first_hit (if b then [] else root_source) target)
              (if b then ok miss else admit seals target (resolve root target))) [
                | true ↦ tt
                | false ↦ at_root-Agrees
              ]

    -- The answer of a corridor stands as it is.
    corridor-Agrees :
        (l : List Space) (path : Option LevelPath) (q r : Resolved)
        → first_hit (map corridor l) target ≡ some (path, q)
        → Same path q r
        → Agrees seals target (some (path, q)) (ok (hit r))
    corridor-Agrees l path q r e h =
        from_corridor path q r
          (first_hit-path (λ x. is_none x ≡ true) (map corridor l) target path q (corridors-none l)
            e)
          h

    behind-Agrees :
        sealed_by seals target ≡ none
        → Agrees seals target
            (or_opt (first_hit behind target) (first_hit ends target))
            (resolve_behind seals c root target)
    unfolding resolve_behind
    behind-Agrees e =
        let corridors : Option Resolved =
          corridor_hit (reverse (zip (behind_of c) (take c.confined_count c.identities))) target in
        let open_walk : corridors ≡ (if is_none (sealed_by seals target) then corridors else none) =
          rw e in
        subst
          (λ o.
            Agrees seals target (or_opt (first_hit behind target) (first_hit ends target)) (elim o [
              | some r ↦ ok (hit r)
              | none ↦ if c.severed then ok miss else admit seals target (resolve root target)
            ]))
          open_walk
          (Agrees-or seals target (first_hit behind target) (first_hit ends target) corridors
            (λ r. ok (hit r))
            (if c.severed then ok miss else admit seals target (resolve root target))
            behind-BothSame (corridor-Agrees (reverse (behind_of c))) ends-Agrees)

    levels-Agrees :
        sealed_by seals target ≡ none
        → Agrees seals target
            (or_opt
              (first_hit (levels_of c.levels) target)
              (or_opt (first_hit behind target) (first_hit ends target)))
            (elim (level_hit seals (sealed_by seals target) c.levels target) [
              | some r ↦ admit seals target (hit r)
              | none ↦ resolve_behind seals c root target
            ])
    levels-Agrees e =
        Agrees-or seals target (first_hit (levels_of c.levels) target)
          (or_opt (first_hit behind target) (first_hit ends target))
          (level_hit seals (sealed_by seals target) c.levels target)
          (λ r. admit seals target (hit r)) (resolve_behind seals c root target)
          (subst
            (λ o.
              BothSame (first_hit (levels_of c.levels) target) (level_hit seals o c.levels target))
            (sym e) (level_hit-BothSame seals c.levels target))
          (λ path q r found h.
            from_level path q r
              (first_hit-path (λ x. is_some x ≡ true) (levels_of c.levels) target path q
                (levels_of-some c.levels) found)
              h)
          (behind-Agrees e)

    sources-parts :
        first_hit (sources (some c) root) target
        ≡ or_opt (first_hit host target) (
            or_opt
              (first_hit (levels_of c.levels) target)
              (or_opt (first_hit behind target) (first_hit ends target)))
    unfolding sources
    sources-parts =
        let l : List Source = levels_of c.levels in
        ap (λ s. first_hit s target) (append_assoc host (l ++ behind) ends)
        ∙ first_hit-append host ((l ++ behind) ++ ends) target
        ∙ ap (λ s. or_opt (first_hit host target) (first_hit s target)) (append_assoc l behind ends)
        ∙ ap (or_opt (first_hit host target)) (first_hit-append l (behind ++ ends) target)
        ∙ ap (λ o. or_opt (first_hit host target) (or_opt (first_hit l target) o))
            (first_hit-append behind ends target)

    resolve_chain-Agrees :
        sealed_by seals target ≡ none
        → Agrees seals target
            (first_hit (sources (some c) root) target)
            (resolve_chain seals c root target)
    unfolding resolve_chain
    resolve_chain-Agrees e =
        subst (λ o. Agrees seals target o (resolve_chain seals c root target)) (sym sources-parts)
          (Agrees-or seals target (first_hit host target)
            (or_opt (first_hit (levels_of c.levels) target)
              (or_opt (first_hit behind target) (first_hit ends target)))
            (corridor_hit (reverse (zip (host_of c) (drop c.confined_count c.identities))) target)
            (λ r. ok (hit r))
            (elim (level_hit seals (sealed_by seals target) c.levels target) [
              | some r ↦ admit seals target (hit r)
              | none ↦ resolve_behind seals c root target
            ])
            host-BothSame (corridor-Agrees (reverse (host_of c))) (levels-Agrees e))

abbrev pub IsScope : Scope → Type 0
IsScope none = Unit {0}
IsScope (some c) = IsChain c

resolve_in-Agrees :
    (seals : Seals) (scope : Scope) (root : Space) (target : Str)
    → IsScope scope
    → sealed_by seals target ≡ none
    → Agrees seals target
        (first_hit (sources scope root) target)
        (resolve_in seals scope root target)
unfolding resolve_in sources
resolve_in-Agrees seals none root target p e = at_root-Agrees seals root target
resolve_in-Agrees seals (some c) root target p e = resolve_chain-Agrees seals root target c p e

-- In a chain that has an identity for each corridor, a name that is not sealed is resolved by the
-- first space of the chain's list of consulted spaces that answers it, with that space's door,
-- bindings, reported name and levels, and the path of the level that it stands in. An answer of a
-- corridor stands. One of a level or of the root is the answer when the seals admit it at that
-- path, and otherwise their refusal is. It is a miss exactly when no space of the list answers.
pub resolve_in-consulted :
    (seals : Seals) (scope : Scope) (root : Space) (target : Str)
    → IsScope scope
    → sealed_by seals target ≡ none
    → (spaces_of (sources scope root) ≡ consulted scope root)
      × Agrees seals target
          (first_hit (sources scope root) target)
          (resolve_in seals scope root target)
resolve_in-consulted seals scope root target p e =
    (spaces_of-sources scope root, resolve_in-Agrees seals scope root target p e)
