-- ===== src/Spaces/Tests.antt =====
-- crates/ikigai-core/src/space.rs and seal.rs: chains and seals at concrete names.
use ikigai_core.Prelude.{
  ℕ, zero, suc, ◌+◌, ◌-◌, ◌*◌, ◌/◌, ◌%◌, ◌^◌, ◌≤◌, ◌<◌, min, max, Str, codes, Eq, ◌==◌, nat_eq,
  list_eq, option_eq, eq_cases, eq_refl, eq→≡, ≡→eq, ◌≡◌, refl, sym, ap, ◌∙◌, ◌≢◌, ◌↔◌, ◌⊎◌, inl,
  inr, Bool, true, false, not, ◌&&◌, ◌||◌, List, [], ◌∷◌, ◌++◌, map, reverse, Option, none, some,
  Result, ok, err, ltb, leb, any, all, All, keep, length, starts_with, strip_prefix, is_some,
  is_none, if◌then◌else◌, arith, Bool-cases, Option-cases, str_cmp, str_cmp_eq, str_cmp_refl,
}
use ikigai_core.Spaces.Tree.{
  exact_name, door, is_limiter, Space, endpoints, fallback, level, nil, cons, Resolved, hit, miss,
  resolve,
}
use ikigai_core.Spaces.Seals.{core, sealing_level, Seals, owner_of}
use ikigai_core.Spaces.Scope.{
  Chain, Scope, CorridorIdentity, named, sealed_by, resolve_in, stack, consulted,
}
use ikigai_core.Spaces.Doors.{Bound, Answers, resolve-Answers}
use ikigai_core.Spaces.Sealed.{Legitimate, host_answer, resolve_in-Legitimate}
use ikigai_core.Spaces.Sources.{Agrees, sources, spaces_of, first_hit}
use ikigai_core.Spaces.Order.{resolve_in-consulted}
use ikigai_core.Spaces.Stacking.{Step, severed_here, confined_to, build, stack-build, build-IsScope}

abbrev bind_one : Str → ℕ → Space
bind_one name n = endpoints ((exact_name (record { text = name }), door n) ∷ []) none

-- A module that seals its own names.
abbrev module_space : Space
module_space = level (codes "m") 1 (bind_one (codes "m:x") 2) (codes "m:" ∷ []) (some (codes "m:"))

abbrev root : Space
root = fallback (cons (bind_one (codes "a") 1) (cons module_space nil)) none

abbrev seals : Seals
seals = record {
  claims = (codes "urn:kernel:", core) ∷ (codes "m:", sealing_level (codes "m")) ∷ [];
  levels = (codes "m", 1) ∷ [];
  trivial = false;
}

abbrev answer : Resolved
answer = record {
  endpoint = door 2;
  bindings = [];
  canonical = none;
  answered_by = some (codes "m");
  levels =
      record {
        name = codes "m";
        serial = 1;
        inner = bind_one (codes "m:x") 2;
        seals = codes "m:" ∷ [];
        namespace = some (codes "m:");
      }
      ∷ [];
}

resolves : resolve root (codes "m:x") ≡ hit answer
unfolding resolve ikigai_core.Prelude.list_beq
resolves = refl

admitted_by_owner : resolve_in seals none root (codes "m:x") ≡ ok (hit answer)
unfolding resolve_in ikigai_core.Prelude.list_beq
admitted_by_owner = refl

-- A door outside the level answers for its name: the walk is a breach.
breach :
    resolve_in seals none (bind_one (codes "m:x") 3) (codes "m:x")
    ≡ err (record {
      name = codes "m:x";
      owner = sealing_level (codes "m");
      level = none;
      unregistered = false;
    })
unfolding resolve_in ikigai_core.Prelude.list_beq
breach = refl

-- A confined corridor is passed by for a sealed name, and asked for another.
abbrev confinement : List Step
confinement =
    confined_to
      (fallback (cons (bind_one (codes "m:x") 4) (cons (bind_one (codes "b") 5) nil)) none)
      (named (codes "c"))
    ∷ []

confined_sealed : resolve_in seals (build confinement none) root (codes "m:x") ≡ ok miss
unfolding resolve_in build ikigai_core.Spaces.Scope.zip
confined_sealed = refl

sealed_owner : owner_of seals (codes "m:x") ≡ some (sealing_level (codes "m"))
unfolding owner_of
sealed_owner = refl

no_limiter : is_limiter answer.endpoint ≡ false
unfolding is_limiter
no_limiter = refl

unsealed : sealed_by seals (codes "b") ≡ none
unfolding owner_of
unsealed = refl

resolve-Answers_example : Answers (Bound root) (codes "m:x") answer
resolve-Answers_example = resolve-Answers root (codes "m:x") answer resolves no_limiter

resolve_in-Legitimate_example :
    (host_answer none (codes "m:x") ≡ some answer) ⊎ Legitimate seals (codes "m:x") answer
resolve_in-Legitimate_example =
    resolve_in-Legitimate seals none root (codes "m:x") (sealing_level (codes "m")) answer refl
      sealed_owner no_limiter admitted_by_owner

resolve_in-consulted_example :
    (spaces_of (sources (build confinement none) root) ≡ consulted (build confinement none) root)
    × Agrees seals
        (codes "b")
        (first_hit (sources (build confinement none) root) (codes "b"))
        (resolve_in seals (build confinement none) root (codes "b"))
resolve_in-consulted_example =
    resolve_in-consulted seals (build confinement none) root (codes "b") (build-IsScope confinement)
      unsealed

stack-build_example :
    stack (build (severed_here ∷ []) none) (build confinement none)
    ≡ build confinement (build (severed_here ∷ []) none)
stack-build_example = stack-build confinement (build (severed_here ∷ []) none)
