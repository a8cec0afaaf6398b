-- ===== src/Run/Attenuating.antt =====
-- crates/ikigai-core/src/run.rs: what an attenuated capability is entitled to.
use ikigai_core.Capability.Narrowing.{allows-attenuate}
use ikigai_core.Capability.WellFormed.{IsWellFormed}
use ikigai_core.Capability.Ops.{
  allowed, attenuated, scoped_to, Kind, allows, attenuate, scopes, Capability,
}
use ikigai_core.Run.Limits.{
  spill_family, memory_family, trim_end_matches, largest, retry_family, grant_of, Limits, spill_for,
  largest_grant, granted, memory_for, retries_for, entitled,
}
use ikigai_core.TreeSet.{collect, contains, TreeSet}
use ikigai_core.TreeSet.Sorted.{IsSorted}
use ikigai_core.Capability.Ops.{root, scoped_to}
use ikigai_core.Run.Limits.{spill_family}
use ikigai_core.Prelude.{
  subst, ℕ, ◌^◌, ◌≤◌, Str, nat_eq, list_eq, option_eq, eq_cases, eq_refl, ◌≡◌, inl, inr, true,
  false, List, [], ◌∷◌, Option, none, some, if◌then◌else◌, arith, Bool-cases, Option-cases,
}

module _ (oxiri : Str → Option Str) (bound : ℕ) where
  -- A held scope that is allowed counts with the number it grants.
  grant_counts :
      (prefix : Str) (c : Capability) (held : List Str) (k : Str) (n : ℕ)
      → contains held k ≡ true
      → allows oxiri c k ≡ true
      → grant_of bound prefix k ≡ some n
      → n ≤ largest (granted oxiri bound prefix c held)
  unfolding contains granted
  grant_counts prefix c [] k n h a g = ground arith
  grant_counts prefix c (x ∷ held) k n h a g = elim (eq_cases k x) [
    | inl e ↦
        let allowed_here = subst (λ z. allows oxiri c z ≡ true) e.0 a in
        let grants_here = subst (λ z. grant_of bound prefix z ≡ some n) e.0 g in
        rw (allowed_here, grants_here) (omega arith)
    | inr e ↦
        let within : n ≤ largest (granted oxiri bound prefix c held) =
          grant_counts prefix c held k n (ground (arith, e, h)) a g in
        elim (allows oxiri c x)
          as (λ b.
            n
            ≤ largest (
                if b
                then elim (grant_of bound prefix x) [
                  | none ↦ granted oxiri bound prefix c held
                  | some m ↦ m ∷ granted oxiri bound prefix c held
                ]
                else granted oxiri bound prefix c held)) [
                  | true ↦
                      elim (grant_of bound prefix x)
                        as (λ o.
                          n
                          ≤ largest (elim o [
                            | none ↦ granted oxiri bound prefix c held
                            | some m ↦ m ∷ granted oxiri bound prefix c held
                          ])) [ none ↦ within | some m ↦ omega (arith, within) ]
                  | false ↦ within
                ]
  ]

  -- A number that each of them is at most bounds the largest.
  largest_bounded :
      (prefix : Str) (c : Capability) (held : List Str) (m : ℕ)
      → ((k : Str) (n : ℕ)
          → contains held k ≡ true
          → allows oxiri c k ≡ true
          → grant_of bound prefix k ≡ some n
          → n ≤ m)
      → largest (granted oxiri bound prefix c held) ≤ m
  unfolding contains granted
  largest_bounded prefix c [] m h = omega arith
  largest_bounded prefix c (x ∷ held) m h =
      let within = largest_bounded prefix c held m λ k n i a g. h k n (ground (arith, i)) a g in
      elim (Bool-cases (allows oxiri c x)) [
        | inl a ↦ elim (Option-cases (grant_of bound prefix x)) [
          | inl g ↦ rw (a, g) within
          | inr (n, g) ↦
              let here : n ≤ m = h x n (ground (arith, eq_refl x)) a g in
              rw (a, g) (omega (arith, here, within))
        ]
        | inr a ↦ rw a within
      ]

  largest-attenuated :
      (prefix : Str) (h : TreeSet) (ks : List Str)
      → IsSorted h
      → largest (
          granted oxiri bound prefix
            (attenuate oxiri (record { kind = scoped_to h }) ks)
            (attenuated oxiri h (collect ks)))
        ≤ largest (granted oxiri bound prefix (record { kind = scoped_to h }) h)
  largest-attenuated prefix h ks s =
      largest_bounded prefix (attenuate oxiri (record { kind = scoped_to h }) ks)
        (attenuated oxiri h (collect ks))
        (largest (granted oxiri bound prefix (record { kind = scoped_to h }) h))
        λ k n i a g.
          let before : allows oxiri (record { kind = scoped_to h }) k ≡ true =
            ground (arith, a, allows-attenuate oxiri h ks k s) in
          let held : contains h k ≡ true = unfold allows allowed in ground (arith, before) in
          grant_counts prefix (record { kind = scoped_to h }) h k n held before g

  entitled-attenuate :
      (l : Limits) (family : Str) (kind : Kind) (ks : List Str)
      → IsWellFormed (record { kind = kind })
      → entitled l (largest_grant oxiri bound (attenuate oxiri (record { kind = kind }) ks) family)
        ≤ entitled l (largest_grant oxiri bound (record { kind = kind }) family)
  unfolding entitled largest_grant scopes attenuate
  entitled-attenuate l family root ks w = omega arith
  entitled-attenuate l family (scoped_to h) ks w =
      omega (arith, largest-attenuated (trim_end_matches 0x2a family) h ks w)

-- Attenuation raises none of the three budgets that a capability is entitled to: the retries, the
-- bytes to buffer and the bytes to spill.
pub for_capability-attenuate :
    (oxiri : Str → Option Str) (retry memory spill : Limits) (c : Capability) (ks : List Str)
    → IsWellFormed c
    → (retries_for oxiri retry (attenuate oxiri c ks) ≤ retries_for oxiri retry c)
      × (memory_for oxiri memory (attenuate oxiri c ks) ≤ memory_for oxiri memory c)
      × (spill_for oxiri spill (attenuate oxiri c ks) ≤ spill_for oxiri spill c)
unfolding retries_for memory_for spill_for
for_capability-attenuate oxiri retry memory spill c ks w = (
  entitled-attenuate oxiri (2 ^ 32) retry retry_family c.kind ks w,
  entitled-attenuate oxiri (2 ^ 64) memory memory_family c.kind ks w,
  entitled-attenuate oxiri (2 ^ 64) spill spill_family c.kind ks w,
)
