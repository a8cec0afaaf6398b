-- ===== src/Capability/Tests.antt =====
-- crates/ikigai-core/src/capability.rs: capabilities as a door makes them.
use ikigai_core.Prelude.{
  ℕ, Str, codes, ◌==◌, nat_eq, list_eq, option_eq, ◌≡◌, ◌↔◌, refl, true, false, ◌&&◌, ◌||◌, List,
  [], ◌∷◌, ◌++◌, Option, none, some, ok, err, any, starts_with, if◌then◌else◌,
}
use ikigai_core.TreeSet.{TreeSet, contains, collect}
use ikigai_core.TreeSet.Sorted.{IsSorted}
use ikigai_core.Capability.Scope.{is_deny_scope}
use ikigai_core.Capability.Principal.{PrincipalError, check_principal, spell}
use ikigai_core.Capability.Ops.{
  root, Capability, scoped_to, scoped, attenuate, attenuated, clamp, principal, with_principal,
  allows, satisfies, minted, strip_star,
}
use ikigai_core.Capability.WellFormed.{scoped-IsWellFormed}
use ikigai_core.Capability.Minting.{under_prefix, principal-with_principal}
use ikigai_core.Capability.Narrowing.{allows-attenuate, exclusions-attenuate}
use ikigai_core.Capability.Identity.{left_of, principal-attenuate, principal-clamp}
use ikigai_core.Capability.Clamping.{lets_through, allows-clamp}
use ikigai_core.Capability.Families.{satisfies-attenuate_exclusion}

-- A parser that wants a colon.
abbrev parser : Str → Option Str
parser s = if any (λ c. c == 0x3a) s then none else some (codes "no scheme")

abbrev alice : Str
alice = codes "urn:example:alice"

abbrev read_scope : Str
read_scope = codes "urn:cap:read"

abbrev write_scope : Str
write_scope = codes "urn:cap:write"

abbrev no_secrets : Str
no_secrets = codes "urn:cap:graph:-secrets"

-- The principal of Alice, then a grant.
abbrev session : TreeSet
session = spell alice ∷ read_scope ∷ []

abbrev session_capability : Capability
session_capability = record { kind = scoped_to session }

session-IsSorted : IsSorted session
unfolding collect scoped ikigai_core.Prelude.str_cmp
session-IsSorted = scoped-IsWellFormed (read_scope ∷ spell alice ∷ [])

plain-IsSorted : IsSorted (read_scope ∷ [])
unfolding collect scoped
plain-IsSorted = scoped-IsWellFormed (read_scope ∷ [])

clamp_run :
    clamp parser session_capability (record { kind = scoped_to (write_scope ∷ read_scope ∷ []) })
    ≡ session_capability
unfolding clamp ikigai_core.Capability.Principal.single_principal is_deny_scope
    ikigai_core.Prelude.str_cmp ikigai_core.Prelude.list_beq
clamp_run = refl

principal-clamp_example :
    principal parser
      (clamp parser session_capability (record { kind = scoped_to (read_scope ∷ []) }))
    ≡ principal parser session_capability
principal-clamp_example =
    principal-clamp parser session (record { kind = scoped_to (read_scope ∷ []) }) session-IsSorted

allows-attenuate_example :
    allows parser (attenuate parser session_capability (read_scope ∷ write_scope ∷ [])) write_scope
    ≡ (allows parser session_capability write_scope
        && contains (read_scope ∷ write_scope ∷ []) write_scope)
allows-attenuate_example =
    allows-attenuate parser session (read_scope ∷ write_scope ∷ []) write_scope session-IsSorted

principal-attenuate_example :
    principal parser (attenuate parser session_capability (read_scope ∷ []))
    ≡ left_of parser (scoped_to session) (collect (read_scope ∷ []))
principal-attenuate_example =
    principal-attenuate parser session_capability (read_scope ∷ []) session-IsSorted

-- Root attenuated to the scope of a principal acts as that principal.
root_named :
    principal parser (attenuate parser (record { kind = root }) (spell alice ∷ [])) ≡ some alice
unfolding principal attenuate ikigai_core.Capability.Principal.single_principal
    ikigai_core.Capability.Principal.at_most_one_principal is_deny_scope
root_named = refl

minted_session :
    with_principal parser (record { kind = scoped_to (read_scope ∷ []) }) alice
    ≡ ok (record { kind = scoped_to (minted (read_scope ∷ []) (spell alice)) })
unfolding with_principal ikigai_core.Capability.Principal.principal_scope is_deny_scope
minted_session = refl

principal-with_principal_example :
    (principal parser (record { kind = scoped_to (minted (read_scope ∷ []) (spell alice)) })
      ≡ some alice)
    × ((k : Str)
        → under_prefix k ≡ false
        → allows parser (record { kind = scoped_to (minted (read_scope ∷ []) (spell alice)) }) k
          ≡ allows parser (record { kind = scoped_to (read_scope ∷ []) }) k)
principal-with_principal_example =
    principal-with_principal parser (read_scope ∷ []) alice
      (record { kind = scoped_to (minted (read_scope ∷ []) (spell alice)) }) plain-IsSorted
      minted_session

no_secrets_denies : is_deny_scope no_secrets ≡ true
unfolding is_deny_scope
no_secrets_denies = refl

exclusions-attenuate_example :
    contains (attenuated parser session (collect (no_secrets ∷ []))) no_secrets
    ≡ (contains session no_secrets || contains (no_secrets ∷ []) no_secrets)
exclusions-attenuate_example =
    exclusions-attenuate parser session (no_secrets ∷ []) no_secrets no_secrets_denies

write_is_plain : strip_star write_scope ≡ none
unfolding strip_star
write_is_plain = refl

names_secrets : contains (no_secrets ∷ []) no_secrets ≡ true
unfolding contains ikigai_core.Prelude.list_beq
names_secrets = refl

under_graph : starts_with (codes "urn:cap:graph:") no_secrets ≡ true
unfolding starts_with
under_graph = refl

satisfies-attenuate_exclusion_example :
    satisfies parser
      (attenuate parser session_capability (no_secrets ∷ []))
      (codes "urn:cap:graph:" ++ codes "*")
    ≡ true
satisfies-attenuate_exclusion_example =
    satisfies-attenuate_exclusion parser session (no_secrets ∷ []) (codes "urn:cap:graph:")
      no_secrets no_secrets_denies names_secrets under_graph

-- The session held nothing under that family.
before_exclusion : satisfies parser session_capability (codes "urn:cap:graph:" ++ codes "*") ≡ false
unfolding satisfies
before_exclusion = refl

-- A client that carries the name of Bob, and a grant that the session has.
abbrev carried : Capability
carried = record { kind = scoped_to (spell (codes "urn:example:bob") ∷ read_scope ∷ []) }

allows-clamp_example : allows parser (clamp parser session_capability carried) (spell alice) ≡ (
    allows parser session_capability (spell alice)
    && lets_through parser carried.kind (spell alice))
allows-clamp_example = allows-clamp parser session carried (spell alice) session-IsSorted
