-- ===== src/Content/Tests.antt =====
-- crates/ikigai-core/src/content_store.rs: a small store in use.
use ikigai_core.Prelude.{
  all, All, ltb, ◌++◌, map, ok, list_eq, ℕ, Str, codes, ◌==◌, nat_eq, ◌≡◌, ◌↔◌, ◌<◌, ◌≤◌, refl,
  true, false, List, [], ◌∷◌, Option, none, some, any, arith, is_some, if◌then◌else◌, u64_max,
  u64_mod, length,
}
use ikigai_core.HashMap.Totals.{total}
use ikigai_core.Repr.Content.{bytes}
use ikigai_core.Capability.Ops.{Capability, scoped_to, root_capability}
use ikigai_core.Capability.Principal.{spell}
use ikigai_core.Capability.Ops
use ikigai_core.Content
use ikigai_core.Content.Address.{parse, display}
use ikigai_core.Content.Address.Text.{parse-display}
use ikigai_core.Content.{State, Handle, principal, Entry, get, get_for}
use ikigai_core.Content.Addressed.{bytes_of}
use ikigai_core.Content.Histories.{World, Call, put, put_for, drop_at, clone_at, run}
use ikigai_core.Content.Readers.{names, reads, get_for-live, get-live, held_within}

abbrev parser : Str → Option Str
parser s = if any (λ c. c == 0x3a) s then none else some (codes "no scheme")

-- A hash that is good enough for three contents.
abbrev digest : Str → Str
digest b = b

abbrev alice : Capability
alice = record { kind = scoped_to (spell (codes "urn:example:alice") ∷ []) }

abbrev bob : Capability
bob = record { kind = scoped_to (spell (codes "urn:example:bob") ∷ []) }

-- Alice and the host deliver, Alice's handle is cloned, and the host's is dropped: it stands
-- behind the clone and the handle of Alice.
abbrev calls : List Call
calls = drop_at 2 ∷ clone_at 0 ∷ put_for alice (codes "hello") ∷ put (codes "hello") ∷ []

abbrev after : World
after = run digest parser 16 calls

alice_reads : get_for parser after.state (codes "hello") alice ≡ some (bytes (codes "hello"))
unfolding run get_for ikigai_core.HashMap.get ikigai_core.HashMap.insert
    ikigai_core.Prelude.list_beq ikigai_core.HashMap.modify ikigai_core.Capability.Ops.principal
    ikigai_core.Capability.Principal.single_principal ikigai_core.Capability.Scope.is_deny_scope
    ikigai_core.HashMap.remove ikigai_core.Capability.Ops.is_root ikigai_core.Capability.Ops.acts_as
alice_reads = refl

bob_does_not : get_for parser after.state (codes "hello") bob ≡ none
unfolding run get_for ikigai_core.HashMap.get ikigai_core.HashMap.insert
    ikigai_core.Prelude.list_beq ikigai_core.HashMap.modify ikigai_core.Capability.Ops.principal
    ikigai_core.Capability.Principal.single_principal ikigai_core.Capability.Scope.is_deny_scope
    ikigai_core.HashMap.remove ikigai_core.Capability.Ops.is_root ikigai_core.Capability.Ops.acts_as
bob_does_not = refl

bound : 16 < u64_max
bound = omega arith

few : length calls < u64_mod
few = omega arith

get_for-live_example :
    (is_some (get_for parser after.state (codes "hello") alice) ≡ true)
    ↔ (any (names (codes "hello") (reads parser alice)) after.live ≡ true)
get_for-live_example = get_for-live digest parser 16 calls bound few (codes "hello") alice

get-live_example :
    (is_some (get after.state (codes "hello")) ≡ true)
    ↔ (any (names (codes "hello") (λ _. true)) after.live ≡ true)
get-live_example = get-live digest parser 16 calls bound few (codes "hello")

held_within_example :
    (after.state.held ≡ total bytes_of after.state.entries) × (after.state.held ≤ 16)
held_within_example = held_within digest parser 16 calls bound few

-- The host has delivered the same bytes before.
abbrev put_once : List Call
put_once = put (codes "hello") ∷ []

abbrev alice_name : Str
alice_name = codes "urn:example:alice"

abbrev delivered : State
delivered =
    (Content.put_for parser digest 16 (run digest parser 16 put_once).state alice (codes "hello")).0

abbrev alice_handle : Handle
alice_handle = record { id = codes "hello"; holder = principal alice_name }

abbrev address : Str
address =
    0 ∷ 1 ∷ 2 ∷ 3 ∷ 4 ∷ 5 ∷ 6 ∷ 7 ∷ 8 ∷ 9 ∷ 10 ∷ 11 ∷ 12 ∷ 13 ∷ 14 ∷ 15 ∷ 16 ∷ 31 ∷ 32 ∷ 47 ∷ 48
    ∷ 63 ∷ 64 ∷ 127 ∷ 128 ∷ 160 ∷ 176 ∷ 192 ∷ 208 ∷ 224 ∷ 240 ∷ 255 ∷ []

all_bytes : (xs : List ℕ) → all (λ b. ltb b 256) xs ≡ true → All (λ b. b < 256) xs
all_bytes [] h = tt
all_bytes (x ∷ xs) h = (ground arith, all_bytes xs (ground arith))

parse-display_example : parse (display address) ≡ ok address
parse-display_example = parse-display address refl (all_bytes address refl)

abbrev zeros : List ℕ
zeros =
    0 ∷ 0 ∷ 0 ∷ 0 ∷ 0 ∷ 0 ∷ 0 ∷ 0 ∷ 0 ∷ 0 ∷ 0 ∷ 0 ∷ 0 ∷ 0 ∷ 0 ∷ 0 ∷ 0 ∷ 0 ∷ 0 ∷ 0 ∷ 0 ∷ 0 ∷ 0 ∷ 0
    ∷ 0 ∷ 0 ∷ 0 ∷ 0 ∷ 0 ∷ 0 ∷ 0 ∷ []

abbrev upper_case : Str
upper_case = codes "0F00000000000000000000000000000000000000000000000000000000000000"

-- Both texts are read.
upper_case_parses : parse (codes "b3:" ++ upper_case) ≡ ok (15 ∷ zeros)
unfolding parse
upper_case_parses = refl
