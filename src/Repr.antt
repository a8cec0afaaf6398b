-- ===== src/Repr.antt =====
-- crates/ikigai-core/src/repr.rs: representations, their expiry and the golden threads they
-- depend on.
pub mod Content
pub mod Lifetime
use ikigai_core.Prelude.{
  ℕ, Str, Bool, true, false, not, ◌||◌, List, [], ◌∷◌, Option, none, some, if◌then◌else◌, is_some,
}
use ikigai_core.TreeSet.{TreeSet, insert}
use ikigai_core.Repr.Content.{Body, bytes, as_bytes, share_body}
use ikigai_core.Repr.Lifetime.{Time, Expiry, at, always, never}

-- `Thread`: a golden thread is its name.
abbrev pub Thread : Type 0
Thread = Str

pub record ReprType : Type 0 where
  pub media_type : Str
  -- in the order of the names, as a `BTreeMap` is
  pub params : List (Str × Str)

pub data UncachedReason : Type 0 where
  declared mounted : UncachedReason

pub record Provenance : Type 0 where
  pub expiry : Expiry
  pub threads : TreeSet

pub record OriginValidator : Type 0 where
  pub etag : Option Str
  pub last_modified : Option Str

pub record Stale : Type 0 where
  pub validator : OriginValidator
  pub repr_type : ReprType

pub record Origin : Type 0 where
  pub validator : Option OriginValidator
  pub revalidated : Bool

pub record Facts : Type 0 where
  pub threads : TreeSet
  pub origin : Origin
  pub uncached_reason : Option UncachedReason

pub record Representation (B : Type 0) : Type 0 where
  pub repr_type : ReprType
  pub content : B
  pub expiry : Expiry
  pub facts : Option Facts

abbrev pub no_facts : Facts
no_facts = record {
  threads = [];
  origin = record { validator = none; revalidated = false };
  uncached_reason = none;
}

-- What `with_threads` keeps beside the threads it is given.
abbrev pub rest_is_empty : Facts → Bool
rest_is_empty f =
    not (is_some f.origin.validator || f.origin.revalidated || is_some f.uncached_reason)

module _ {B : Type 0} where
  -- `Representation::threads`
  unfoldable pub threads : Representation B → TreeSet
  threads r = elim r.facts [ none ↦ [] | some f ↦ f.threads ]

  unfoldable pub origin_validator : Representation B → Option OriginValidator
  origin_validator r = elim r.facts [ none ↦ none | some f ↦ f.origin.validator ]

  -- `facts.get_or_insert_with(Default::default)`
  abbrev pub facts_or_default : Representation B → Facts
  facts_or_default r = elim r.facts [ none ↦ no_facts | some f ↦ f ]

  unfoldable pub depends_on : Representation B → Thread → Representation B
  unfolding insert
  depends_on r t =
      let f = facts_or_default r in
      record r { facts = some (record f { threads = insert t f.threads }) }

  unfoldable pub validated_by : Representation B → OriginValidator → Representation B
  validated_by r v =
      let f = facts_or_default r in
      record r { facts = some (record f { origin = record f.origin { validator = some v } }) }

  unfoldable pub with_expiry : Representation B → Expiry → Representation B
  with_expiry r e = record r { expiry = e }

  unfoldable pub with_threads : Representation B → TreeSet → Representation B
  with_threads r [] =
      let f = facts_or_default r in
      record r { facts = if rest_is_empty f then none else some (record f { threads = [] }) }
  with_threads r (t ∷ ts) = record r {
    facts = some (record (facts_or_default r) { threads = t ∷ ts });
  }

-- `Representation::copied`: a buffer of its own, if the body is in memory.
unfoldable pub copied : Representation Body → Option (Representation Str)
unfolding as_bytes
copied r = elim (as_bytes r.content) [
  | none ↦ none
  | some b ↦
      some (record { repr_type = r.repr_type; content = b; expiry = r.expiry; facts = r.facts })
]

-- `Representation::share`: a second handle on the body, if it can be read again.
unfoldable pub share : Representation Body → Option (Representation Body)
unfolding share_body
share r = elim (share_body r.content) [ none ↦ none | some b ↦ some (record r { content = b }) ]

-- `Representation::into_body`
unfoldable pub into_body : Representation Str → Representation Body
into_body r = record {
  repr_type = r.repr_type;
  content = bytes r.content;
  expiry = r.expiry;
  facts = r.facts;
}
