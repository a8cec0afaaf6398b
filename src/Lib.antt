-- ===== src/Lib.antt =====
-- ikigai-core, the resolution kernel of ikigai: its capabilities, the grammars of its names, the
-- rewriting and the resolution of names, its representation cache and its in-memory content store.
--
-- A request carries a capability, a set of scopes that can only be narrowed. An answer is a
-- representation: typed bytes, an expiry, and the golden threads it depends on. The kernel keeps
-- answers in a cache, under keys that the capability's fingerprint partitions. Cutting a thread
-- makes every answer stale that depends on it, also one that was being computed at the time.
-- Bodies that travel by their content address are held in a content store while a handle lives,
-- and read through the principal that a capability names.
--
-- The files, and the code that they model:
--   Capability   crates/ikigai-core/src/capability.rs, and `cap_satisfies` of select.rs. Scope is the
--                syntax of a scope (`is_deny_scope`, `is_word`), Principal the scopes that name a
--                principal (`check_principal` to `at_most_one_principal`), Ops the operations.
--                WellFormed, Minting, Narrowing, Identity, Clamping, Families: their theorems.
--   Repr         crates/ikigai-core/src/repr.rs; Repr/Lifetime its `Time` and `Expiry`, and
--                Repr/Content the bodies of body.rs.
--   Cache        crates/ikigai-core/src/cache.rs. Entry: keys, entries, failures and facts. Policy: the
--                trait `CachePolicy`, `Lru`, `Fifo`, `CostAware`, and in its children
--                `Sketch`, `ScanResistant` and `Partitioned`. State: `CacheState`, cuts and the race
--                check. Dependents: what a cut tells its listeners. Answer and Serve: the reads and
--                `ReprCache`. Store: `store_outcome` and `enforce_bound`. Failure: `store_failure` and `get_failure`. History: a cache as the
--                result of calls. CutLog: the bounded log against all cuts. Fresh: what is
--                served, beside the history. Bound: the bound of entries and bytes.
--   Content      crates/ikigai-core/src/content_store.rs. Histories: a store and its live handles.
--                Address: the text of an address, in crates/ikigai-core/src/content.rs. Delivery: `put_for`
--                and then `get_for`.
--                Holders, Held, Steps, Dropping: the counts of handles. Addressed: what stands under an address. Live, Readers: who reads.
--   Alias        crates/ikigai-core/src/alias.rs. Table: the rules, their order and one rewrite. Walk:
--                `walk`, with the counters. Chain: a walk against the chains that a table allows.
--                Order, Counters: the order of the rules, and what a walk counts.
--   Run          crates/ikigai-core/src/run.rs. Limits: what a capability is entitled to, and Attenuating
--                that narrowing lowers it. Pools: cells of counters and the pools over them. Taking,
--                Narrowed: `try_take` and `narrowed`. Reservations, Budgets: reservations, and pools as
--                the result of calls. Totals, Conserved, Accounts: what each cell was given.
--                Contexts, Admitted: `IssueContext` and its admission.
--   Media        crates/ikigai-core/src/media.rs; Symmetry its comparison from either side.
--   Verb         crates/ikigai-core/src/verb.rs.
--   Grammar      crates/ikigai-core/src/grammar.rs. Bindings, Template: templates, their parser and their
--                expansions. Search: `match_from` and `match_with_empty`. Reference: a matcher with no
--                positions. Slices, Agreement, Occurrences, Matching: the search against it.
--                Parsing, Encoding, Expansion: the parser, encoded values, and the round trips.
--   Spaces       crates/ikigai-core/src/space.rs and seal.rs. Tree: spaces and their resolution. Seals:
--                the table of sealed names. Scope: chains, `resolve_in`, `stack`. Doors, Sealed, Sources, Order,
--                Stacking: which door answers, who answers a sealed name, in which order spaces are
--                asked, and chains stacked on one another.
--   HashMap, TreeSet   association lists and ordered lists in the place of the library's tables.
--   Prelude      shared names: numbers of 64 bits, texts as bytes, results, equality.
--
-- How the code is represented. A text is the list of its bytes, and in Grammar, Alias, Spaces and Media of its characters. `usize` and `u64` have 64 bits: `+`
-- wraps as in a release build, and saturating operations saturate. A method that changes the cache
-- or the store returns it beside its answer. A lock is held for the whole of a method, so that a
-- method is one step, and concurrent callers are histories of steps in any order. A snapshot is
-- any number that a caller hands in, so a store may follow any cuts. A hash table is a list of
-- pairs, whose order stands for the order in which the table happens to be iterated. A shared counter of a pool is a cell with a number, and a
-- pool names its cell and the pools above it. A policy is a
-- record of functions over what it keeps between calls. The cache's errors are any type.
--
-- Parameters. `oxiri`, behind `Iri::parse`, is any function from a text to the detail of a refusal.
-- `digest`, behind `ContentId::of`, is any function from bytes to an address. A theorem that needs the bytes at hand
-- to be the only ones of their digest, as is expected of BLAKE3, has that as a hypothesis.
--
-- Bounds and fuel. The loop of `enforce_bound` runs on a round for each entry and one more, since
-- every round but the last removes an entry. A history is shorter than 2^64 calls, so that no counter
-- of cuts or handles wraps. The search of a template runs on the length of the input, and its parser on
-- the length of the source, since each round takes a character at least. A walk over a table of rewrites runs on the table's own budget of hops. For the bound of bytes, a cache's limit is at most half of the largest
-- size, and a store's limit is below the largest size, so that sums do not saturate.
--
-- Not modelled: the kernel's dispatch, the enumeration of spaces, selection but for `cap_satisfies`, the
-- views of the cache by rows and as graphs, streams, configuration and serialization. The text of
-- errors is left out.
pub mod Prelude
pub mod TreeSet
pub mod Capability
pub mod Alias
pub mod Grammar
pub mod HashMap
pub mod Media
pub mod Repr
pub mod Run
pub mod Spaces
pub mod Verb
pub mod Cache
pub mod Content
