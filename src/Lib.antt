-- ===== src/Lib.antt =====
-- The node of Acki Nacki: a model of how it decides that blocks are final, of the signatures and the
-- keepers that such decisions rest on, and of how accounts are routed to threads. All paths below
-- start at the root of the repository.
--
-- A block brings attestations of its ancestors. Each unfinalized ancestor has checkpoints: a distance
-- at which it must have collected enough attestations, by its primary or by its fallback target. A
-- block inherits the checkpoints of its parent one step further (`Inheritance`) and applies its
-- attestations to them (`Checkpoints`); the facts that the node learns about a block are in its state
-- (`BlockState`). Attestations arrive one by one, are kept until enough are there (`Collected`), and
-- are merged into one envelope (`Fold`) whose signatures are verified (`Envelope`) against the keys
-- of the block keepers (`BlockKeepers`), one of whom is the producer (`Producer`). The table that
-- tells the thread of an account is `Routing`.
--
-- A block finalizes ancestors of its child (`Finalization`); the unfinalized ancestors are found by a
-- walk back (`Ancestors`), and a block that can not become final is invalidated with all that
-- descends from it (`Branches`). When a block is final, `SharedServices` tells every service of it:
-- the threads that its table starts and stops are reported to the subscribers (`ThreadsTracking`),
-- and its load is added to the window of its thread (`LoadBalancing`), from which a producer later
-- decides whether to split its thread or to collapse it. `Statistics` keeps the distances at which
-- blocks became final.
--
-- Where each part stands:
--   Checkpoints: node/src/node/block_state/attestation_target_checkpoints.rs, with update, note,
--     complete and check under their names; `note` is the two halves `note_primary` and `note_fallback`.
--   Inheritance: inherit_ancestor_blocks_finalization_distances of the same file, and
--     node/src/node/services/attestations_target/service.rs.
--   BlockState: node/src/node/block_state/state.rs.
--   Ancestors: node/src/node/block_state/unfinalized_ancestor_blocks.rs.
--   Branches: node/src/node/block_state/tools/invalidate_branch.rs, with the lookup of repository.rs.
--   Finalization: node/src/node/services/finalization/mod.rs, whose on_block_finalized is
--     `finalize_block`, and a part of mark_block_as_finalized of node/src/repository/repository_impl.rs.
--   Collected: node/src/types/attestation/mod.rs; its `aggregate` is Collected/Aggregate.
--   Fold: node/src/types/attestation/fold.rs.
--   Envelope: node/src/bls/envelope.rs and the trait of node/src/bls/mod.rs.
--   BlockKeepers: node/src/block_keeper_system/mod.rs and bk_set.rs.
--   Producer: node/src/types/bp_selector.rs.
--   Identity: node/src/types/thread_identifier.rs, block_height.rs, block_index.rs, block_seq_no.rs.
--   ThreadRefs: node/src/multithreading/cross_thread_messaging/thread_references_state.rs; its
--     can_reference and move_refs are ThreadRefs/References.
--   FixedSize: node/src/utilities/fixed_size_hash_map.rs; fixed_size_hash_set.rs is FixedSize/Members.
--   LoadBalancing: node/src/multithreading/load_balancing_service. Accounts is in_thread_accounts_load.rs,
--     Aggregated is aggregated_thread_load.rs, Service is `check` of mod.rs with threads_split.rs and
--     threads_merge.rs, and Threads has the handlers of mod.rs. The features of the crate that they read
--     are the record `Features`.
--   ThreadsTracking: node/src/multithreading/threads_tracking_service; the macro for tuples of
--     subscribers is `both`.
--   SharedServices: node/src/node/shared_services.rs, with thread_synchrinization_service.rs and the
--     subscriber of routing/service.rs, all of node/src/multithreading for the latter two.
--   Statistics: node/src/node/services/statistics/median_descendants_chain_length_to_meet_threshold.rs.
--   Routing: node/src/bitmask/mask.rs and table.rs, node/src/types/threads_table.rs and
--   node/src/types/account_address.
--   Common has the shared tests, lists, maps, bits and results; the modules named Examples run the code
--   at concrete inputs.
--
-- How the code is read. A `HashMap` or `BTreeMap` is an association list, whose order stands for the
-- order in which the map is read; `IsMap` says that no key stands twice. A `HashSet` is a list. The
-- identifiers of blocks, threads, nodes and signers are numbers, since the code compares and hashes
-- them only. An address of 32 bytes is the number that they spell. An error is a value of `Result`
-- or `none`, and `none` is also a panic where a comment says so: both release profiles of Cargo.toml
-- have overflow-checks on, so a sum, a difference or a product that leaves its type panics in every
-- build. A counter of type i64 is its bit pattern, a number below 2 ^ 64. Counters that the code
-- wraps by itself have the remainder written out; indices and distances that count blocks or list
-- elements are numbers without a bound. An array of a fixed size is a function of its indices. The
-- loops are recursions on the lists that they read; the loops without such a list take the number of
-- their rounds, and a theorem says how many are enough. For the walks of ThreadRefs and of Ancestors
-- it is one round, or two rounds, more than the number of the first block, where parents have
-- smaller numbers (for Ancestors, the parents of blocks that are not final: the default block is its
-- own parent); for Branches it is the number of children that valid blocks have, and one; for the
-- query of ThreadRefs/References there is a number that is enough, where finitely many blocks can be
-- read.
--
-- What is a parameter: the BLS scheme, of which nothing is assumed, and the shuffle of the crate
-- rand, which is assumed to keep the length and the elements of a list; also what is read from the
-- repositories, and whether their files can be written. The theorems on loads take windows of at
-- most 2 ^ 10 blocks, with at most 2 ^ 52 queued and 2 ^ 20 inbound messages each, whose sums fit
-- the types of the code. Not modelled: locks, notifications and metrics, serialization, the network,
-- the virtual machine, and the services that call these parts.
mod Common
pub mod Types
pub mod Checkpoints
pub mod BlockState
pub mod Ancestors
pub mod Branches
pub mod Finalization
pub mod BlockKeepers
pub mod Envelope
pub mod Fold
pub mod Collected
pub mod Inheritance
pub mod LoadBalancing
pub mod Statistics
pub mod SharedServices
pub mod ThreadsTracking
pub mod Producer
pub mod FixedSize
pub mod Identity
pub mod ThreadRefs
pub mod Routing
