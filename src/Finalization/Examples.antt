-- ===== src/Finalization/Examples.antt =====
use mathlib.Core.Option
use ackinacki.LoadBalancing.Aggregated.{slide_value, usize_add, usize_sub}
use ackinacki.LoadBalancing.Accounts.{add_in_place, all_counters, i64_add, sub_in_place, i64_sub}
use ackinacki.BlockState.{set_finalized}
use ackinacki.Common.Assoc.{insert}
use ackinacki.BlockState.{known_children_of}
use ackinacki.ThreadsTracking.{track_block_finalized}
use ackinacki.LoadBalancing.Aggregated.{append_from}
use ackinacki.LoadBalancing.Threads.{load_append}
use ackinacki.LoadBalancing.Threads.{spawned_threads_by}
use ackinacki.LoadBalancing.Threads.{load_block_finalized}
use ackinacki.FixedSize.Members.{contains_member}
use ackinacki.FixedSize.Members.{insert_member}
use ackinacki.Finalization.Safety.{try_finalize-invalidates_none, try_finalize-WasReady}
use ackinacki.Finalization.Visits.{WasReady, IsKeyed}
use ackinacki.FixedSize.Members.{new_set}
use ackinacki.Branches.Closure.{invalid, final, IsCovered}
use ackinacki.Branches.{all_children, state_of}
use ackinacki.Common.Assoc.{get}
use ackinacki.Finalization.{Node}
use ackinacki.Finalization.Trying.{sort_by_seq_no, try_finalize}
use ackinacki.Types.{BlockSeqNo, BlockIdentifier}
use ackinacki.LoadBalancing.Aggregated.{new_load}
use ackinacki.Common.{
  nat_eq, ◌<◌, contains, ◌⊎◌, refl, arith, ◌≡◌, ℕ, Option, List, Bool, true, some, none, ◌∷◌, [],
}
use ackinacki.Routing.Address.{routing_default}
use ackinacki.SharedServices.{on_block_finalized, Container, FinalizedBlock}
use ackinacki.BlockState.{AckiNackiBlockState, new, can_be_finalized}

-- A call of try_finalize at a concrete node. Block 4 is tried; its parent 3 finalizes block 2. Block 7 is
-- another candidate at the number of block 2.
abbrev services : Container
services = record {
  thread_sync = [];
  load_balancing = record {
    thread_load_map = (5, new_load 2) ∷ [];
    window_size = 2;
    load_threshold = 5000;
  };
  router = [];
  finalized_blocks = new_set 3;
}

abbrev candidate : BlockIdentifier → FinalizedBlock
candidate b = record {
  block_identifier = b;
  thread_identifier = 5;
  produced_threads_table = record {
    masks =
        (record { mask_bits = routing_default; meaningful_mask_bits = routing_default }, 5) ∷ [];
  };
  changed_threads_table = none;
  load = record { queue_length = 40; dapp_id_table = []; in_messages = [] };
}

abbrev numbered : BlockIdentifier → BlockIdentifier → BlockSeqNo → AckiNackiBlockState
numbered b parent n = record (new b) {
  block_seq_no = some n;
  parent_block_identifier = some parent;
  has_cross_thread_ref_data_prepared = some true;
}

abbrev attested : AckiNackiBlockState
attested = record (numbered 2 1 2) {
  block_height = some (record { thread_identifier = 5; height = 2 });
  attestation_target = some (record {
    primary = record { generation_deadline = 3; required_attestation_count = 2 };
    fallback = record { generation_deadline = 5; required_attestation_count = 2 };
  });
  signatures_verified = some true;
  applied = some true;
  has_parent_finalized = some true;
  has_all_cross_thread_ref_data_available = some true;
}

abbrev node : Node ℕ
node = record {
  block_states =
      (2, attested)
      ∷ ((3, record (numbered 3 2 3) { finalizes_blocks = some (2 ∷ []) })
          ∷ ((4, numbered 4 3 4) ∷ ((7, numbered 7 1 2) ∷ [])));
  unprocessed_blocks =
      (2, candidate 2) ∷ ((7, candidate 7) ∷ ((3, candidate 3) ∷ ((4, candidate 4) ∷ [])));
  shared_services = services;
  last_block_attestations = record {
    compacted_unverified_attestations = [];
    folded_attestations = [];
    cutoff = 0;
    notifications = 0;
  };
  last_finalized = (5, (1, 1)) ∷ [];
  raw_blocks = [];
}

abbrev saves : BlockIdentifier → Bool
saves b = true

abbrev node_of : Option (Node ℕ × Option ℕ) → Node ℕ
node_of none = node
node_of (some (next, border)) = next

abbrev next : Node ℕ
next = node_of (try_finalize saves 4 4 node)

runs : try_finalize saves 4 4 node ≡ some (next, some 10)
unfolding try_finalize state_of sort_by_seq_no can_be_finalized get new on_block_finalized new_set
    insert_member contains_member load_block_finalized spawned_threads_by load_append append_from
    track_block_finalized new_load known_children_of insert set_finalized slide_value Option.bind
    usize_add usize_sub add_in_place all_counters i64_add sub_in_place i64_sub
runs = refl

keyed : IsKeyed node.unprocessed_blocks
unfolding get
keyed b block h = ground (arith, h)

covered : IsCovered [] node.block_states
unfolding state_of get new all_children
covered b c is_invalid here = ground (arith, here, is_invalid)

try_finalize-WasReady_example :
    IsCovered [] next.block_states
    × ((b : BlockIdentifier) → final node.block_states b ≡ true → final next.block_states b ≡ true)
    × ((b : BlockIdentifier)
        → final next.block_states b ≡ true
        → (final node.block_states b ≡ true)
          ⊎ ((parent : BlockIdentifier) × (ids : List BlockIdentifier) × ((state_of
                  node.block_states 4).parent_block_identifier
                ≡ some parent)
              × ((state_of node.block_states parent).finalizes_blocks ≡ some ids)
              × WasReady saves node ids b))
try_finalize-WasReady_example =
    try_finalize-WasReady saves 4 4 node next (some 10) keyed covered runs

parent_of_tried : (state_of node.block_states 4).parent_block_identifier ≡ some 3
unfolding state_of get
parent_of_tried = refl

listed : (state_of node.block_states 3).finalizes_blocks ≡ some (2 ∷ [])
unfolding state_of get
listed = refl

above :
    (b : BlockIdentifier) (n m : BlockSeqNo)
    → (state_of node.block_states 4).block_seq_no ≡ some n
    → contains b (2 ∷ []) ≡ true
    → (state_of node.block_states b).block_seq_no ≡ some m
    → m < n
unfolding state_of get new
above b n m tried_number here number = ground (arith, tried_number, here, number)

-- Block 7 stays valid, though block 2 of its number was finalized.
try_finalize-invalidates_none_example : invalid next.block_states 7 ≡ invalid node.block_states 7
try_finalize-invalidates_none_example =
    try_finalize-invalidates_none saves 4 4 node next (some 10) 3 (2 ∷ []) keyed parent_of_tried
      listed above runs 7
