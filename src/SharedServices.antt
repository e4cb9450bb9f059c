-- ===== src/SharedServices.antt =====
use ackinacki.Types.{BlockIdentifier, ThreadIdentifier}
use ackinacki.Common.Assoc.{Assoc, insert}
use ackinacki.FixedSize.Members.{FixedSizeHashSet, contains_member, insert_member}
use ackinacki.LoadBalancing.Aggregated.{BlockLoad}
use ackinacki.LoadBalancing.Service.{LoadBalancingService, ThreadsTable}
use ackinacki.LoadBalancing.Threads.{load_subscriber, load_block_finalized}
use ackinacki.ThreadsTracking.{Subscriber, both, track_block_finalized}
use mathlib.Core.Option
use ackinacki.Common.{
  ◌==◌, not, if◌then◌else◌, filter, ◌++◌, arith, Option, List, some, none, ◌∷◌, [], nat_eq,
}
-- node/src/node/shared_services.rs: what a finalized block does to the services that the threads of a node
-- share. Of the router, in node/src/multithreading/routing/service.rs, the commands that it was sent.
mod Examples
pub mod Finalized

-- `Command::StartThread`
abbrev pub Command : Type 0
Command = ThreadIdentifier × BlockIdentifier

pub router_start_thread :
    BlockIdentifier → ThreadIdentifier → Option ThreadsTable → List Command → List Command
router_start_thread block thread table sent = sent ++ ((thread, block) ∷ [])

pub router_subscriber : Subscriber (List Command)
unfolding router_start_thread
router_subscriber = record {
  handle_start_thread = router_start_thread;
  handle_stop_thread = λ block thread sent. sent;
}

-- node/src/multithreading/thread_synchrinization_service.rs
abbrev pub ThreadSyncService : Type 0
ThreadSyncService = Assoc ThreadIdentifier BlockIdentifier

pub sync_block_finalized :
    BlockIdentifier → ThreadIdentifier → ThreadSyncService → ThreadSyncService
sync_block_finalized block thread last_finalized_blocks = insert thread block last_finalized_blocks

pub list_blocks_sending_messages_to_thread :
    ThreadIdentifier → ThreadSyncService → List (ThreadIdentifier × BlockIdentifier)
list_blocks_sending_messages_to_thread thread last_finalized_blocks =
    filter (λ entry. not (entry.0 == thread)) last_finalized_blocks

pub record Container : Type 0 where
  pub thread_sync : ThreadSyncService
  pub load_balancing : LoadBalancingService
  pub router : List Command
  pub finalized_blocks : FixedSizeHashSet BlockIdentifier

-- What is read of a block and of the state after it.
pub record FinalizedBlock : Type 0 where
  pub block_identifier : BlockIdentifier
  pub thread_identifier : ThreadIdentifier
  pub produced_threads_table : ThreadsTable
  pub changed_threads_table : Option ThreadsTable
  pub load : BlockLoad

-- The calls of the services, for a block that was not handled before.
pub handle_services : Container → FinalizedBlock → Option Container
unfolding sync_block_finalized
handle_services c b =
    let synced = sync_block_finalized b.block_identifier b.thread_identifier c.thread_sync in
    let (router, load_balancing) =
      track_block_finalized (both router_subscriber load_subscriber) b.block_identifier
        b.thread_identifier b.produced_threads_table (c.router, c.load_balancing) in
    Option.map (λ loads. record c { thread_sync = synced; router = router; load_balancing = loads })
      (load_block_finalized b.block_identifier b.thread_identifier b.changed_threads_table b.load
        load_balancing)

pub handle_new_block :
    Container → FinalizedBlock → Option (FixedSizeHashSet BlockIdentifier) → Option Container
unfolding handle_services
handle_new_block c b none = none
handle_new_block c b (some handled) = handle_services (record c { finalized_blocks = handled }) b

-- `none` is a panic.
unfoldable pub on_block_finalized : Container → FinalizedBlock → Option Container
unfolding handle_new_block
on_block_finalized c b =
    if contains_member c.finalized_blocks b.block_identifier
    then some c
    else handle_new_block c b (insert_member c.finalized_blocks b.block_identifier)
