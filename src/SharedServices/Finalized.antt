-- ===== src/SharedServices/Finalized.antt =====
use mathlib.Core.List.{append_assoc, append-nil}
use ackinacki.Types.{BlockIdentifier, ThreadIdentifier}
use ackinacki.FixedSize.Members.{contains_member}
use ackinacki.FixedSize.Members.AsMap.{as_map, insert_member-contains_member}
use ackinacki.FixedSize.Queue.{IsFifo}
use ackinacki.LoadBalancing.Aggregated.Ready.{HasQueue}
use ackinacki.LoadBalancing.Service.{LoadBalancingService, ThreadsTable}
use ackinacki.LoadBalancing.Threads.{load_subscriber, load_block_finalized}
use ackinacki.LoadBalancing.Threads.Keys.{
  has_load, IsPrepared, has_load-track_block_finalized, track-IsPrepared,
  load_block_finalized-returns, load_block_finalized_missing,
}
use ackinacki.ThreadsTracking.{start_threads, list_threads, track_block_finalized}
use ackinacki.ThreadsTracking.Subscribers.{new_threads, track_block_finalized-both}
use ackinacki.SharedServices.{
  Command, sync_block_finalized, Container, FinalizedBlock, on_block_finalized, handle_new_block,
  handle_services, router_subscriber,
}
use mathlib.Core.Option
use ackinacki.Common.{
  map, ◌++◌, ==_refl, ◌||◌, contains, ◌<◌, inr, inl, Bool-cases, ◌∙◌, ap, sym, refl, arith, ◌≡◌,
  Option, List, Bool, false, true, some, none, ◌∷◌, [], nat_eq,
}

-- What on_block_finalized of shared_services.rs returns, and when it panics.

-- What the node keeps up between the blocks: the loads are windows of at most 2 ^ 10 entries, and the set
-- of handled blocks is a queue with room.
pub record IsRunning (c : Container) : Type 0 where
  pub prepared : IsPrepared c.load_balancing
  pub has_room : 0 < c.finalized_blocks.capacity
  pub is_fifo : IsFifo (as_map c.finalized_blocks)

module _ (c : Container) (b : FinalizedBlock) where
  -- The loads after the threads of the block were told to the subscribers.
  abbrev tracked : LoadBalancingService
  tracked =
      track_block_finalized load_subscriber b.block_identifier b.thread_identifier
        b.produced_threads_table c.load_balancing

  -- The thread of the block has a row in the table that the block leaves.
  abbrev pub alive : Bool
  alive = contains b.thread_identifier (list_threads b.produced_threads_table)

  -- The threads that have a load after the block.
  abbrev pub loaded_after : ThreadIdentifier → Bool
  loaded_after t =
      contains t (new_threads b.block_identifier b.produced_threads_table)
      || has_load c.load_balancing t

  abbrev finish : LoadBalancingService → Container
  finish loads = record c {
    thread_sync = sync_block_finalized b.block_identifier b.thread_identifier c.thread_sync;
    router =
        track_block_finalized router_subscriber b.block_identifier b.thread_identifier
          b.produced_threads_table c.router;
    load_balancing = loads;
  }

  abbrev counted : Option LoadBalancingService
  counted =
      load_block_finalized b.block_identifier b.thread_identifier b.changed_threads_table b.load
        tracked

  handle_services_lem : handle_services c b ≡ Option.map finish counted
  unfolding handle_services
  handle_services_lem =
      let apart =
        track_block_finalized-both router_subscriber load_subscriber b.block_identifier
          b.thread_identifier b.produced_threads_table c.router c.load_balancing in
      rw apart refl

  services_stopped : alive ≡ false → handle_services c b ≡ none
  services_stopped dead =
      let gone : has_load tracked b.thread_identifier ≡ false =
        has_load-track_block_finalized b.block_identifier b.thread_identifier b.thread_identifier
          b.produced_threads_table c.load_balancing
        ∙ rw (dead, ==_refl b.thread_identifier) refl in
      handle_services_lem
      ∙ ap (Option.map finish) (
          load_block_finalized_missing b.block_identifier b.thread_identifier
            b.changed_threads_table b.load tracked gone)

  services-returns :
      IsRunning c
      → HasQueue b.load
      → alive ≡ true
      → loaded_after b.thread_identifier ≡ true
      → (loads : LoadBalancingService) × (handle_services c b ≡ some (finish loads))
        × IsPrepared loads
        × ((t : ThreadIdentifier) → has_load loads t ≡ loaded_after t)
  services-returns h queue here loaded =
      let all = λ (t : ThreadIdentifier).
        has_load-track_block_finalized b.block_identifier b.thread_identifier t
          b.produced_threads_table c.load_balancing in
      let of_all = λ (t : ThreadIdentifier). rw here at (all t) in
      let prepared =
        track-IsPrepared b.block_identifier b.thread_identifier b.produced_threads_table
          c.load_balancing h.prepared in
      let (loads, made, is_prepared, same) =
        load_block_finalized-returns b.block_identifier b.thread_identifier b.changed_threads_table
          b.load tracked prepared queue (of_all b.thread_identifier ∙ loaded) in
      (
        loads,
        handle_services_lem ∙ ap (Option.map finish) made,
        is_prepared,
        λ t. same t ∙ of_all t,
      )

router_starts :
    (block : BlockIdentifier) (table : Option ThreadsTable) (threads : List ThreadIdentifier)
    (sent : List Command)
    → start_threads router_subscriber block table threads sent
      ≡ sent ++ map (λ t. (t, block)) threads
unfolding start_threads router_subscriber
router_starts block table [] sent = sym (append-nil sent)
router_starts block table (t ∷ threads) sent =
    router_starts block table threads (sent ++ ((t, block) ∷ []))
    ∙ append_assoc sent ((t, block) ∷ []) (map (λ t. (t, block)) threads)

router_tracks :
    (block : BlockIdentifier) (thread : ThreadIdentifier) (table : ThreadsTable)
    (sent : List Command)
    → track_block_finalized router_subscriber block thread table sent
      ≡ sent ++ map (λ t. (t, block)) (new_threads block table)
unfolding track_block_finalized router_subscriber
router_tracks block thread table sent =
    let started = router_starts block (some table) (new_threads block table) sent in
    elim (Bool-cases (contains thread (list_threads table))) [
      | inl here ↦ rw here started
      | inr dead ↦ rw dead started
    ]

-- Where the set of handled blocks has room and is a queue, a block that was not handled before and leaves a
-- table without its own thread panics: its thread loses
-- its load before the load of the block is added to it.
pub on_block_finalized_stopped :
    (c : Container) (b : FinalizedBlock)
    → 0 < c.finalized_blocks.capacity
    → IsFifo (as_map c.finalized_blocks)
    → contains_member c.finalized_blocks b.block_identifier ≡ false
    → alive c b ≡ false
    → on_block_finalized c b ≡ none
unfolding on_block_finalized handle_new_block
on_block_finalized_stopped c b has_room is_fifo fresh dead =
    let (handled, added, _, _, _) =
      insert_member-contains_member c.finalized_blocks b.block_identifier has_room is_fifo in
    rw fresh (
      rw (added, handle_new_block)
        (services_stopped (record c { finalized_blocks = handled }) b dead))

-- On a node whose loads are windows of at most 2 ^ 10 entries and whose set of handled blocks has room and is
-- a queue, a block with at most 2 ^ 52 messages in its queue and 2 ^ 20 inbound messages, that was not
-- handled before, whose thread stays in the table and had a load or was spawned by it, is handled without a
-- panic: the threads with a load are then those that had one and those that the block spawned, the router
-- is told to start just the spawned ones, the same holds of the node again, and the same block a second
-- time changes nothing.
pub on_block_finalized-loads :
    (c : Container) (b : FinalizedBlock)
    → IsRunning c
    → HasQueue b.load
    → contains_member c.finalized_blocks b.block_identifier ≡ false
    → alive c b ≡ true
    → loaded_after c b b.thread_identifier ≡ true
    → (next : Container) × (on_block_finalized c b ≡ some next)
      × IsRunning next
      × ((t : ThreadIdentifier) → has_load next.load_balancing t ≡ loaded_after c b t)
      × (next.router
          ≡ c.router
            ++ map
                (λ t. (t, b.block_identifier))
                (new_threads b.block_identifier b.produced_threads_table))
      × (on_block_finalized next b ≡ some next)
unfolding on_block_finalized handle_new_block
on_block_finalized-loads c b h queue fresh here loaded =
    let (handled, added, fifo, member, capacity) =
      insert_member-contains_member c.finalized_blocks b.block_identifier h.has_room h.is_fifo in
    let marked = record c { finalized_blocks = handled } in
    let running : IsRunning marked = record {
      prepared = h.prepared;
      has_room = omega (arith, h.has_room, capacity);
      is_fifo = fifo;
    } in
    let (loads, made, prepared, keys) = services-returns marked b running queue here loaded in
    (
      finish marked b loads,
      rw fresh (rw (added, handle_new_block) made),
      record { prepared = prepared; has_room = running.has_room; is_fifo = fifo },
      keys,
      router_tracks b.block_identifier b.thread_identifier b.produced_threads_table c.router,
      rw member refl,
    )
