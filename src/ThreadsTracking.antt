-- ===== src/ThreadsTracking.antt =====
use ackinacki.Types.{BlockIdentifier, ThreadIdentifier}
use ackinacki.Identity.{is_spawning_block}
use ackinacki.LoadBalancing.Service.{ThreadsTable}
use ackinacki.Common.{
  contains, if◌then◌else◌, map, filter, extend, arith, Option, List, some, none, ◌∷◌, [], nat_eq,
}
-- node/src/multithreading/threads_tracking_service: which threads start and stop with a finalized block,
-- told to the subscribers.
pub mod Subscribers
mod Examples

-- `Subscriber`, of a state `S`.
pub record Subscriber (S : Type 0) : Type 0 where
  pub handle_start_thread : BlockIdentifier → ThreadIdentifier → Option ThreadsTable → S → S
  pub handle_stop_thread : BlockIdentifier → ThreadIdentifier → S → S

-- `tuple_subs!`, for two subscribers: each call goes to the first and then to the second.
pub both : {S U : Type 0} → Subscriber S → Subscriber U → Subscriber (S × U)
both first second = record {
  handle_start_thread = λ block thread table s. (
    first.handle_start_thread block thread table s.0,
    second.handle_start_thread block thread table s.1,
  );
  handle_stop_thread = λ block thread s.
      (first.handle_stop_thread block thread s.0, second.handle_stop_thread block thread s.1);
}

-- node/src/types/threads_table.rs: the threads of a table, each once, in some order.
unfoldable pub list_threads : ThreadsTable → List ThreadIdentifier
list_threads table = extend [] (map (λ row. row.1) table.masks)

module _ {S : Type 0} (sub : Subscriber S) where
  unfoldable pub start_threads :
      BlockIdentifier → Option ThreadsTable → List ThreadIdentifier → S → S
  start_threads block table [] s = s
  start_threads block table (thread ∷ threads) s =
      start_threads block table threads (sub.handle_start_thread block thread table s)

  pub init_thread : BlockIdentifier → List ThreadIdentifier → S → S
  unfolding start_threads
  init_thread block threads_set s = start_threads block none threads_set s

  unfoldable pub track_block_finalized : BlockIdentifier → ThreadIdentifier → ThreadsTable → S → S
  unfolding start_threads list_threads is_spawning_block
  track_block_finalized block thread table s =
      let this_table = list_threads table in
      let new_threads = filter (λ e. is_spawning_block e block) this_table in
      let started = start_threads block (some table) new_threads s in
      if contains thread this_table then started else sub.handle_stop_thread block thread started
