-- ===== src/LoadBalancing/Threads/Keys.antt =====
use ackinacki.Types.{BlockIdentifier, ThreadIdentifier}
use ackinacki.Common.Assoc.{
  get, insert, contains_key, contains_key_lem, contains_key-insert, contains_key-remove, get-remove,
  get-insert_cases, is_some,
}
use ackinacki.LoadBalancing.Aggregated.{AggregatedLoad, BlockLoad, new_load, reset}
use ackinacki.LoadBalancing.Aggregated.Window.{IsWindow, new_load-IsWindow, append_from-tail}
use ackinacki.LoadBalancing.Aggregated.Ready.{reset-IsWindow, HasQueue, entry_of-Fits}
use ackinacki.LoadBalancing.Service.{LoadBalancingService, ThreadsTable}
use ackinacki.LoadBalancing.Threads.{
  reset_load, reset_parent, parent_of, load_start_thread, load_stop_thread, load_subscriber,
  load_append, load_block_finalized, spawned_threads_by,
}
use ackinacki.ThreadsTracking.{list_threads, start_threads, track_block_finalized}
use ackinacki.ThreadsTracking.Subscribers.{new_threads, track_rule}
use ackinacki.Common.{
  ◌^◌, ◌≤◌, if◌then◌else◌, contains, ◌||◌, ◌==◌, subst, ◌<◌, inr, inl, Bool-cases, Option-cases,
  ◌∙◌, ap, refl, arith, ◌≡◌, Option, List, Bool, false, true, some, none, ◌∷◌, [], nat_eq,
}

-- Which threads have a load in load_balancing_service/mod.rs, and that each load is a window.

abbrev pub has_load : LoadBalancingService → ThreadIdentifier → Bool
has_load s t = contains_key t s.thread_load_map

pub record IsPrepared (s : LoadBalancingService) : Type 0 where
  pub has_window : 0 < s.window_size
  pub few : s.window_size ≤ 2 ^ 10
  pub windows :
      (t : ThreadIdentifier) (l : AggregatedLoad) → get t s.thread_load_map ≡ some l → IsWindow l

IsPrepared-insert :
    (s : LoadBalancingService) (t : ThreadIdentifier) (l : AggregatedLoad)
    → IsPrepared s
    → IsWindow l
    → IsPrepared (record s { thread_load_map = insert t l s.thread_load_map })
IsPrepared-insert s t l h w = record {
  has_window = h.has_window;
  few = h.few;
  windows = λ j m e. elim (get-insert_cases t j l m s.thread_load_map e) [
    | inl (_, same) ↦ subst IsWindow same w
    | inr old ↦ h.windows j m old
  ];
}

HasLoad-insert_old :
    (s : LoadBalancingService) (p t : ThreadIdentifier) (l m : AggregatedLoad)
    → get p s.thread_load_map ≡ some l
    → contains_key t (insert p m s.thread_load_map) ≡ contains_key t s.thread_load_map
HasLoad-insert_old s p t l m e =
    ground
      (arith, contains_key-insert p t m s.thread_load_map, contains_key_lem p s.thread_load_map)

reset_load-HasLoad :
    (p t : ThreadIdentifier) (s : LoadBalancingService) → has_load (reset_load p s) t ≡ has_load s t
unfolding reset_load
reset_load-HasLoad p t s = elim (Option-cases (get p s.thread_load_map)) [
  | inl e ↦ rw (e, reset_load) refl
  | inr (l, e) ↦ rw (e, reset_load) (HasLoad-insert_old s p t l (reset l) e)
]

reset_load-IsPrepared :
    (p : ThreadIdentifier) (s : LoadBalancingService) → IsPrepared s → IsPrepared (reset_load p s)
unfolding reset_load
reset_load-IsPrepared p s h = elim (Option-cases (get p s.thread_load_map)) [
  | inl e ↦ rw (e, reset_load) h
  | inr (l, e) ↦
      rw (e, reset_load) (IsPrepared-insert s p (reset l) h (reset-IsWindow l (h.windows p l e)))
]

reset_parent-HasLoad :
    (thread t : ThreadIdentifier) (table : Option ThreadsTable) (s : LoadBalancingService)
    → has_load (reset_parent thread table s) t ≡ has_load s t
unfolding reset_parent
reset_parent-HasLoad thread t none s = refl
reset_parent-HasLoad thread t (some table) s = elim (Option-cases (parent_of thread table.masks)) [
  | inl e ↦ rw (e, reset_parent) refl
  | inr (p, e) ↦ rw (e, reset_parent) (reset_load-HasLoad p t s)
]

reset_parent-IsPrepared :
    (thread : ThreadIdentifier) (table : Option ThreadsTable) (s : LoadBalancingService)
    → IsPrepared s
    → IsPrepared (reset_parent thread table s)
unfolding reset_parent
reset_parent-IsPrepared thread none s h = h
reset_parent-IsPrepared thread (some table) s h =
    elim (Option-cases (parent_of thread table.masks)) [
      | inl e ↦ rw (e, reset_parent) h
      | inr (p, e) ↦ rw (e, reset_parent) (reset_load-IsPrepared p s h)
    ]

load_start_thread-HasLoad :
    (block : BlockIdentifier) (thread t : ThreadIdentifier) (table : Option ThreadsTable)
    (s : LoadBalancingService)
    → has_load (load_start_thread block thread table s) t ≡ (thread == t || has_load s t)
unfolding load_start_thread
load_start_thread-HasLoad block thread t table s =
    let prepared = reset_parent thread table s in
    contains_key-insert thread t (new_load prepared.window_size) prepared.thread_load_map
    ∙ ap (λ b. thread == t || b) (reset_parent-HasLoad thread t table s)

load_start_thread-IsPrepared :
    (block : BlockIdentifier) (thread : ThreadIdentifier) (table : Option ThreadsTable)
    (s : LoadBalancingService)
    → IsPrepared s
    → IsPrepared (load_start_thread block thread table s)
unfolding load_start_thread
load_start_thread-IsPrepared block thread table s h =
    let prepared = reset_parent thread table s in
    let is_prepared = reset_parent-IsPrepared thread table s h in
    IsPrepared-insert prepared thread (new_load prepared.window_size) is_prepared
      (new_load-IsWindow prepared.window_size is_prepared.has_window is_prepared.few)

load_stop_thread-IsPrepared :
    (block : BlockIdentifier) (thread : ThreadIdentifier) (s : LoadBalancingService)
    → IsPrepared s
    → IsPrepared (load_stop_thread block thread s)
unfolding load_stop_thread
load_stop_thread-IsPrepared block thread s h = record {
  has_window = h.has_window;
  few = h.few;
  windows = λ t l e. h.windows t l (ground (arith, get-remove thread t s.thread_load_map));
}

start_threads-HasLoad :
    (block : BlockIdentifier) (table : Option ThreadsTable) (threads : List ThreadIdentifier)
    (t : ThreadIdentifier) (s : LoadBalancingService)
    → has_load (start_threads load_subscriber block table threads s) t
      ≡ (contains t threads || has_load s t)
unfolding start_threads load_subscriber
start_threads-HasLoad block table [] t s = refl
start_threads-HasLoad block table (thread ∷ threads) t s = ground (
  arith,
  start_threads-HasLoad block table threads t (load_start_thread block thread table s),
  load_start_thread-HasLoad block thread t table s,
)

-- After a finalized block the threads with a load are those that it spawned and those that had one,
-- less its own thread if the table that it leaves has no row for it.
pub has_load-track_block_finalized :
    (block : BlockIdentifier) (thread t : ThreadIdentifier) (table : ThreadsTable)
    (s : LoadBalancingService)
    → has_load (track_block_finalized load_subscriber block thread table s) t ≡ (
        if contains thread (list_threads table)
        then contains t (new_threads block table) || has_load s t
        else (if thread == t then false else contains t (new_threads block table) || has_load s t))
unfolding track_block_finalized load_subscriber load_stop_thread
has_load-track_block_finalized block thread t table s =
    let started = start_threads-HasLoad block (some table) (new_threads block table) t s in
    elim (Bool-cases (contains thread (list_threads table))) [
      | inl alive ↦ rw alive started
      | inr dead ↦ rw dead (
          contains_key-remove thread t
            (start_threads load_subscriber block (some table) (new_threads block table)
              s).thread_load_map
          ∙ ap (λ b. if thread == t then false else b) started)
    ]

pub track-IsPrepared :
    (block : BlockIdentifier) (thread : ThreadIdentifier) (table : ThreadsTable)
    (s : LoadBalancingService)
    → IsPrepared s
    → IsPrepared (track_block_finalized load_subscriber block thread table s)
unfolding load_subscriber
track-IsPrepared block thread table s h =
    track_rule load_subscriber IsPrepared block thread table s
      (λ t u. load_start_thread-IsPrepared block t (some table) u)
      (λ u. load_stop_thread-IsPrepared block thread u) h

load_append-returns :
    (thread : ThreadIdentifier) (b : BlockLoad) (s : LoadBalancingService)
    → IsPrepared s
    → HasQueue b
    → has_load s thread ≡ true
    → (next : LoadBalancingService) × (load_append thread b s ≡ some next)
      × IsPrepared next
      × ((t : ThreadIdentifier) → has_load next t ≡ has_load s t)
unfolding load_append
load_append-returns thread b s h queue there = elim (Option-cases (get thread s.thread_load_map)) [
  | inl e ↦ cc (contains_key_lem thread s.thread_load_map, ap is_some e, there)
  | inr (l, e) ↦
      let (entry, enters, fits) = entry_of-Fits b queue in
      let (next, made, window, _, _, _, _, _) =
        append_from-tail l b entry (h.windows thread l e) enters fits in
      (
        record s { thread_load_map = insert thread next s.thread_load_map },
        rw (e, load_append) (rw made refl),
        IsPrepared-insert s thread next h window,
        λ t. HasLoad-insert_old s thread t l next e,
      )
]

load_append_missing :
    (thread : ThreadIdentifier) (b : BlockLoad) (s : LoadBalancingService)
    → has_load s thread ≡ false
    → load_append thread b s ≡ none
unfolding load_append
load_append_missing thread b s missing = elim (Option-cases (get thread s.thread_load_map)) [
  | inl e ↦ rw (e, load_append) refl
  | inr (l, e) ↦ cc (contains_key_lem thread s.thread_load_map, ap is_some e, missing)
]

-- A finalized block of a thread that has a load.
pub load_block_finalized-returns :
    (block : BlockIdentifier) (thread : ThreadIdentifier) (table : Option ThreadsTable)
    (b : BlockLoad) (s : LoadBalancingService)
    → IsPrepared s
    → HasQueue b
    → has_load s thread ≡ true
    → (next : LoadBalancingService) × (load_block_finalized block thread table b s ≡ some next)
      × IsPrepared next
      × ((t : ThreadIdentifier) → has_load next t ≡ has_load s t)
unfolding load_block_finalized
load_block_finalized-returns block thread table b s h queue there =
    elim (Bool-cases (spawned_threads_by block table)) [
      | inl split ↦ (
        reset_load thread s,
        rw (split, there) refl,
        reset_load-IsPrepared thread s h,
        λ t. reset_load-HasLoad thread t s,
      )
      | inr plain ↦
          let (next, made, prepared, same) = load_append-returns thread b s h queue there in
          (next, rw plain made, prepared, same)
    ]

-- A finalized block of a thread that has no load.
pub load_block_finalized_missing :
    (block : BlockIdentifier) (thread : ThreadIdentifier) (table : Option ThreadsTable)
    (b : BlockLoad) (s : LoadBalancingService)
    → has_load s thread ≡ false
    → load_block_finalized block thread table b s ≡ none
unfolding load_block_finalized
load_block_finalized_missing block thread table b s missing =
    ground (arith, load_append_missing thread b s missing)
