-- ===== src/ThreadsTracking/Subscribers.antt =====
use ackinacki.Types.{BlockIdentifier, ThreadIdentifier}
use ackinacki.LoadBalancing.Service.{ThreadsTable}
use ackinacki.Identity.{is_spawning_block}
use ackinacki.ThreadsTracking.{Subscriber, both, list_threads, start_threads, track_block_finalized}
use ackinacki.Common.{
  contains, filter, inr, inl, Bool-cases, refl, ◌≡◌, Option, List, some, ◌∷◌, [], nat_eq,
}

-- The subscribers of threads_tracking_service/mod.rs do not see each other.

-- The threads of a table that a block spawned.
abbrev pub new_threads : BlockIdentifier → ThreadsTable → List ThreadIdentifier
new_threads block table = filter (λ e. is_spawning_block e block) (list_threads table)

module _ {S U : Type 0} (first : Subscriber S) (second : Subscriber U) where
  start_threads-both :
      (block : BlockIdentifier) (table : Option ThreadsTable) (threads : List ThreadIdentifier)
      (s : S) (u : U)
      → start_threads (both first second) block table threads (s, u)
        ≡ (start_threads first block table threads s, start_threads second block table threads u)
  unfolding start_threads both
  start_threads-both block table [] s u = refl
  start_threads-both block table (thread ∷ threads) s u =
      start_threads-both block table threads (first.handle_start_thread block thread table s)
        (second.handle_start_thread block thread table u)

  -- A finalized block does to each of two subscribers what it would do to that one alone.
  pub track_block_finalized-both :
      (block : BlockIdentifier) (thread : ThreadIdentifier) (table : ThreadsTable) (s : S) (u : U)
      → track_block_finalized (both first second) block thread table (s, u) ≡ (
        track_block_finalized first block thread table s,
        track_block_finalized second block thread table u,
      )
  unfolding track_block_finalized both
  track_block_finalized-both block thread table s u =
      let started = start_threads-both block (some table) (new_threads block table) s u in
      elim (Bool-cases (contains thread (list_threads table))) [
        | inl alive ↦ rw alive started
        | inr dead ↦ rw dead (rw started refl)
      ]

-- A predicate that the start and the stop of a thread keep holds after a finalized block.
pub track_rule :
    {S : Type 0} (sub : Subscriber S) (P : S → Type 0) (block : BlockIdentifier)
    (thread : ThreadIdentifier) (table : ThreadsTable) (s : S)
    → ((t : ThreadIdentifier) (u : S) → P u → P (sub.handle_start_thread block t (some table) u))
    → ((u : S) → P u → P (sub.handle_stop_thread block thread u))
    → P s
    → P (track_block_finalized sub block thread table s)
unfolding track_block_finalized
track_rule {S = S} sub P block thread table s start stop h =
    let started = start_rule (new_threads block table) s h in
    elim (Bool-cases (contains thread (list_threads table))) [
      | inl alive ↦ rw alive started
      | inr dead ↦ rw dead (stop _ started)
    ]
  where
    start_rule :
        (threads : List ThreadIdentifier) (u : S)
        → P u
        → P (start_threads sub block (some table) threads u)
    start_rule [] u h = h
    start_rule (t ∷ threads) u h =
        start_rule threads (sub.handle_start_thread block t (some table) u) (start t u h)
