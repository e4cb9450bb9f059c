-- ===== src/ThreadRefs/References.antt =====
use ackinacki.ThreadsTracking.{list_threads}
use ackinacki.Identity.{is_spawning_block}
use ackinacki.Types.{ThreadIdentifier, BlockSeqNo, BlockIdentifier}
use ackinacki.Common.{
  set_insert, ◌>>=◌, err, ok, contains, nat_eq, not, if◌then◌else◌, Result, filter, ◌++◌, ltb, map,
  suc, zero, arith, ℕ, Option, List, Bool, true, some, none, ◌∷◌, [],
}
use ackinacki.Common.Assoc.{get, insert}
use ackinacki.ThreadRefs.{
  WalkError, walk_back_into_history, keep_tails, ReferencedBlock, as_reference_state_data,
  CrossThreadRefData, ThreadRefs, can_not_reference, out_of_rounds, unreadable,
}
use mathlib.Core.Option
use mathlib.Core.List.{reverse}
-- can_reference and move_refs of thread_references_state.rs, which gather the blocks that a block refers
-- to, and move the last block of each thread.
pub mod Moved
pub mod Ahead
pub mod Ends

-- The variables of the loop.
pub record Gathering : Type 0 where
  pub tails : ThreadRefs
  pub stack : List BlockIdentifier
  pub all_referenced_blocks : List ReferencedBlock
  pub explicitly_referenced_set : List BlockIdentifier

pub record ResultingState : Type 0 where
  pub implicitly_referenced_blocks : List BlockIdentifier
  pub explicitly_referenced_blocks : List BlockIdentifier

pub data CanRefQueryResult : Type 0 where
  no : CanRefQueryResult
  yes : ResultingState → CanRefQueryResult

pub is_newer : BlockSeqNo → Option ReferencedBlock → Bool
is_newer n none = true
is_newer n (some existing) = ltb existing.block_seq_no n

pub spawned_threads : CrossThreadRefData → List ThreadIdentifier
spawned_threads b =
    filter (λ t. is_spawning_block t b.block_identifier) (list_threads b.threads_table)

-- The body of the loop over a trail, with the blocks that were known before.
pub gather_block : List BlockIdentifier → CrossThreadRefData → Gathering → Gathering
unfolding is_newer as_reference_state_data
gather_block known b g =
    let next = record g {
      all_referenced_blocks = g.all_referenced_blocks ++ (as_reference_state_data b ∷ []);
      stack = g.stack ++ b.block_refs;
    } in
    if is_newer b.block_seq_no (get b.block_thread_identifier g.tails)
    then record next {
      tails = insert b.block_thread_identifier (as_reference_state_data b) g.tails;
      explicitly_referenced_set =
          if contains b.block_identifier known
          then g.explicitly_referenced_set
          else set_insert b.block_identifier g.explicitly_referenced_set;
    }
    else next

pub gather_trail : List BlockIdentifier → List CrossThreadRefData → Gathering → Gathering
unfolding gather_block
gather_trail known [] g = g
gather_trail known (b ∷ bs) g = gather_trail known bs (gather_block known b g)

pub resulting : Gathering → CanRefQueryResult
resulting g = yes (record {
  explicitly_referenced_blocks = g.explicitly_referenced_set;
  implicitly_referenced_blocks =
      map (λ e. e.block_identifier)
        (filter (λ e. not (contains e.block_identifier g.explicitly_referenced_set))
          g.all_referenced_blocks);
})

-- Blocks that spawn threads stand for these threads too.
pub add_phantoms : ReferencedBlock → List ThreadIdentifier → ThreadRefs → ThreadRefs
add_phantoms b [] refs = refs
add_phantoms b (t ∷ threads) refs = add_phantoms b threads (insert t b refs)

pub add_all_phantoms : List CrossThreadRefData → ThreadRefs → ThreadRefs
unfolding add_phantoms spawned_threads as_reference_state_data
add_all_phantoms [] refs = refs
add_all_phantoms (b ∷ bs) refs =
    add_all_phantoms bs (add_phantoms (as_reference_state_data b) (spawned_threads b) refs)

-- `extend` of the map.
pub insert_tails : List ReferencedBlock → ThreadRefs → ThreadRefs
insert_tails [] refs = refs
insert_tails (b ∷ bs) refs = insert_tails bs (insert b.block_thread_identifier b refs)

pub move_to : List CrossThreadRefData → ThreadRefs → ThreadRefs
unfolding add_all_phantoms insert_tails keep_tails
move_to blocks refs =
    insert_tails (keep_tails (map as_reference_state_data blocks)) (add_all_phantoms blocks refs)

module _ (read : BlockIdentifier → Option CrossThreadRefData) (walk_rounds : ℕ) where
  pub gather :
      ℕ → List BlockIdentifier → List BlockIdentifier → Gathering → Result WalkError Gathering
  unfolding walk_back_into_history gather_trail
  gather rounds known [] g = ok g
  gather zero known (cursor ∷ stack) g = err out_of_rounds
  gather (suc rounds) known (cursor ∷ stack) g =
      elim (walk_back_into_history read g.tails walk_rounds cursor) [
        | err e ↦ err e
        | ok trail ↦
            let next = gather_trail known (reverse trail) (record g { stack = stack }) in
            gather rounds known next.stack next
      ]

  pub can_reference : ℕ → ThreadRefs → List BlockIdentifier → Result WalkError CanRefQueryResult
  unfolding gather resulting
  can_reference rounds refs [] =
      ok (yes (record { explicitly_referenced_blocks = []; implicitly_referenced_blocks = [] }))
  can_reference rounds refs (b ∷ bs) =
      gather rounds (map (λ entry. entry.1.block_identifier) refs) (b ∷ bs) (record {
        tails = refs;
        stack = b ∷ bs;
        all_referenced_blocks = [];
        explicitly_referenced_set = [];
      })
      >>= λ g. ok (resulting g)

  pub read_all : List BlockIdentifier → Option (List CrossThreadRefData)
  read_all [] = some []
  read_all (id ∷ ids) = elim (read id) [
    | none ↦ none
    | some b ↦ Option.map (λ bs. b ∷ bs) (read_all ids)
  ]

  pub move_read :
      ThreadRefs
      → Option (List CrossThreadRefData)
      → Result WalkError (ThreadRefs × List CrossThreadRefData)
  unfolding move_to
  move_read refs none = err unreadable
  move_read refs (some blocks) = ok (move_to blocks refs, blocks)

  pub move_result :
      ThreadRefs → CanRefQueryResult → Result WalkError (ThreadRefs × List CrossThreadRefData)
  unfolding move_read read_all
  move_result refs no = err can_not_reference
  move_result refs (yes state) =
      move_read refs
        (read_all (state.explicitly_referenced_blocks ++ state.implicitly_referenced_blocks))

  unfoldable pub move_refs :
      ℕ
      → ThreadRefs
      → List BlockIdentifier
      → Result WalkError (ThreadRefs × List CrossThreadRefData)
  unfolding can_reference move_result
  move_refs rounds refs references = can_reference rounds refs references >>= move_result refs
