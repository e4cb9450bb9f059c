-- ===== src/Branches.antt =====
use ackinacki.Types.{ThreadIdentifier, BlockIdentifier}
use ackinacki.Common.Assoc.{insert, get, Assoc}
use ackinacki.Common.{
  ◌==◌, inr, inl, Bool-cases, Option-cases, ◌∙◌, ap, sym, refl, ◌≡◌, Bool, false, true, ◌++◌, err,
  ok, nat_eq, extend, Result, if◌then◌else◌, suc, zero, arith, ℕ, Option, List, some, none, ◌∷◌, [],
}
use ackinacki.BlockState.{notify_changed, is_set, new, AckiNackiBlockState, set_invalidated}
-- node/src/node/block_state/tools/invalidate_branch.rs: a block and what descends from it are invalidated.
-- The repository of block states is the map from identifiers to states; it makes a fresh state for a block
-- that it does not have. What it keeps on the disk is part of the map, with the parent of the default block
-- set as it is set when the state is loaded.
pub mod Closure
pub mod Reach
pub mod Rounds
mod Examples

abbrev pub BlockStateRepository : Type 0
BlockStateRepository = Assoc BlockIdentifier AckiNackiBlockState

-- A fresh state; that of the default block, which has the number 0, is its own parent.
unfoldable pub fresh : BlockIdentifier → AckiNackiBlockState
unfolding new notify_changed
fresh b =
    if b == 0 then notify_changed (record (new b) { parent_block_identifier = some b }) else new b

unfoldable pub or_new : BlockIdentifier → Option AckiNackiBlockState → AckiNackiBlockState
unfolding fresh
or_new b none = fresh b
or_new b (some s) = s

unfoldable pub state_of : BlockStateRepository → BlockIdentifier → AckiNackiBlockState
unfolding or_new
state_of states b = or_new b (get b states)

unfoldable pub all_children : Assoc ThreadIdentifier (List BlockIdentifier) → List BlockIdentifier
all_children [] = []
all_children ((thread, children) ∷ known) = extend (all_children known) children

-- `out_of_rounds` is not an error of the code: it says that the rounds given to the model ran out.
pub data InvalidateError : Type 0 where
  is_finalized out_of_rounds : InvalidateError

-- What the loop does with the state at the front of the queue.
pub data Visit : Type 0 where
  assert_fails skip mark : Visit

pub visit : AckiNackiBlockState → Visit
visit next =
    if is_set next.finalized then assert_fails else if is_set next.invalidated then skip else mark

pub process :
    ℕ → List BlockIdentifier → BlockStateRepository → Result InvalidateError BlockStateRepository
unfolding visit state_of all_children set_invalidated
process rounds [] states = ok states
process zero (next ∷ to_process) states = err out_of_rounds
process (suc rounds) (next ∷ to_process) states = elim (visit (state_of states next)) [
  | assert_fails ↦ err is_finalized
  | skip ↦ process rounds to_process states
  | mark ↦
      process rounds (to_process ++ all_children (state_of states next).known_children)
        (insert next (set_invalidated (state_of states next)) states)
]

pub invalidate_branch :
    ℕ → BlockIdentifier → BlockStateRepository → Result InvalidateError BlockStateRepository
unfolding process
invalidate_branch rounds branch_root states = process rounds (branch_root ∷ []) states
