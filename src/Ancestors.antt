-- ===== src/Ancestors.antt =====
use ackinacki.Types.{BlockSeqNo, BlockIdentifier}
use ackinacki.BlockState.{is_set, AckiNackiBlockState}
use mathlib.Core.List.{reverse}
use ackinacki.Common.{
  not, ltb, ◌&&◌, ok, ◌++◌, if◌then◌else◌, err, Result, suc, zero, arith, ℕ, Option, List, some,
  none, ◌∷◌, [],
}
-- node/src/node/block_state/unfinalized_ancestor_blocks.rs: the walk back from a block to the last
-- finalized one.
pub mod Outcome
mod Examples

-- `out_of_rounds` is not an error of the code: it says that the rounds given to the model ran out.
pub data SelectError : Type 0 where
  incomplete_history failed_to_load_block_state out_of_rounds : SelectError
  block_seq_no_cutoff invalidated_parent : List AckiNackiBlockState → SelectError

abbrev pub Selected : Type 0
Selected = Result SelectError (List AckiNackiBlockState)

-- What a round of the loop does: it returns, or goes on at the parent.
pub data Round : Type 0 where
  return : Selected → Round
  climb : BlockIdentifier → Round

-- The tests that follow the reads of the state of the cursor.
pub look_up :
    BlockSeqNo
    → List AckiNackiBlockState
    → AckiNackiBlockState
    → Option BlockSeqNo
    → Option BlockIdentifier
    → Round
look_up cutoff chain cursor none parent = return (err incomplete_history)
look_up cutoff chain cursor (some n) none = return (err incomplete_history)
look_up cutoff chain cursor (some n) (some parent) =
    if is_set cursor.finalized
    then return (ok (reverse chain))
    else if ltb n cutoff
    then return (err (block_seq_no_cutoff (chain ++ (cursor ∷ []))))
    else climb parent

pub look : BlockSeqNo → List AckiNackiBlockState → AckiNackiBlockState → Round
unfolding look_up
look cutoff chain cursor =
    if is_set cursor.invalidated && not (is_set cursor.finalized)
    then return (err (invalidated_parent (chain ++ (cursor ∷ []))))
    else look_up cutoff chain cursor cursor.block_seq_no cursor.parent_block_identifier

-- What the repository of block states reads; `none` is its error.
module _ (read : BlockIdentifier → Option AckiNackiBlockState) where
  pub select : BlockSeqNo → ℕ → List AckiNackiBlockState → AckiNackiBlockState → Selected
  unfolding look
  select cutoff zero chain cursor = err out_of_rounds
  select cutoff (suc rounds) chain cursor = elim (look cutoff chain cursor) [
    | return result ↦ result
    | climb parent ↦ elim (read parent) [
      | none ↦ err failed_to_load_block_state
      | some next ↦ select cutoff rounds (chain ++ (cursor ∷ [])) next
    ]
  ]

  pub select_unfinalized_ancestor_blocks : ℕ → AckiNackiBlockState → BlockSeqNo → Selected
  unfolding select
  select_unfinalized_ancestor_blocks rounds tail cutoff = select cutoff rounds [] tail
