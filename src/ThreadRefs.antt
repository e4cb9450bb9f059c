-- ===== src/ThreadRefs.antt =====
use ackinacki.LoadBalancing.Service.{ThreadsTable}
use ackinacki.Common.Assoc.{insert, get, Assoc}
use ackinacki.Types.{BlockSeqNo, BlockIdentifier, ThreadIdentifier}
use ackinacki.Common.{
  ◌++◌, ok, ◌==◌, nat_eq, ltb, err, leb, Result, if◌then◌else◌, map, suc, zero, arith, ℕ, Option,
  List, some, none, ◌∷◌, [],
}
-- node/src/multithreading/cross_thread_messaging/thread_references_state.rs: the last block of each
-- thread that a block may build on, and the walk back to it. Of `CrossThreadRefData`, in
-- node/src/repository/cross_thread_ref_data.rs, the fields that these functions read.
pub mod Walk
pub mod Tails
pub mod References
mod Examples

pub record ReferencedBlock : Type 0 where
  pub block_thread_identifier : ThreadIdentifier
  pub block_identifier : BlockIdentifier
  pub block_seq_no : BlockSeqNo

pub record CrossThreadRefData : Type 0 where
  pub block_identifier : BlockIdentifier
  pub block_seq_no : BlockSeqNo
  pub block_thread_identifier : ThreadIdentifier
  pub parent_block_identifier : BlockIdentifier
  pub block_refs : List BlockIdentifier
  pub threads_table : ThreadsTable

abbrev pub ThreadRefs : Type 0
ThreadRefs = Assoc ThreadIdentifier ReferencedBlock

pub as_reference_state_data : CrossThreadRefData → ReferencedBlock
as_reference_state_data b = record {
  block_thread_identifier = b.block_thread_identifier;
  block_identifier = b.block_identifier;
  block_seq_no = b.block_seq_no;
}

pub update_ref : ThreadRefs → ThreadIdentifier → ReferencedBlock → ThreadRefs
update_ref refs thread referenced_block = insert thread referenced_block refs

-- `out_of_rounds` is not an error of the code: it says that the rounds given to the model ran out.
pub data WalkError : Type 0 where
  unreadable wrong_state_refs can_not_reference out_of_rounds : WalkError

-- What the test at the cutoff finds: the walk ends, it fails, or it goes on.
pub data AtCutoff : Type 0 where
  stop mismatch go_on : AtCutoff

unfoldable pub at_cutoff : ThreadRefs → CrossThreadRefData → AtCutoff
at_cutoff cutoff cursor = elim (get cursor.block_thread_identifier cutoff) [
  | none ↦ go_on
  | some thread_last_block ↦
      if leb cursor.block_seq_no thread_last_block.block_seq_no
      then (if thread_last_block.block_seq_no == cursor.block_seq_no
          then (if thread_last_block.block_identifier == cursor.block_identifier
              then stop
              else mismatch)
          else stop)
      else go_on
]

-- What the caller's closure reads; `none` is its error.
module _ (read : BlockIdentifier → Option CrossThreadRefData) (cutoff : ThreadRefs) where
  -- The loop, for as many rounds as are given, from the cursor.
  pub walk :
      ℕ → CrossThreadRefData → List CrossThreadRefData → Result WalkError (List CrossThreadRefData)
  walk zero cursor trail = err out_of_rounds
  walk (suc rounds) cursor trail = elim (at_cutoff cutoff cursor) [
    | stop ↦ ok trail
    | mismatch ↦ err wrong_state_refs
    | go_on ↦ elim (read cursor.parent_block_identifier) [
      | none ↦ err unreadable
      | some parent ↦ walk rounds parent (trail ++ (cursor ∷ []))
    ]
  ]

  pub walk_back_into_history : ℕ → BlockIdentifier → Result WalkError (List CrossThreadRefData)
  unfolding walk
  walk_back_into_history rounds start = elim (read start) [
    | none ↦ err unreadable
    | some cursor ↦ walk rounds cursor []
  ]

-- The `entry` call of `keep_tails`.
unfoldable pub keep_tail : ReferencedBlock → ThreadRefs → ThreadRefs
keep_tail b tails = elim (get b.block_thread_identifier tails) [
  | none ↦ insert b.block_thread_identifier b tails
  | some e ↦
      if ltb e.block_seq_no b.block_seq_no then insert b.block_thread_identifier b tails else tails
]

pub keep_all_tails : List ReferencedBlock → ThreadRefs → ThreadRefs
keep_all_tails [] tails = tails
keep_all_tails (b ∷ bs) tails = keep_all_tails bs (keep_tail b tails)

pub keep_tails : List ReferencedBlock → List ReferencedBlock
unfolding keep_all_tails
keep_tails referenced_blocks = map (λ entry. entry.1) (keep_all_tails referenced_blocks [])
