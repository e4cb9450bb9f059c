-- ===== src/Finalization/Told.antt =====
use ackinacki.Common.Assoc.{get, get, Assoc}
use ackinacki.Branches.{state_of}
use ackinacki.Finalization.{
  mark_finalized, mark_children, note_last, cut_attestations, Node, finalize_block, mark_and_tell,
  tell,
}
use ackinacki.Types.{ThreadIdentifier, BlockSeqNo, BlockIdentifier}
use ackinacki.Finalization.Kept.{
  final-mark_children, mark_children-IsKept, final-mark_finalized, IsKept-trans,
  mark_finalized-IsKept, IsKept,
}
use ackinacki.Common.{
  nat_eq, subst, ◌||◌, ◌++◌, ◌==◌, inr, inl, Bool-cases, ◌∙◌, refl, ◌≡◌, Option, Bool, some, none,
  ◌∷◌, [],
}
use mathlib.Core.Option.{some-injective}
use ackinacki.SharedServices.{on_block_finalized, Container, FinalizedBlock}
use ackinacki.Branches.Closure.{final}
use ackinacki.BlockState.{known_children_of, or_empty}

-- What on_block_finalized of node/src/node/services/finalization/mod.rs does to the states of the blocks.
module _ {Signature : Type 0} where
  -- A block was told to the node: states are kept but that `b` is final.
  pub record Finalizes (b : BlockIdentifier) (from to : Node Signature) : Type 0 where
    pub kept : IsKept from.block_states to.block_states
    pub finals :
        (c : BlockIdentifier) → final to.block_states c ≡ (b == c || final from.block_states c)
    pub queue : to.unprocessed_blocks ≡ from.unprocessed_blocks

  tell-Finalizes :
      (b : FinalizedBlock) (from node next : Node Signature) (services : Option Container)
      → Finalizes b.block_identifier from node
      → tell b node services ≡ some next
      → Finalizes b.block_identifier from next
  unfolding tell
  tell-Finalizes b from node next none f h = cc
  tell-Finalizes b from node next (some services) f h =
      let children =
        or_empty
          (known_children_of (state_of node.block_states b.block_identifier) b.thread_identifier) in
      let told : Node Signature = record node {
        shared_services = services;
        raw_blocks = node.raw_blocks ++ (b.block_identifier ∷ []);
        block_states = mark_children children node.block_states;
      } in
      subst (Finalizes b.block_identifier from) (some-injective told next h) (record {
        kept =
            IsKept-trans from.block_states node.block_states
              (mark_children children node.block_states) f.kept
              (mark_children-IsKept children node.block_states);
        finals = λ c. final-mark_children children node.block_states c ∙ f.finals c;
        queue = f.queue;
      })

  mark_and_tell-Finalizes :
      (b : FinalizedBlock) (from node next : Node Signature)
      (metadatas : Option (Assoc ThreadIdentifier (BlockSeqNo × BlockIdentifier)))
      → node.block_states ≡ from.block_states
      → node.unprocessed_blocks ≡ from.unprocessed_blocks
      → mark_and_tell b node metadatas ≡ some next
      → Finalizes b.block_identifier from next
  unfolding mark_and_tell
  mark_and_tell-Finalizes b from node next none states queue h = cc
  mark_and_tell-Finalizes b from node next (some metadatas) states queue h =
      let marked = record node {
        last_finalized = metadatas;
        block_states = mark_finalized b.block_identifier node.block_states;
      } in
      tell-Finalizes b from marked next (on_block_finalized node.shared_services b)
        (record {
          kept = rw states (mark_finalized-IsKept b.block_identifier from.block_states);
          finals = λ c. rw states (final-mark_finalized b.block_identifier c from.block_states);
          queue = queue;
        })
        h

  pub finalize_block-Finalizes :
      (is_saved : BlockIdentifier → Bool) (n : BlockSeqNo) (b : FinalizedBlock)
      (node next : Node Signature)
      → finalize_block is_saved n b node ≡ some next
      → Finalizes b.block_identifier node next
  unfolding finalize_block
  finalize_block-Finalizes is_saved n b node next h =
      elim (Bool-cases (is_saved b.block_identifier)) [
        | inl e ↦
            mark_and_tell-Finalizes b node
              (record node {
                last_block_attestations =
                    cut_attestations
                      (state_of node.block_states b.block_identifier).moves_attestation_list_cutoff
                      node.last_block_attestations;
              })
              next
              (note_last b.thread_identifier n b.block_identifier
                (get b.thread_identifier node.last_finalized) node.last_finalized)
              refl refl (rw (e, finalize_block) at h)
        | inr e ↦ cc (rw (e, finalize_block) at h)
      ]
