-- ===== src/BlockKeepers.antt =====
-- node/src/block_keeper_system/mod.rs and bk_set.rs: the set of block keepers, and how the changes in
-- a block's common section update it.
mod Examples
pub mod Keys
pub mod Members
pub mod Nodes
use ackinacki.Checkpoints.{is_empty}
use ackinacki.Common.Assoc.{remove, get, contains_key, insert, Assoc}
use ackinacki.Types.{SignerIndex, NodeIdentifier}
use ackinacki.Common.{
  nat_eq, ◌+◌, map, contains, if◌then◌else◌, length, arith, ℕ, Option, List, Bool, some, none, ◌∷◌,
  [],
}

pub data BlockKeeperStatus : Type 0 where
  pre_epoch active called_to_finish expired : BlockKeeperStatus

-- The amount, the addresses and the keys are opaque to the functions below.
pub record BlockKeeperData (PubKey : Type 0) : Type 0 where
  pub pubkey : PubKey
  pub epoch_finish_seq_no : Option ℕ
  pub status : BlockKeeperStatus
  pub address : ℕ
  pub stake : ℕ
  pub owner_address : NodeIdentifier
  pub signer_index : SignerIndex
  pub owner_pubkey : ℕ

pub data BlockKeeperSetChange (PubKey : Type 0) : Type 0 where
  block_keeper_added : SignerIndex → BlockKeeperData PubKey → BlockKeeperSetChange PubKey
  block_keeper_removed : SignerIndex → BlockKeeperData PubKey → BlockKeeperSetChange PubKey
  future_block_keeper_added : SignerIndex → BlockKeeperData PubKey → BlockKeeperSetChange PubKey

pub record BlockKeeperSet (PubKey : Type 0) : Type 0 where
  pub by_signer : Assoc SignerIndex (BlockKeeperData PubKey)
  pub signer_to_pubkey : Assoc SignerIndex PubKey
  pub signer_by_node_id : Assoc NodeIdentifier SignerIndex

module _ {PubKey : Type 0} where
  pub node_id : BlockKeeperData PubKey → NodeIdentifier
  node_id keeper = keeper.owner_address

  pub new_bk_set : BlockKeeperSet PubKey
  new_bk_set = record { by_signer = []; signer_to_pubkey = []; signer_by_node_id = [] }

  unfoldable pub bk_set_len : BlockKeeperSet PubKey → ℕ
  bk_set_len s = length s.by_signer

  pub insert_keeper :
      BlockKeeperSet PubKey → SignerIndex → BlockKeeperData PubKey → BlockKeeperSet PubKey
  unfolding node_id
  insert_keeper s signer_index keeper = record {
    signer_to_pubkey = insert signer_index keeper.pubkey s.signer_to_pubkey;
    by_signer = insert signer_index keeper s.by_signer;
    signer_by_node_id = insert (node_id keeper) signer_index s.signer_by_node_id;
  }

  pub contains_signer : BlockKeeperSet PubKey → SignerIndex → Bool
  contains_signer s signer_index = contains_key signer_index s.by_signer

  pub get_by_signer : BlockKeeperSet PubKey → SignerIndex → Option (BlockKeeperData PubKey)
  get_by_signer s signer_index = get signer_index s.by_signer

  pub get_by_node_id : BlockKeeperSet PubKey → NodeIdentifier → Option (BlockKeeperData PubKey)
  get_by_node_id s n = elim (get n s.signer_by_node_id) [
    | none ↦ none
    | some signer ↦ get signer s.by_signer
  ]

  -- The sum is a `BigUint`.
  pub undistributed : Assoc SignerIndex (BlockKeeperData PubKey) → List SignerIndex → ℕ
  undistributed [] attested_signers = 0
  undistributed ((signer, keeper) ∷ rest) attested_signers =
      let others = undistributed rest attested_signers in
      if contains signer attested_signers then others else keeper.stake + others

  pub get_undistributed_stake : BlockKeeperSet PubKey → List SignerIndex → ℕ
  unfolding undistributed
  get_undistributed_stake s attested_signers = undistributed s.by_signer attested_signers

  -- The keys of a `BTreeMap`; the order in which they come is that of the association list.
  unfoldable pub iter_node_ids : BlockKeeperSet PubKey → List NodeIdentifier
  iter_node_ids s = map (λ entry. entry.0) s.signer_by_node_id

  pub remove_signer :
      BlockKeeperSet PubKey → SignerIndex → BlockKeeperSet PubKey × Option (BlockKeeperData PubKey)
  unfolding node_id
  remove_signer s signer_index =
      let removed = get signer_index s.by_signer in
      (
        record {
          by_signer = remove signer_index s.by_signer;
          signer_to_pubkey = remove signer_index s.signer_to_pubkey;
          signer_by_node_id = elim removed [
            | none ↦ s.signer_by_node_id
            | some keeper ↦ remove (node_id keeper) s.signer_by_node_id
          ];
        },
        removed,
      )

  -- The three loops of `update_block_keeper_set_from_common_section`.
  pub apply_removed :
      List (BlockKeeperSetChange PubKey) → BlockKeeperSet PubKey → BlockKeeperSet PubKey
  apply_removed [] s = s
  apply_removed (block_keeper_removed i keeper ∷ changes) s =
      apply_removed changes (remove_signer s i).0
  apply_removed (block_keeper_added i keeper ∷ changes) s = apply_removed changes s
  apply_removed (future_block_keeper_added i keeper ∷ changes) s = apply_removed changes s

  pub apply_added :
      List (BlockKeeperSetChange PubKey)
      → BlockKeeperSet PubKey
      → BlockKeeperSet PubKey
      → BlockKeeperSet PubKey × BlockKeeperSet PubKey
  apply_added [] s future = (s, future)
  apply_added (block_keeper_added i keeper ∷ changes) s future =
      apply_added changes (insert_keeper s i keeper)
        (if contains_signer future i then (remove_signer future i).0 else future)
  apply_added (block_keeper_removed i keeper ∷ changes) s future = apply_added changes s future
  apply_added (future_block_keeper_added i keeper ∷ changes) s future = apply_added changes s future

  pub apply_future :
      List (BlockKeeperSetChange PubKey) → BlockKeeperSet PubKey → BlockKeeperSet PubKey
  apply_future [] future = future
  apply_future (future_block_keeper_added i keeper ∷ changes) future =
      apply_future changes (insert_keeper future i keeper)
  apply_future (block_keeper_added i keeper ∷ changes) future = apply_future changes future
  apply_future (block_keeper_removed i keeper ∷ changes) future = apply_future changes future

  -- `none` when the block changes nothing.
  pub update_block_keeper_set_from_common_section :
      List (BlockKeeperSetChange PubKey)
      → BlockKeeperSet PubKey
      → BlockKeeperSet PubKey
      → Option (BlockKeeperSet PubKey × BlockKeeperSet PubKey)
  update_block_keeper_set_from_common_section changes current future =
      if is_empty changes
      then none
      else (let (next, next_future) = apply_added changes (apply_removed changes current) future in
          some (next, apply_future changes next_future))
