-- ===== src/BlockKeepers/Nodes.antt =====
-- The lookup of a block keeper by its node, node/src/block_keeper_system/mod.rs.
use ackinacki.Common.Assoc.{get-remove, get-insert, get}
use ackinacki.Types.{SignerIndex, NodeIdentifier}
use ackinacki.BlockKeepers.{
  node_id, get_by_signer, BlockKeeperData, remove_signer, insert_keeper, get_by_node_id,
  BlockKeeperSet,
}
use ackinacki.Common.{
  inr, inl, Option-cases, ◌||◌, nat_eq, if◌then◌else◌, ◌==◌, arith, ◌≡◌, Bool, false, some, none,
}

module _ {PubKey : Type 0} (s : BlockKeeperSet PubKey) where
  -- The table says that the node signs as `i`.
  abbrev pub signs_as : NodeIdentifier → SignerIndex → Bool
  signs_as n i = elim (get n s.signer_by_node_id) [ none ↦ false | some j ↦ j == i ]

  -- After an insertion the node of the keeper is found as that keeper, and so is any node that was
  -- already found under the same signer index; other nodes are found as before.
  pub get_by_node_id-insert_keeper :
      (i : SignerIndex) (keeper : BlockKeeperData PubKey) (n : NodeIdentifier)
      → get_by_node_id (insert_keeper s i keeper) n
        ≡ (if node_id keeper == n || signs_as n i then some keeper else get_by_node_id s n)
  unfolding get_by_node_id insert_keeper
  get_by_node_id-insert_keeper i keeper n = elim (Option-cases (get n s.signer_by_node_id)) [
    | inl e ↦ ground (
      arith,
      get-insert (node_id keeper) n i s.signer_by_node_id,
      get-insert i i keeper s.by_signer,
    )
    | inr (j, e) ↦ ground (
      arith,
      get-insert (node_id keeper) n i s.signer_by_node_id,
      get-insert i i keeper s.by_signer,
      get-insert i j keeper s.by_signer,
    )
  ]

  -- After a removal the node of the removed keeper is not found, whichever signer index the table had
  -- for it, nor is a node that was found under the removed index; other nodes are found as before.
  pub get_by_node_id-remove_signer :
      (i : SignerIndex) (n : NodeIdentifier)
      → get_by_node_id (remove_signer s i).0 n ≡ elim (get_by_signer s i) [
        | none ↦ get_by_node_id s n
        | some keeper ↦ if node_id keeper == n || signs_as n i then none else get_by_node_id s n
      ]
  unfolding get_by_node_id remove_signer get_by_signer
  get_by_node_id-remove_signer i n = elim (Option-cases (get i s.by_signer)) [
    | inl absent ↦ elim (Option-cases (get n s.signer_by_node_id)) [
      | inl e ↦ ground arith
      | inr (j, e) ↦ ground (arith, get-remove i j s.by_signer)
    ]
    | inr (keeper, present) ↦ elim (Option-cases (get n s.signer_by_node_id)) [
      | inl e ↦ ground (arith, get-remove (node_id keeper) n s.signer_by_node_id)
      | inr (j, e) ↦
          ground
            (arith, get-remove (node_id keeper) n s.signer_by_node_id, get-remove i j s.by_signer)
    ]
  ]

  get_by_signer-insert_keeper :
      (i j : SignerIndex) (keeper : BlockKeeperData PubKey)
      → get_by_signer (insert_keeper s i keeper) j
        ≡ (if i == j then some keeper else get_by_signer s j)
  unfolding get_by_signer insert_keeper
  get_by_signer-insert_keeper i j keeper = get-insert i j keeper s.by_signer

  get_by_signer-remove_signer :
      (i j : SignerIndex)
      → get_by_signer (remove_signer s i).0 j ≡ (if i == j then none else get_by_signer s j)
  unfolding get_by_signer remove_signer
  get_by_signer-remove_signer i j = get-remove i j s.by_signer

-- When a keeper of a node is inserted, then another keeper of the same node under another signer
-- index, and then the first is removed, the second is still in the set under its signer index, but
-- its node is not found any more.
pub get_by_node_id-two_signers :
    {PubKey : Type 0} (s : BlockKeeperSet PubKey) (i j : SignerIndex)
    (first second : BlockKeeperData PubKey)
    → node_id first ≡ node_id second
    → (i == j) ≡ false
    → let after = (remove_signer (insert_keeper (insert_keeper s i first) j second) i).0 in
      (get_by_signer after j ≡ some second) × (get_by_node_id after (node_id second) ≡ none)
get_by_node_id-two_signers s i j first second same other =
    let one = insert_keeper s i first in
    let two = insert_keeper one j second in
    ground (
      arith,
      get_by_signer-insert_keeper s i i first,
      get_by_signer-insert_keeper one j i second,
      get_by_signer-insert_keeper one j j second,
      get_by_signer-remove_signer two i j,
      get_by_node_id-remove_signer two i (node_id second),
    )
