-- ===== src/BlockKeepers/Examples.antt =====
-- Block keepers of node/src/block_keeper_system at concrete inputs.
use ackinacki.BlockKeepers.Members.{contains_signer-update, adds_future, adds, removes}
use ackinacki.BlockKeepers.Nodes.{get_by_node_id-two_signers}
use ackinacki.Common.Assoc.{get}
use ackinacki.BlockKeepers.Keys.{update-HasPubkeys, insert_keeper-HasPubkeys, HasPubkeys}
use ackinacki.BlockKeepers.{
  future_block_keeper_added, get_by_signer, apply_removed, block_keeper_removed, remove_signer,
  apply_future, apply_added, block_keeper_added, insert_keeper, active, node_id, get_by_node_id,
  new_bk_set, contains_signer, update_block_keeper_set_from_common_section, BlockKeeperSetChange,
  BlockKeeperSet, BlockKeeperData,
}
use ackinacki.Common.{◌||◌, any, not, ◌&&◌, ◌≡◌, ℕ, List, some, none, ◌∷◌, [], nat_eq, refl}

abbrev keeper : ℕ → ℕ → BlockKeeperData ℕ
keeper node key = record {
  pubkey = key;
  epoch_finish_seq_no = none;
  status = active;
  address = 0;
  stake = 100;
  owner_address = node;
  signer_index = 0;
  owner_pubkey = key;
}

abbrev nobody : BlockKeeperSet ℕ
nobody = new_bk_set

abbrev current : BlockKeeperSet ℕ
current = insert_keeper (insert_keeper new_bk_set 1 (keeper 70 10)) 2 (keeper 71 20)

abbrev changes : List (BlockKeeperSetChange ℕ)
changes =
    block_keeper_added 3 (keeper 72 30)
    ∷ block_keeper_removed 1 (keeper 70 10)
    ∷ future_block_keeper_added 4 (keeper 73 40)
    ∷ []

abbrev next : BlockKeeperSet ℕ
next = (apply_added changes (apply_removed changes current) nobody).0

abbrev next_future : BlockKeeperSet ℕ
next_future = apply_future changes (apply_added changes (apply_removed changes current) nobody).1

updated :
    update_block_keeper_set_from_common_section changes current nobody ≡ some (next, next_future)
unfolding update_block_keeper_set_from_common_section
updated = refl

contains_signer-update_example :
    (contains_signer next 1
      ≡ ((contains_signer current 1 && not (any (removes 1) changes)) || any (adds 1) changes))
    × (contains_signer next_future 1
        ≡ ((contains_signer nobody 1 && not (any (adds 1) changes)) || any (adds_future 1) changes))
contains_signer-update_example =
    contains_signer-update changes current nobody next next_future 1 updated

empty-HasPubkeys : HasPubkeys nobody
unfolding new_bk_set get
empty-HasPubkeys i = refl

current-HasPubkeys : HasPubkeys current
current-HasPubkeys =
    insert_keeper-HasPubkeys (insert_keeper new_bk_set 1 (keeper 70 10)) 2 (keeper 71 20)
      (insert_keeper-HasPubkeys new_bk_set 1 (keeper 70 10) empty-HasPubkeys)

update-HasPubkeys_example : HasPubkeys next × HasPubkeys next_future
update-HasPubkeys_example =
    update-HasPubkeys changes current nobody next next_future current-HasPubkeys empty-HasPubkeys
      updated

get_by_node_id-two_signers_example :
    let after =
      (remove_signer (insert_keeper (insert_keeper current 5 (keeper 80 1)) 6 (keeper 80 2)) 5).0 in
    (get_by_signer after 6 ≡ some (keeper 80 2))
    × (get_by_node_id after (node_id (keeper 80 2)) ≡ none)
unfolding node_id
get_by_node_id-two_signers_example =
    get_by_node_id-two_signers current 5 6 (keeper 80 1) (keeper 80 2) refl refl
