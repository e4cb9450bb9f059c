-- ===== src/BlockKeepers/Members.antt =====
-- Who is a block keeper after an update: node/src/block_keeper_system.
use ackinacki.Common.Assoc.{contains_key-remove, contains_key-insert}
use ackinacki.BlockKeepers.{
  BlockKeeperData, BlockKeeperSet, future_block_keeper_added, block_keeper_added,
  block_keeper_removed, remove_signer, insert_keeper, BlockKeeperSetChange,
  update_block_keeper_set_from_common_section, apply_future, apply_added, apply_removed,
  contains_signer,
}
use ackinacki.Types.{SignerIndex}
use ackinacki.Common.{
  if◌then◌else◌, nat_eq, any, ◌||◌, ◌&&◌, not, ◌==◌, arith, ◌≡◌, List, Bool, false, some, ◌∷◌, [],
}

module _ {PubKey : Type 0} where
  abbrev pub removes : SignerIndex → BlockKeeperSetChange PubKey → Bool
  removes i (block_keeper_removed j keeper) = j == i
  removes i (block_keeper_added j keeper) = false
  removes i (future_block_keeper_added j keeper) = false

  abbrev pub adds : SignerIndex → BlockKeeperSetChange PubKey → Bool
  adds i (block_keeper_added j keeper) = j == i
  adds i (block_keeper_removed j keeper) = false
  adds i (future_block_keeper_added j keeper) = false

  abbrev pub adds_future : SignerIndex → BlockKeeperSetChange PubKey → Bool
  adds_future i (future_block_keeper_added j keeper) = j == i
  adds_future i (block_keeper_added j keeper) = false
  adds_future i (block_keeper_removed j keeper) = false

  contains_signer-insert_keeper :
      (s : BlockKeeperSet PubKey) (j i : SignerIndex) (keeper : BlockKeeperData PubKey)
      → contains_signer (insert_keeper s j keeper) i ≡ (j == i || contains_signer s i)
  unfolding contains_signer insert_keeper
  contains_signer-insert_keeper s j i keeper = contains_key-insert j i keeper s.by_signer

  contains_signer-remove_signer :
      (s : BlockKeeperSet PubKey) (j i : SignerIndex)
      → contains_signer (remove_signer s j).0 i ≡ (not (j == i) && contains_signer s i)
  unfolding contains_signer remove_signer
  contains_signer-remove_signer s j i = ground (arith, contains_key-remove j i s.by_signer)

  contains_signer-apply_removed :
      (changes : List (BlockKeeperSetChange PubKey)) (s : BlockKeeperSet PubKey) (i : SignerIndex)
      → contains_signer (apply_removed changes s) i
        ≡ (contains_signer s i && not (any (removes i) changes))
  unfolding apply_removed
  contains_signer-apply_removed [] s i = ground arith
  contains_signer-apply_removed (block_keeper_removed j keeper ∷ changes) s i = ground (
    arith,
    contains_signer-apply_removed changes (remove_signer s j).0 i,
    contains_signer-remove_signer s j i,
  )
  contains_signer-apply_removed (block_keeper_added j keeper ∷ changes) s i =
      contains_signer-apply_removed changes s i
  contains_signer-apply_removed (future_block_keeper_added j keeper ∷ changes) s i =
      contains_signer-apply_removed changes s i

  contains_signer-apply_added :
      (changes : List (BlockKeeperSetChange PubKey)) (s future : BlockKeeperSet PubKey)
      (i : SignerIndex)
      → (contains_signer (apply_added changes s future).0 i
          ≡ (contains_signer s i || any (adds i) changes))
        × (contains_signer (apply_added changes s future).1 i
            ≡ (contains_signer future i && not (any (adds i) changes)))
  unfolding apply_added
  contains_signer-apply_added [] s future i = ground arith
  contains_signer-apply_added (block_keeper_added j keeper ∷ changes) s future i = ground (
    arith,
    contains_signer-apply_added changes (insert_keeper s j keeper)
        (if contains_signer future j then (remove_signer future j).0 else future) i,
    contains_signer-insert_keeper s j i keeper,
    contains_signer-remove_signer future j i,
  )
  contains_signer-apply_added (block_keeper_removed j keeper ∷ changes) s future i =
      contains_signer-apply_added changes s future i
  contains_signer-apply_added (future_block_keeper_added j keeper ∷ changes) s future i =
      contains_signer-apply_added changes s future i

  contains_signer-apply_future :
      (changes : List (BlockKeeperSetChange PubKey)) (future : BlockKeeperSet PubKey)
      (i : SignerIndex)
      → contains_signer (apply_future changes future) i
        ≡ (contains_signer future i || any (adds_future i) changes)
  unfolding apply_future
  contains_signer-apply_future [] future i = ground arith
  contains_signer-apply_future (future_block_keeper_added j keeper ∷ changes) future i = ground (
    arith,
    contains_signer-apply_future changes (insert_keeper future j keeper) i,
    contains_signer-insert_keeper future j i keeper,
  )
  contains_signer-apply_future (block_keeper_added j keeper ∷ changes) future i =
      contains_signer-apply_future changes future i
  contains_signer-apply_future (block_keeper_removed j keeper ∷ changes) future i =
      contains_signer-apply_future changes future i

  -- After the changes of a block a signer is a keeper if the block adds it, or if it was one and the
  -- block does not remove it; whatever the order of the changes, an addition outweighs a removal. It
  -- is a future keeper if the block adds it as one, or if it was one and does not become a keeper.
  pub contains_signer-update :
      (changes : List (BlockKeeperSetChange PubKey))
      (current future next next_future : BlockKeeperSet PubKey) (i : SignerIndex)
      → update_block_keeper_set_from_common_section changes current future
        ≡ some (next, next_future)
      → (contains_signer next i
          ≡ ((contains_signer current i && not (any (removes i) changes)) || any (adds i) changes))
        × (contains_signer next_future i ≡ (
            (contains_signer future i && not (any (adds i) changes))
            || any (adds_future i) changes))
  unfolding update_block_keeper_set_from_common_section
  contains_signer-update changes current future next next_future i h = ground (
    arith,
    contains_signer-apply_removed changes current i,
    contains_signer-apply_added changes (apply_removed changes current) future i,
    contains_signer-apply_future changes
        (apply_added changes (apply_removed changes current) future).1 i,
  )
