-- ===== src/BlockKeepers/Keys.antt =====
-- The table of public keys of node/src/block_keeper_system/mod.rs is that of the keepers.
use ackinacki.Common.Assoc.{get-remove, get-insert, get}
use ackinacki.Types.{SignerIndex}
use ackinacki.BlockKeepers.{
  contains_signer, future_block_keeper_added, block_keeper_added, block_keeper_removed,
  BlockKeeperSetChange, update_block_keeper_set_from_common_section, apply_future, apply_added,
  apply_removed, remove_signer, insert_keeper, BlockKeeperSet, BlockKeeperData,
}
use ackinacki.Common.{
  nat_eq, if◌then◌else◌, arith, ◌≡◌, Option, List, Bool, false, true, some, none, ◌∷◌, [],
}

module _ {PubKey : Type 0} where
  abbrev pub pubkey_of : Option (BlockKeeperData PubKey) → Option PubKey
  pubkey_of none = none
  pubkey_of (some keeper) = some keeper.pubkey

  -- `signer_to_pubkey` has the key of each keeper, and no other.
  abbrev pub HasPubkeys : BlockKeeperSet PubKey → Type 0
  HasPubkeys s = (i : SignerIndex) → get i s.signer_to_pubkey ≡ pubkey_of (get i s.by_signer)

  pub insert_keeper-HasPubkeys :
      (s : BlockKeeperSet PubKey) (j : SignerIndex) (keeper : BlockKeeperData PubKey)
      → HasPubkeys s
      → HasPubkeys (insert_keeper s j keeper)
  unfolding insert_keeper
  insert_keeper-HasPubkeys s j keeper h i = ground (
    arith,
    h i,
    get-insert j i keeper.pubkey s.signer_to_pubkey,
    get-insert j i keeper s.by_signer,
  )

  remove_signer-HasPubkeys :
      (s : BlockKeeperSet PubKey) (j : SignerIndex)
      → HasPubkeys s
      → HasPubkeys (remove_signer s j).0
  unfolding remove_signer
  remove_signer-HasPubkeys s j h i =
      ground (arith, h i, get-remove j i s.signer_to_pubkey, get-remove j i s.by_signer)

  apply_removed-HasPubkeys :
      (changes : List (BlockKeeperSetChange PubKey)) (s : BlockKeeperSet PubKey)
      → HasPubkeys s
      → HasPubkeys (apply_removed changes s)
  unfolding apply_removed
  apply_removed-HasPubkeys [] s h = h
  apply_removed-HasPubkeys (block_keeper_removed j keeper ∷ changes) s h =
      apply_removed-HasPubkeys changes (remove_signer s j).0 (remove_signer-HasPubkeys s j h)
  apply_removed-HasPubkeys (block_keeper_added j keeper ∷ changes) s h =
      apply_removed-HasPubkeys changes s h
  apply_removed-HasPubkeys (future_block_keeper_added j keeper ∷ changes) s h =
      apply_removed-HasPubkeys changes s h

  forget-HasPubkeys :
      (b : Bool) (s : BlockKeeperSet PubKey) (j : SignerIndex)
      → HasPubkeys s
      → HasPubkeys (if b then (remove_signer s j).0 else s)
  forget-HasPubkeys true s j h = remove_signer-HasPubkeys s j h
  forget-HasPubkeys false s j h = h

  apply_added-HasPubkeys :
      (changes : List (BlockKeeperSetChange PubKey)) (s future : BlockKeeperSet PubKey)
      → HasPubkeys s
      → HasPubkeys future
      → HasPubkeys (apply_added changes s future).0 × HasPubkeys (apply_added changes s future).1
  unfolding apply_added
  apply_added-HasPubkeys [] s future h f = (h, f)
  apply_added-HasPubkeys (block_keeper_added j keeper ∷ changes) s future h f =
      apply_added-HasPubkeys changes (insert_keeper s j keeper)
        (if contains_signer future j then (remove_signer future j).0 else future)
        (insert_keeper-HasPubkeys s j keeper h)
        (forget-HasPubkeys (contains_signer future j) future j f)
  apply_added-HasPubkeys (block_keeper_removed j keeper ∷ changes) s future h f =
      apply_added-HasPubkeys changes s future h f
  apply_added-HasPubkeys (future_block_keeper_added j keeper ∷ changes) s future h f =
      apply_added-HasPubkeys changes s future h f

  apply_future-HasPubkeys :
      (changes : List (BlockKeeperSetChange PubKey)) (s : BlockKeeperSet PubKey)
      → HasPubkeys s
      → HasPubkeys (apply_future changes s)
  unfolding apply_future
  apply_future-HasPubkeys [] s h = h
  apply_future-HasPubkeys (future_block_keeper_added j keeper ∷ changes) s h =
      apply_future-HasPubkeys changes (insert_keeper s j keeper)
        (insert_keeper-HasPubkeys s j keeper h)
  apply_future-HasPubkeys (block_keeper_added j keeper ∷ changes) s h =
      apply_future-HasPubkeys changes s h
  apply_future-HasPubkeys (block_keeper_removed j keeper ∷ changes) s h =
      apply_future-HasPubkeys changes s h

  update_some :
      (changes : List (BlockKeeperSetChange PubKey))
      (current future next next_future : BlockKeeperSet PubKey)
      → update_block_keeper_set_from_common_section changes current future
        ≡ some (next, next_future)
      → (next ≡ (apply_added changes (apply_removed changes current) future).0)
        × (next_future
            ≡ apply_future changes (apply_added changes (apply_removed changes current) future).1)
  unfolding update_block_keeper_set_from_common_section
  update_some changes current future next next_future e = ground arith

  -- If both sets have the public key of each of their keepers and no other, they still do after the
  -- changes of a block.
  pub update-HasPubkeys :
      (changes : List (BlockKeeperSetChange PubKey))
      (current future next next_future : BlockKeeperSet PubKey)
      → HasPubkeys current
      → HasPubkeys future
      → update_block_keeper_set_from_common_section changes current future
        ≡ some (next, next_future)
      → HasPubkeys next × HasPubkeys next_future
  update-HasPubkeys changes current future next next_future h f e =
      let added =
        apply_added-HasPubkeys changes (apply_removed changes current) future
          (apply_removed-HasPubkeys changes current h) f in
      let (n, m) = update_some changes current future next next_future e in
      (rw n added.0, rw m (apply_future-HasPubkeys changes _ added.1))
