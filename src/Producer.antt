-- ===== src/Producer.antt =====
-- node/src/types/bp_selector.rs: which block keeper produces blocks.
pub mod Distance
mod Examples
use ackinacki.BlockKeepers.{bk_set_len, iter_node_ids, BlockKeeperSet}
use ackinacki.Types.{NodeIdentifier, BlockIdentifier}
use mathlib.Core.Option
use ackinacki.Common.{
  ◌-◌, get_elem?, leb, ltb, nat_eq, ◌%◌, length, ◌+◌, ◌==◌, if◌then◌else◌, PartialEq, arith, ℕ,
  Option, List, Bool, false, some, none, ◌∷◌, [],
}

pub record ProducerSelector : Type 0 where
  pub rng_seed_block_id : BlockIdentifier
  pub index : ℕ

-- The shuffle of a list by a generator that starts from a block's identifier: `SmallRng` and
-- `SliceRandom` are of the crate rand.
abbrev pub Shuffle : Type 0
Shuffle = BlockIdentifier → List NodeIdentifier → List NodeIdentifier

-- `find_position`
pub find_position {ℓ} : {A : Type ℓ} ⦃e : PartialEq A⦄ → A → List A → Option ℕ
find_position a [] = none
find_position a (x ∷ xs) =
    let later = find_position a xs in if x == a then some 0 else Option.map (λ n. n + 1) later

module _ {PubKey : Type 0} (shuffle : Shuffle) where
  -- `none` is the error of an index out of bounds.
  pub get_producer_node_id : ProducerSelector → BlockKeeperSet PubKey → Option NodeIdentifier
  get_producer_node_id p bk_set =
      let node_id_list = shuffle p.rng_seed_block_id (iter_node_ids bk_set) in
      if ltb p.index (length node_id_list) then get_elem? node_id_list p.index else none

  pub is_node_bp : ProducerSelector → BlockKeeperSet PubKey → NodeIdentifier → Option Bool
  unfolding get_producer_node_id
  is_node_bp p bk_set node_id = Option.map (λ n. n == node_id) (get_producer_node_id p bk_set)

  pub get_distance_from_bp : ProducerSelector → BlockKeeperSet PubKey → NodeIdentifier → Option ℕ
  unfolding find_position
  get_distance_from_bp p bk_set node_id =
      let total_bk_cnt = length (iter_node_ids bk_set) in
      if leb total_bk_cnt p.index
      then none
      else elim (find_position node_id (shuffle p.rng_seed_block_id (iter_node_ids bk_set))) [
        | none ↦ none
        | some position ↦
            some (
              if leb p.index position
              then position - p.index
              else total_bk_cnt - p.index + position)
      ]

  -- The remainder is taken by `bk_set.len()`, the number of signers.
  pub check_whether_this_node_is_bp_based_on_bk_set_and_index_offset :
      ProducerSelector → BlockKeeperSet PubKey → NodeIdentifier → ℕ → Bool
  unfolding get_distance_from_bp
  check_whether_this_node_is_bp_based_on_bk_set_and_index_offset p bk_set node_id offset =
      elim (get_distance_from_bp p bk_set node_id) [
        | none ↦ false
        | some distance ↦ distance == offset % bk_set_len bk_set
      ]

-- `none` is the panic of a remainder by zero. The sum is of usizes, and is not near their bound.
pub move_index : ProducerSelector → ℕ → ℕ → Option ProducerSelector
move_index p diff bk_set_size =
    if bk_set_size == 0 then none else some (record p { index = (p.index + diff) % bk_set_size })
