-- ===== src/Producer/Examples.antt =====
-- Producers of node/src/types/bp_selector.rs at concrete inputs, with a shuffle that turns the list.
use ackinacki.BlockKeepers.{iter_node_ids, active, BlockKeeperSet, BlockKeeperData}
use ackinacki.Producer.Distance.{move_index-get_distance_from_bp, Shuffles}
use ackinacki.Types.{NodeIdentifier}
use ackinacki.Producer.{
  get_producer_node_id, move_index, find_position, get_distance_from_bp, ProducerSelector, Shuffle,
}
use mathlib.Core.List.{reverse-cons}
use ackinacki.Common.{
  ◌<◌, contains-append, length-append, contains, length, reverse, arith, ◌≡◌, ℕ, List, some, none,
  ◌∷◌, [], nat_eq, refl,
}

abbrev turn : Shuffle
turn seed l = reverse l

length-reverse : (l : List NodeIdentifier) → length (reverse l) ≡ length l
length-reverse [] = refl
length-reverse (x ∷ l) =
    rw (reverse-cons x l) (omega (arith, length-append (reverse l) (x ∷ []), length-reverse l))

contains-reverse :
    (n : NodeIdentifier) (l : List NodeIdentifier) → contains n (reverse l) ≡ contains n l
contains-reverse n [] = refl
contains-reverse n (x ∷ l) =
    rw (reverse-cons x l)
      (ground (arith, contains-append n (reverse l) (x ∷ []), contains-reverse n l))

turn-Shuffles : Shuffles turn
turn-Shuffles = record {
  same_length = λ seed l. length-reverse l;
  same_elements = λ seed l n. contains-reverse n l;
}

abbrev keeper : ℕ → BlockKeeperData ℕ
keeper node = record {
  pubkey = node;
  epoch_finish_seq_no = none;
  status = active;
  address = 0;
  stake = 100;
  owner_address = node;
  signer_index = 0;
  owner_pubkey = node;
}

abbrev keepers : BlockKeeperSet ℕ
keepers = record {
  by_signer = (1, keeper 70) ∷ (2, keeper 71) ∷ (3, keeper 72) ∷ [];
  signer_to_pubkey = (1, 70) ∷ (2, 71) ∷ (3, 72) ∷ [];
  signer_by_node_id = (70, 1) ∷ (71, 2) ∷ (72, 3) ∷ [];
}

abbrev selector : ProducerSelector
selector = record { rng_seed_block_id = 9; index = 2 }

move_index-get_distance_from_bp_example :
    (1 < length (iter_node_ids keepers))
    × (q : ProducerSelector) × (move_index selector 1 (length (iter_node_ids keepers)) ≡ some q)
    × (get_producer_node_id turn q keepers ≡ some 72)
unfolding get_distance_from_bp find_position iter_node_ids
move_index-get_distance_from_bp_example =
    move_index-get_distance_from_bp turn turn-Shuffles selector keepers 72 1 refl
