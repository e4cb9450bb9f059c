-- ===== src/Producer/Distance.antt =====
-- The distance of a node from the producer: node/src/types/bp_selector.rs.
use ackinacki.BlockKeepers.{bk_set_len, iter_node_ids, BlockKeeperSet}
use native.Mathlib.Nat.{mod-eq_of_lt, add-mod_right, add-mod-mod}
use ackinacki.Common.Assoc.{is_some}
use ackinacki.Types.{NodeIdentifier, BlockIdentifier}
use ackinacki.Producer.{
  check_whether_this_node_is_bp_based_on_bk_set_and_index_offset, bk_set_len, move_index,
  get_producer_node_id, get_distance_from_bp, ProducerSelector, find_position, Shuffle,
}
use ackinacki.Common.{
  ◌&&◌, leb, ltb, if◌then◌else◌, ◌%◌, ◌-◌, ◌+◌, ◌≤◌, ◌∙◌, ap, Option-cases, inr, inl, nat_eq,
  ==_cases, get_elem?, contains, ◌<◌, length, suc, arith, ◌≡◌, ℕ, List, true, some, ◌∷◌, [],
}

-- What the shuffle is documented to do: the list keeps its length and its elements.
pub record Shuffles (shuffle : Shuffle) : Type 0 where
  pub same_length :
      (seed : BlockIdentifier) (l : List NodeIdentifier) → length (shuffle seed l) ≡ length l
  pub same_elements :
      (seed : BlockIdentifier) (l : List NodeIdentifier) (n : NodeIdentifier)
      → contains n (shuffle seed l) ≡ contains n l

find_position-found :
    (n : NodeIdentifier) (l : List NodeIdentifier) (k : ℕ)
    → find_position n l ≡ some k
    → (k < length l) × (get_elem? l k ≡ some n)
unfolding find_position
find_position-found n [] k h = absurd (ground arith)
find_position-found n (x ∷ l) k h = elim (==_cases x n) [
  | inl (same, t) ↦ ground arith
  | inr (other, f) ↦ elim (Option-cases (find_position n l)) [
    | inl absent ↦ absurd (ground arith)
    | inr (j, found) ↦
        let next : k ≡ suc j = ground arith in
        let (lt, at) = find_position-found n l j found in
        (omega arith, ap (get_elem? (x ∷ l)) next ∙ at)
  ]
]

find_position-contains :
    (n : NodeIdentifier) (l : List NodeIdentifier) → is_some (find_position n l) ≡ contains n l
unfolding find_position
find_position-contains n [] = ground arith
find_position-contains n (x ∷ l) = ground (arith, find_position-contains n l)

-- Around a ring of n places.
ring_ahead : (n i p : ℕ) → i < n → p < n → i ≤ p → (i + (p - i)) % n ≡ p
ring_ahead n i p hi hp h = let sum : i + (p - i) ≡ p = omega arith in rw sum (mod-eq_of_lt hp)

ring_behind : (n i p : ℕ) → i < n → p < n → (i + (n - i + p)) % n ≡ p
ring_behind n i p hi hp =
    let sum : i + (n - i + p) ≡ p + n = omega arith in rw sum (add-mod_right p n ∙ mod-eq_of_lt hp)

module _ {PubKey : Type 0} (shuffle : Shuffle) (documented : Shuffles shuffle)
    (p : ProducerSelector) (bk_set : BlockKeeperSet PubKey) where
  abbrev nodes : List NodeIdentifier
  nodes = iter_node_ids bk_set

  abbrev shuffled : List NodeIdentifier
  shuffled = shuffle p.rng_seed_block_id nodes

  -- Where the position is known, the distance from the index, around the ring.
  distance_position :
      (n : NodeIdentifier) (d : ℕ)
      → get_distance_from_bp shuffle p bk_set n ≡ some d
      → (p.index < length nodes)
        × (k : ℕ) × (find_position n shuffled ≡ some k)
        × (d ≡ (if leb p.index k then k - p.index else length nodes - p.index + k))
  unfolding get_distance_from_bp
  distance_position n d h = elim (Option-cases (find_position n shuffled)) [
    | inl absent ↦ absurd (ground arith)
    | inr (k, found) ↦ (ground arith, k, found, ground arith)
  ]

  producer_at :
      (k : ℕ) (n : NodeIdentifier)
      → k < length nodes
      → get_elem? shuffled k ≡ some n
      → get_producer_node_id shuffle (record p { index = k }) bk_set ≡ some n
  unfolding get_producer_node_id
  producer_at k n lt at = ground (arith, documented.same_length p.rng_seed_block_id nodes)

  -- A node at the distance `d` from the producer is fewer steps away than there are nodes, and it is
  -- the producer once the index has moved `d` steps on.
  pub move_index-get_distance_from_bp :
      (n : NodeIdentifier) (d : ℕ)
      → get_distance_from_bp shuffle p bk_set n ≡ some d
      → (d < length (iter_node_ids bk_set))
        × (q : ProducerSelector) × (move_index p d (length (iter_node_ids bk_set)) ≡ some q)
        × (get_producer_node_id shuffle q bk_set ≡ some n)
  unfolding move_index
  move_index-get_distance_from_bp n d h =
      let (in_range, k, found, is_distance) = distance_position n d h in
      let (lt, at) = find_position-found n shuffled k found in
      let same = documented.same_length p.rng_seed_block_id nodes in
      let place : (p.index + d) % length nodes ≡ k = ground (
        arith,
        ring_ahead (length nodes) p.index k in_range (omega (arith, same)),
        ring_behind (length nodes) p.index k in_range (omega (arith, same)),
      ) in
      (
        ground (arith, same),
        record p { index = (p.index + d) % length nodes },
        ground arith,
        rw place (producer_at k n (omega (arith, same)) at),
      )

  -- A distance is known exactly for the nodes of the set, as long as the index is in range; no node has
  -- one otherwise.
  pub get_distance_from_bp-total :
      (n : NodeIdentifier)
      → is_some (get_distance_from_bp shuffle p bk_set n)
        ≡ (ltb p.index (length (iter_node_ids bk_set)) && contains n (iter_node_ids bk_set))
  unfolding get_distance_from_bp
  get_distance_from_bp-total n = ground (
    arith,
    find_position-contains n shuffled,
    documented.same_elements p.rng_seed_block_id nodes n,
  )

  check_distance :
      (n : NodeIdentifier) (offset : ℕ)
      → check_whether_this_node_is_bp_based_on_bk_set_and_index_offset shuffle p bk_set n offset
        ≡ true
      → get_distance_from_bp shuffle p bk_set n ≡ some (offset % bk_set_len bk_set)
  unfolding check_whether_this_node_is_bp_based_on_bk_set_and_index_offset
  check_distance n offset h = elim (Option-cases (get_distance_from_bp shuffle p bk_set n)) [
    | inl absent ↦ absurd (ground arith)
    | inr (d, found) ↦ ground arith
  ]

  -- In a set that has as many nodes as signers, a node that passes the check for an offset is the
  -- producer once the index has moved by that offset, however large the offset is.
  pub check-get_producer_node_id :
      (n : NodeIdentifier) (offset : ℕ)
      → bk_set_len bk_set ≡ length (iter_node_ids bk_set)
      → check_whether_this_node_is_bp_based_on_bk_set_and_index_offset shuffle p bk_set n offset
        ≡ true
      → (q : ProducerSelector) × (move_index p offset (length (iter_node_ids bk_set)) ≡ some q)
        × (get_producer_node_id shuffle q bk_set ≡ some n)
  unfolding move_index
  check-get_producer_node_id n offset same h =
      let (lt, q, moved, producer) =
        move_index-get_distance_from_bp n (offset % length nodes)
          (rw same at check_distance n offset h) in
      (q, rw (add-mod-mod p.index offset (length nodes)) at moved, producer)
