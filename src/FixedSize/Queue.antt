-- ===== src/FixedSize/Queue.antt =====
use mathlib.Core.List.{append-nil}
use ackinacki.Common.Assoc.{
  contains_key_lem, get-remove, get, get-insert, contains_key-remove, remove, contains_key-insert,
  insert, contains_key,
}
use ackinacki.FixedSize.{fixed_get, evict, fixed_insert, FixedSizeHashMap}
use ackinacki.Common.Ring.{from_place, tail, from_place-set, length-from_place}
use ackinacki.Common.{
  ◌==◌, ◌⊎◌, Option-cases, true, none, length-set, get_elem?-lt, inr, inl, Bool-cases, subst,
  length-append, dec_lt, ◌∙◌, sym, contains-append, ltb, contains, PartialEq, if◌then◌else◌, refl,
  ◌++◌, ap, ◌≤◌, length, get_elem?, ◌<◌, arith, ◌≡◌, ℕ, List, false, some, ◌∷◌, [],
}

-- The map of node/src/utilities/fixed_size_hash_map.rs as a queue of keys.

module _ {ℓ} {K : Type ℓ} ⦃e : PartialEq K⦄ where
  abbrev pub Distinct : List K → Type 0
  Distinct [] = Unit
  Distinct (x ∷ xs) = (contains x xs ≡ false) × Distinct xs

  -- The insertion of a key into a queue of bounded length.
  abbrev pub enqueue : ℕ → K → List K → List K
  enqueue capacity k q =
      if contains k q
      then q
      else if ltb (length q) capacity
      then q ++ (k ∷ [])
      else tail q ++ (k ∷ [])

  enqueue_new :
      (capacity : ℕ) (k : K) (q : List K)
      → contains k q ≡ false
      → length q < capacity
      → enqueue capacity k q ≡ q ++ (k ∷ [])
  enqueue_new capacity k q h lt = ground arith

  enqueue_full :
      (capacity : ℕ) (k : K) (q : List K)
      → contains k q ≡ false
      → capacity ≤ length q
      → enqueue capacity k q ≡ tail q ++ (k ∷ [])
  enqueue_full capacity k q h ge = ground arith

  Distinct-snoc :
      (xs : List K) (k : K) → Distinct xs → contains k xs ≡ false → Distinct (xs ++ (k ∷ []))
  Distinct-snoc [] k d h = (refl, tt)
  Distinct-snoc (x ∷ xs) k d h = (
    ground (arith, contains-append x xs (k ∷ []), e.beq_iff x k, e.beq_iff k x),
    Distinct-snoc xs k d.1 (ground arith),
  )

module _ {ℓ κ} {K : Type ℓ} {V : Type κ} ⦃e : PartialEq K⦄ where
  -- The keys from the oldest to the newest.
  abbrev pub queue : FixedSizeHashMap K V → List K
  queue m = from_place m.eviction_order_cursor m.eviction_order

  pub record IsFifo (m : FixedSizeHashMap K V) : Type (ℓ ⊔ κ) where
    pub fits : length m.eviction_order ≤ m.capacity
    pub at_start : length m.eviction_order < m.capacity → m.eviction_order_cursor ≡ 0
    pub in_range : 0 < m.capacity → m.eviction_order_cursor < m.capacity
    pub distinct : Distinct (queue m)
    pub held : (k : K) → contains_key k m.blocks ≡ contains k (queue m)

  -- What an insertion has to leave.
  abbrev Enqueues : FixedSizeHashMap K V → K → FixedSizeHashMap K V → Type (ℓ ⊔ κ)
  Enqueues m k next =
      IsFifo next × (queue next ≡ enqueue m.capacity k (queue m)) × (next.capacity ≡ m.capacity)

  module _ (m : FixedSizeHashMap K V) (k : K) (v : V) (h : IsFifo m)
      (is_new : contains_key k m.blocks ≡ false) where
    not_queued : contains k (queue m) ≡ false
    not_queued = sym (h.held k) ∙ is_new

    room_held :
        (j : K)
        → contains_key j m.blocks ≡ contains j m.eviction_order
        → contains_key j (insert k v m.blocks) ≡ contains j (m.eviction_order ++ (k ∷ []))
    room_held j held =
        ground
          (arith, contains_key-insert k j v m.blocks, contains-append j m.eviction_order (k ∷ []))

    room-Enqueues :
        length m.eviction_order < m.capacity
        → Enqueues m k (record m {
          blocks = insert k v m.blocks;
          eviction_order = m.eviction_order ++ (k ∷ []);
        })
    room-Enqueues room =
        let start : m.eviction_order_cursor ≡ 0 = h.at_start room in
        let before : queue m ≡ m.eviction_order = rw start (append-nil m.eviction_order) in
        let after : from_place m.eviction_order_cursor (m.eviction_order ++ (k ∷ []))
            ≡ m.eviction_order ++ (k ∷ []) =
          rw start (append-nil (m.eviction_order ++ (k ∷ []))) in
        (
          record {
            fits = omega (arith, length-append m.eviction_order (k ∷ []));
            at_start = λ lt. start;
            in_range = h.in_range;
            distinct = rw after (
                Distinct-snoc m.eviction_order k (rw before at h.distinct)
                  (rw before at not_queued));
            held = λ j. rw after (room_held j (rw before at h.held j));
          },
          after
              ∙ sym (ap (λ q. q ++ (k ∷ [])) before)
              ∙ sym (
                  enqueue_new m.capacity k (queue m) not_queued
                    (omega (arith, length-from_place m.eviction_order_cursor m.eviction_order))),
          refl,
        )

    full_held :
        (x : K) (rest : List K) (j : K)
        → contains x rest ≡ false
        → contains_key j m.blocks ≡ contains j (x ∷ rest)
        → contains_key j (insert k v (remove x m.blocks)) ≡ contains j (rest ++ (k ∷ []))
    full_held x rest j d held = ground (
      arith,
      contains_key-insert k j v (remove x m.blocks),
      contains_key-remove x j m.blocks,
      contains-append j rest (k ∷ []),
      e.beq_iff x j,
    )

    full-Enqueues :
        (x : K)
        → m.capacity ≤ length m.eviction_order
        → get_elem? m.eviction_order m.eviction_order_cursor ≡ some x
        → m.eviction_order_cursor < length m.eviction_order
        → Enqueues m k (evict m x k v)
    unfolding evict
    full-Enqueues x full at lt =
        let (front, moved) = from_place-set m.eviction_order m.eviction_order_cursor x k at lt in
        let size : length m.eviction_order ≡ m.capacity = omega (arith, h.fits) in
        let rest = tail (queue m) in
        let after = rw size at moved in
        let distinct : Distinct (x ∷ rest) = subst Distinct front h.distinct in
        let is_new_in : contains k (x ∷ rest) ≡ false =
          subst (λ q. contains k q ≡ false) front not_queued in
        (
          record {
            fits = omega (arith, length-set m.eviction_order m.eviction_order_cursor k);
            at_start = λ few.
                absurd (omega (arith, length-set m.eviction_order m.eviction_order_cursor k));
            in_range = λ pos. ground (arith);
            distinct = rw after (Distinct-snoc rest k distinct.1 (ground arith));
            held = λ j. rw after (full_held x rest j distinct.0 (h.held j ∙ ap (contains j) front));
          },
          after
              ∙ sym (
                  enqueue_full m.capacity k (queue m) not_queued
                    (omega (arith, length-from_place m.eviction_order_cursor m.eviction_order))),
          refl,
        )

  -- The values that an insertion leaves: that of the new key, and those of the keys that stay.
  abbrev pub HasValues : FixedSizeHashMap K V → K → V → FixedSizeHashMap K V → Type (ℓ ⊔ κ)
  HasValues m k v next =
      (j : K)
      → fixed_get next j
        ≡ (if k == j then some v else if contains j (queue next) then fixed_get m j else none)

  IsInserted-HasValues :
      (m next : FixedSizeHashMap K V) (k : K) (v : V)
      → IsFifo next
      → ((j : K)
          → (fixed_get next j ≡ (if k == j then some v else fixed_get m j))
            ⊎ (((k == j) ≡ false) × (fixed_get next j ≡ none)))
      → HasValues m k v next
  unfolding fixed_get
  IsInserted-HasValues m next k v h values j = elim (Bool-cases (k == j)) [
    | inl same ↦ ground (arith, values j)
    | inr other ↦ elim (Option-cases (get j next.blocks)) [
      | inl e ↦ ground (arith, values j, h.held j, contains_key_lem j next.blocks)
      | inr (w, e) ↦ ground (arith, values j, h.held j, contains_key_lem j next.blocks)
    ]
  ]

  evict-values :
      (m : FixedSizeHashMap K V) (x k : K) (v : V) (j : K)
      → (fixed_get (evict m x k v) j ≡ (if k == j then some v else fixed_get m j))
        ⊎ (((k == j) ≡ false) × (fixed_get (evict m x k v) j ≡ none))
  unfolding fixed_get evict
  evict-values m x k v j =
      ground (arith, get-insert k j v (remove x m.blocks), get-remove x j m.blocks)

  -- The map is a queue of its keys: an insertion into a map of capacity above 0 returns. A key that is
  -- there leaves the map as it is. A new key is enqueued as the newest with its value, when the map is
  -- full the oldest key makes room, and the keys that stay keep their values.
  pub fixed_insert-enqueue :
      (m : FixedSizeHashMap K V) (k : K) (v : V)
      → 0 < m.capacity
      → IsFifo m
      → (next : FixedSizeHashMap K V) × (fixed_insert m k v ≡ some next)
        × IsFifo next
        × (queue next ≡ enqueue m.capacity k (queue m))
        × (next.capacity ≡ m.capacity)
        × (((contains_key k m.blocks ≡ true) × (next ≡ m))
            ⊎ ((contains_key k m.blocks ≡ false) × HasValues m k v next))
  unfolding fixed_insert fixed_get
  fixed_insert-enqueue m k v pos h = elim (Bool-cases (contains_key k m.blocks)) [
    | inl there ↦ (m, ground arith, h, ground (arith, h.held k), refl, inl (there, refl))
    | inr is_new ↦ elim (dec_lt (length m.eviction_order) m.capacity) [
      | yes room ↦
          let (fifo, queued, same) = room-Enqueues m k v h is_new room in
          (
            record m {
              blocks = insert k v m.blocks;
              eviction_order = m.eviction_order ++ (k ∷ []);
            },
            ground arith,
            fifo,
            queued,
            same,
            inr (is_new, IsInserted-HasValues m _ k v fifo (λ j. inl (get-insert k j v m.blocks))),
          )
      | no full ↦
          let lt : m.eviction_order_cursor < length m.eviction_order =
            omega (arith, h.in_range pos) in
          let (x, at) = get_elem?-lt m.eviction_order m.eviction_order_cursor lt in
          let (fifo, queued, same) = full-Enqueues m k v h is_new x (omega arith) at lt in
          (
            evict m x k v,
            ground arith,
            fifo,
            queued,
            same,
            inr (is_new, IsInserted-HasValues m (evict m x k v) k v fifo (evict-values m x k v)),
          )
    ]
  ]
