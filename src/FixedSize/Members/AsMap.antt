-- ===== src/FixedSize/Members/AsMap.antt =====
use ackinacki.Common.Ring.{tail}
use ackinacki.FixedSize.Queue.{IsFifo, fixed_insert-enqueue, enqueue, queue}
use ackinacki.FixedSize.Members.{
  set_remove, new_set, contains_member, evict_member, insert_member, FixedSizeHashSet,
}
use ackinacki.FixedSize.{evict, new_fixed, fixed_contains_key, fixed_insert, FixedSizeHashMap}
use ackinacki.Common.Assoc.{remove, insert, contains_key, Assoc}
use ackinacki.Common.{
  subst, contains-append, ==_refl, subst, ◌<◌, Option-cases, ◌∙◌, sym, ℕ, refl, ap, get_elem?,
  PartialEq, arith, ◌≡◌, ◌==◌, ◌||◌, contains, Option, List, set_insert, some, none, ◌∷◌, [], ◌++◌,
  true, false, Bool-cases, inl, inr,
}
use mathlib.Core.Option

-- The set of node/src/utilities/fixed_size_hash_set.rs beside the map of
-- node/src/utilities/fixed_size_hash_map.rs.

module _ {ℓ} {T : Type ℓ} where
  pub keyed : List T → Assoc {ℓ, 0} T Unit
  keyed [] = []
  keyed (x ∷ xs) = (x, tt) ∷ keyed xs

  -- The set as a map to nothing.
  pub as_map : FixedSizeHashSet T → FixedSizeHashMap {ℓ, 0} T Unit
  unfolding keyed
  as_map s = record {
    capacity = s.capacity;
    blocks = keyed s.blocks;
    eviction_order = s.eviction_order;
    eviction_order_cursor = s.eviction_order_cursor;
  }

some_eq {ℓ} : {A : Type ℓ} {x y : A} → some x ≡ some y → x ≡ y
some_eq h = cc

module _ {ℓ} {T : Type ℓ} ⦃e : PartialEq T⦄ where
  contains_key-keyed : (x : T) (l : List T) → contains_key x (keyed l) ≡ contains x l
  unfolding contains_key keyed
  contains_key-keyed x [] = refl
  contains_key-keyed x (y ∷ l) = ap (λ r. y == x || r) (contains_key-keyed x l)

  remove-keyed : (x : T) (l : List T) → remove x (keyed l) ≡ keyed (set_remove x l)
  unfolding remove keyed set_remove
  remove-keyed x [] = refl
  remove-keyed x (y ∷ l) = ground (arith, remove-keyed x l)

  insert_new :
      (x : T) (l : List T) → contains x l ≡ false → insert x tt (keyed l) ≡ keyed (l ++ (x ∷ []))
  unfolding insert keyed
  insert_new x [] h = refl
  insert_new x (y ∷ l) h = ground (arith, insert_new x l)

  insert_twice : (x : T) (l : List T) → contains x l ≡ true → insert x tt (keyed l) ≡ keyed l
  unfolding insert keyed
  insert_twice x (y ∷ l) h = ground (arith, insert_twice x l, e.beq_iff y x)
  insert_twice x [] h = absurd (ground arith)

  insert-keyed : (x : T) (l : List T) → insert x tt (keyed l) ≡ keyed (set_insert x l)
  insert-keyed x l = elim (Bool-cases (contains x l)) [
    | inl old ↦ ground (arith, insert_twice x l)
    | inr fresh ↦ ground (arith, insert_new x l)
  ]

  evict-as_map :
      (s : FixedSizeHashSet T) (x id : T) → evict (as_map s) x id tt ≡ as_map (evict_member s x id)
  unfolding evict as_map evict_member
  evict-as_map s x id = rw (remove-keyed x s.blocks, insert-keyed id (set_remove x s.blocks)) refl

  grown :
      (s : FixedSizeHashSet T) (id : T)
      → record (as_map s) {
        blocks = insert id tt (keyed s.blocks);
        eviction_order = s.eviction_order ++ (id ∷ []);
      }
        ≡ as_map (record s {
          blocks = set_insert id s.blocks;
          eviction_order = s.eviction_order ++ (id ∷ []);
        })
  unfolding as_map
  grown s id = rw (insert-keyed id s.blocks) refl

  evict_at :
      (s : FixedSizeHashSet T) (id : T) (o : Option T)
      → Option.map (λ x. evict (as_map s) x id tt) o
        ≡ Option.map as_map (Option.map (λ x. evict_member s x id) o)
  evict_at s id none = refl
  evict_at s id (some x) = ap some (evict-as_map s x id)

  fixed_insert-as_map :
      (s : FixedSizeHashSet T) (id : T)
      → fixed_insert (as_map s) id tt ≡ Option.map as_map (insert_member s id)
  unfolding fixed_insert as_map insert_member
  fixed_insert-as_map s id = ground (
    arith,
    contains_key-keyed id s.blocks,
    grown s id,
    evict_at s id (get_elem? s.eviction_order s.eviction_order_cursor),
  )

  -- The set is the map of fixed size with no values: it starts as an empty map, it has a member when
  -- the map has the key, and an insertion panics when the map's does and otherwise leaves the set
  -- that the map's insertion leaves.
  pub insert_member-fixed_insert :
      (s : FixedSizeHashSet T) (id : T)
      → (fixed_insert (as_map s) id tt ≡ Option.map as_map (insert_member s id))
        × (fixed_contains_key (as_map s) id ≡ contains_member s id)
        × (as_map (new_set {T = T} s.capacity) ≡ new_fixed {K = T} s.capacity)
  unfolding fixed_insert as_map insert_member fixed_contains_key contains_member new_set new_fixed
  insert_member-fixed_insert s id = (fixed_insert-as_map s id, contains_key-keyed id s.blocks, refl)

  contains-enqueue : (capacity : ℕ) (k : T) (q : List T) → contains k (enqueue capacity k q) ≡ true
  contains-enqueue capacity k q =
      let now : (k == k) ≡ true = ==_refl k in
      ground (arith, now, contains-append k q (k ∷ []), contains-append k (tail q) (k ∷ []))

  -- The set is a queue of its members: an insertion into a set of capacity above 0 returns, and what was
  -- inserted is a member.
  pub insert_member-contains_member :
      (s : FixedSizeHashSet T) (id : T)
      → 0 < s.capacity
      → IsFifo (as_map s)
      → (next : FixedSizeHashSet T) × (insert_member s id ≡ some next)
        × IsFifo (as_map next)
        × (contains_member next id ≡ true)
        × (next.capacity ≡ s.capacity)
  unfolding as_map contains_member
  insert_member-contains_member s id room h =
      let (m, made, fifo, queued, capacity, _) = fixed_insert-enqueue (as_map s) id tt room h in
      elim (Option-cases (insert_member s id)) [
        | inl missing ↦ cc (fixed_insert-as_map s id, made, ap (Option.map as_map) missing)
        | inr (next, found) ↦
            let same : as_map next ≡ m =
              some_eq
                (sym (ap (Option.map as_map) found) ∙ sym (fixed_insert-as_map s id) ∙ made) in
            let is_fifo = subst IsFifo (sym same) fifo in
            let there : contains id (queue (as_map next)) ≡ true =
              ap (λ r. contains id (queue r)) same
              ∙ ap (contains id) queued
              ∙ contains-enqueue s.capacity id (queue (as_map s)) in
            (
              next,
              found,
              is_fifo,
              sym (contains_key-keyed id next.blocks) ∙ is_fifo.held id ∙ there,
              ap (λ r. r.capacity) same ∙ capacity,
            )
      ]

  pub new_set-IsFifo : (capacity : ℕ) → IsFifo (as_map (new_set {T = T} capacity))
  unfolding as_map new_set contains_key
  new_set-IsFifo capacity = record {
    fits = omega arith;
    at_start = λ h. refl;
    in_range = λ h. h;
    distinct = tt;
    held = λ k. refl;
  }
