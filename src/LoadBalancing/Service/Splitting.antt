-- ===== src/LoadBalancing/Service/Splitting.antt =====
use ackinacki.Common.Assoc.{get}
use mathlib.Core.Option
use ackinacki.Routing.Address.{AccountRouting, routing_bits}
use ackinacki.Routing.Bitmask.{mask_eq, Bitmask}
use ackinacki.Routing.Table.{remove, insert_above, len}
use ackinacki.Types.{ThreadIdentifier, BlockIdentifier}
use ackinacki.Identity.{new_thread_identifier}
use ackinacki.LoadBalancing.Accounts.{best_split}
use ackinacki.LoadBalancing.Aggregated.{AggregatedLoad, propose_new_bitmask}
use ackinacki.LoadBalancing.Service.{
  unless_balanced, is_balanced, Features, ThreadAction, split, collapse, ThreadsTable,
  LoadBalancingService, CheckError, Scan, try_threads_merge, proposal, propose_split,
  split_or_panic, try_threads_split, split_this, decide, max_load_disproportion,
}
use ackinacki.Common.{
  leb, ◌==◌, Result-cases, ltb, any, ◌≢◌, ◌*◌, ◌⊎◌, ◌<◌, ltb→ge, ◌≤◌, length, err, ok, Result, inr,
  inl, Bool-cases, refl, arith, ◌≡◌, ℕ, Option, some, none, nat_eq,
}

-- When a check of load_balancing_service/mod.rs proposes a split, and what the proposed table does.

proposal-split :
    {E : Type 0} (r : Result E ThreadsTable) (t : ThreadsTable)
    → proposal split r ≡ some (split t)
    → r ≡ ok t
proposal-split (ok u) t e = ground arith
proposal-split (err e) t h = cc

proposal-collapse :
    {A E : Type 0} (f : A → ThreadsTable) (r : Result E A) (t : ThreadsTable)
    → proposal (λ x. collapse (f x)) r ≢ some (split t)
proposal-collapse f (ok u) t e = cc
proposal-collapse f (err e) t h = cc

map_ok :
    (f : ThreadAction → LoadBalancingService) (o : Option ThreadAction) (t : ThreadsTable)
    (s : LoadBalancingService)
    → Option.map {B = Result CheckError ThreadAction × LoadBalancingService}
        (λ action. (ok action, f action))
        o
      ≡ some (ok (split t), s)
    → o ≡ some (split t)
map_ok f none t s e = cc
map_ok f (some action) t s e = ground arith

module _ (features : Features) (block : BlockIdentifier) (this : ThreadIdentifier)
    (table t : ThreadsTable) (k : ℕ) where
  abbrev Inserts : Bitmask AccountRouting → Type 0
  Inserts new = insert_above table k new (new_thread_identifier block 0) ≡ ok t

  merge-split :
      (min_thread : ThreadIdentifier) (pre : Option ThreadIdentifier) (last : ThreadIdentifier)
      → try_threads_merge features this k min_thread pre last table ≢ some (split t)
  unfolding try_threads_merge
  merge-split min_thread none last e = ground arith
  merge-split min_thread (some pre) last e = elim (Result-cases (remove table k)) [
    | inl (bad, failed) ↦ ground (arith, failed)
    | inr (good, removed) ↦ ground (arith, removed)
  ]

  propose-split :
      (o : Option (Option (Bitmask AccountRouting)))
      → split_or_panic block k table o ≡ some (split t)
      → (new : Bitmask AccountRouting) × (o ≡ some (some new)) × Inserts new
  unfolding split_or_panic propose_split
  propose-split none e = cc
  propose-split (some none) e = cc
  propose-split (some (some new)) e =
      elim (Bool-cases (any (λ (other, _). other == new) table.masks)) [
        | inl old ↦ cc (rw old at e)
        | inr fresh ↦ (new, refl, proposal-split _ t (rw fresh at e))
      ]

  -- What a split from row `k`, with a mask of this thread, rests on.
  pub record IsSplit (s : LoadBalancingService) (n : ℕ) (v : Scan) (mask : Bitmask AccountRouting)
      : Type 0 where
    pub fits : length table.masks ≤ n
    pub loaded : s.load_threshold ≤ v.max_load
    pub is_max : v.max_load_thread_id ≡ this
    pub unbalanced : (length table.masks < n) ⊎ (max_load_disproportion * v.min_load < v.max_load)
    pub proposed :
        (load : AggregatedLoad) × (get this s.thread_load_map ≡ some load)
        × (new : Bitmask AccountRouting) × (best_split features.route_parts load.aggregated_value.1
              mask
            ≡ some (some new))
        × Inserts new

  module _ (s : LoadBalancingService) (n : ℕ) (v : Scan) (mask : Bitmask AccountRouting) where
    split-cases :
        (load : AggregatedLoad)
        → try_threads_split features block this k load mask v.max_load v.min_load
            max_load_disproportion v.max_load_thread_id table n
          ≡ some (split t)
        → (v.max_load_thread_id ≡ this)
          × ((length table.masks < n) ⊎ (max_load_disproportion * v.min_load < v.max_load))
          × (split_or_panic block k table
                (best_split features.route_parts load.aggregated_value.1 mask)
              ≡ some (split t))
    unfolding try_threads_split propose_new_bitmask len is_balanced unless_balanced
    split-cases load e = ground arith

    split_this-IsSplit :
        (o : Option AggregatedLoad) (s' : LoadBalancingService)
        → get this s.thread_load_map ≡ o
        → length table.masks ≤ n
        → s.load_threshold ≤ v.max_load
        → split_this features s block this table n v k mask o ≡ some (ok (split t), s')
        → IsSplit s n v mask
    unfolding split_this
    split_this-IsSplit none s' there fits high e = cc
    split_this-IsSplit (some load) s' there fits high e =
        let (is_max, apart, proposed) = split-cases load (map_ok _ _ t s' e) in
        let (new, found, inserted) =
          propose-split (best_split features.route_parts load.aggregated_value.1 mask) proposed in
        record {
          fits = fits;
          loaded = high;
          is_max = is_max;
          unbalanced = apart;
          proposed = (load, there, new, found, inserted);
        }

    pub decide-IsSplit :
        (last : ThreadIdentifier) (s' : LoadBalancingService)
        → decide features s block this table n v k mask last ≡ some (ok (split t), s')
        → IsSplit s n v mask
    unfolding decide len
    decide-IsSplit last s' e = elim (Bool-cases (ltb n (length table.masks))) [
      | inl many ↦ absurd (
          merge-split v.min_load_thread_id v.pre_last_thread_id last
            (map_ok _ _ t s' (rw many at e)))
      | inr few ↦ elim (Bool-cases (leb s.load_threshold v.max_load)) [
        | inl high ↦
            split_this-IsSplit (get this s.thread_load_map) s' refl (ltb→ge _ _ few) (ground arith)
              (rw (few, high) at e)
        | inr low ↦ cc (rw (few, low) at e)
      ]
    ]
