-- ===== src/Collected/Arrivals.antt =====
-- What `add`, `add_bunch` and `move_cutoff` of node/src/types/attestation/mod.rs do to the
-- attestations that are collected.
use ackinacki.Checkpoints.{is_empty}
use ackinacki.Types.{BlockSeqNo}
use ackinacki.Common.Assoc.{get-insert, Assoc, get}
use ackinacki.Envelope.{Envelope}
use ackinacki.Common.{
  ap, ◌∙◌, filter, any, ltb, if◌then◌else◌, Bool-cases, ==_refl, refl, contains-set_insert,
  set_insert, inr, inl, Option-cases, not, leb, ◌==◌, contains, ◌||◌, ◌&&◌, PartialEq, arith, ◌≡◌,
  List, Bool, false, true, some, none, ◌∷◌, [],
}
use ackinacki.Collected.{
  add_bunch, record_bunch, key_beq_iff, move_cutoff, CompactedMapKey, retain_above, touch, add,
  record_in, compact, key_of, AttestationData, record_attestation, CollectedAttestations, key_eq,
  compacted_eq,
}

module _ {ℓ κ} {K : Type ℓ} {V : Type κ} ⦃e : PartialEq K⦄ ⦃f : PartialEq V⦄ where
  -- The set under the key has the value.
  pub holds : K → V → Assoc K (List V) → Bool
  holds key value m = elim (get key m) [ none ↦ false | some set ↦ contains value set ]

  holds-record_in :
      (k j : K) (v w : V) (m : Assoc K (List V))
      → (holds j w (record_in k v m).0 ≡ ((k == j && v == w) || holds j w m))
        × ((record_in k v m).1 ≡ not (holds k v m))
  unfolding record_in holds
  holds-record_in k j v w m = elim (Option-cases (get k m)) [
    | inl h ↦ ground (arith, get-insert k j (v ∷ []) m, e.beq_iff k j)
    | inr (set, h) ↦ ground (
      arith,
      get-insert k j (set_insert v set) m,
      contains-set_insert v w set,
      e.beq_iff k j,
      f.beq_iff v w,
    )
  ]

  record_in-held :
      (k : K) (v : V) (m : Assoc K (List V)) → holds k v m ≡ true → record_in k v m ≡ (m, false)
  unfolding record_in holds
  record_in-held k v m h = ground arith

get-retain_above :
    {V : Type 0} (n : BlockSeqNo) (k : CompactedMapKey) (m : Assoc CompactedMapKey V)
    → get k (retain_above n m) ≡ (if ltb n k.block_seq_no then get k m else none)
unfolding retain_above get
get-retain_above n k [] = ground arith
get-retain_above n k ((j, v) ∷ m) = ground (arith, get-retain_above n k m, key_beq_iff j k)

module _ {Signature : Type 0} ⦃eq : PartialEq Signature⦄ where
  -- The set under the key of the attestation has its compact form.
  pub is_collected : Envelope Signature AttestationData → CollectedAttestations Signature → Bool
  is_collected a s = holds (key_of a.signed_data) (compact a) s.compacted_unverified_attestations

  pub is_same : Envelope Signature AttestationData → Envelope Signature AttestationData → Bool
  is_same a b = key_of a.signed_data == key_of b.signed_data && compact a == compact b

  pub is_cut_off :
      CollectedAttestations Signature → Bool → Envelope Signature AttestationData → Bool
  is_cut_off s enable_cutoff a = enable_cutoff && leb a.signed_data.block_seq_no s.cutoff

  record_attestation-is_collected :
      (a b : Envelope Signature AttestationData) (s : CollectedAttestations Signature)
      → (is_collected b (record_attestation a s).0 ≡ (is_same a b || is_collected b s))
        × ((record_attestation a s).1 ≡ not (is_collected a s))
  unfolding record_attestation is_collected is_same
  record_attestation-is_collected a b s =
      holds-record_in (key_of a.signed_data) (key_of b.signed_data) (compact a) (compact b)
        s.compacted_unverified_attestations

  is_collected-touch :
      (b : Envelope Signature AttestationData) (s : CollectedAttestations Signature)
      → is_collected b (touch s) ≡ is_collected b s
  unfolding touch is_collected
  is_collected-touch b s = refl

  is_same_self : (a : Envelope Signature AttestationData) → is_same a a ≡ true
  unfolding is_same
  is_same_self a = rw (==_refl (key_of a.signed_data), ==_refl (compact a))

  module _ (s : CollectedAttestations Signature) (a : Envelope Signature AttestationData)
      (enable_cutoff : Bool) where
    cutoff-add : (add s a enable_cutoff).0.cutoff ≡ s.cutoff
    unfolding add touch record_attestation
    cutoff-add = ground arith

    add-cut_off : is_cut_off s enable_cutoff a ≡ true → add s a enable_cutoff ≡ (s, false)
    unfolding add is_cut_off
    add-cut_off h = ground arith

    add-not_cut_off :
        is_cut_off s enable_cutoff a ≡ false
        → ((b : Envelope Signature AttestationData)
            → is_collected b (add s a enable_cutoff).0 ≡ (is_same a b || is_collected b s))
          × ((add s a enable_cutoff).1 ≡ not (is_collected a s))
    unfolding add is_cut_off
    add-not_cut_off h = (
      λ b. ground (
        arith,
        record_attestation-is_collected a b s,
        is_collected-touch b (record_attestation a s).0,
      ),
      ground (arith, record_attestation-is_collected a a s),
    )

    record_attestation-collected : is_collected a s ≡ true → record_attestation a s ≡ (s, false)
    unfolding record_attestation is_collected
    record_attestation-collected h =
        rw (record_in-held (key_of a.signed_data) (compact a) s.compacted_unverified_attestations h)

    add-collected : is_collected a s ≡ true → add s a enable_cutoff ≡ (s, false)
    unfolding add
    add-collected h = ground (arith, record_attestation-collected h)

  -- `add` collects an attestation unless it is cut off, and loses none. It answers true exactly when
  -- the attestation is new and not cut off, and when it answers false nothing changes, so adding an
  -- attestation again answers false and changes nothing.
  pub add-is_collected :
      (a b : Envelope Signature AttestationData) (s : CollectedAttestations Signature)
      (enable_cutoff : Bool)
      → let (next, added) = add s a enable_cutoff in
        (is_collected b next
          ≡ (is_collected b s || (not (is_cut_off s enable_cutoff a) && is_same a b)))
        × (added ≡ (not (is_cut_off s enable_cutoff a) && not (is_collected a s)))
        × (add next a enable_cutoff ≡ (next, false))
  add-is_collected a b s enable_cutoff = elim (Bool-cases (is_cut_off s enable_cutoff a)) [
    | inl cut ↦ ground (arith, add-cut_off s a enable_cutoff cut)
    | inr kept ↦
        let (collected, added) = add-not_cut_off s a enable_cutoff kept in
        let next = (add s a enable_cutoff).0 in
        (
          ground (arith, collected b),
          ground arith,
          add-collected next a enable_cutoff (ground (arith, collected a, is_same_self a)),
        )
  ]

  -- After `move_cutoff` exactly the attestations of blocks above the cutoff are still collected, and
  -- those at or below it can not be collected by an `add` with the cutoff enabled.
  pub move_cutoff-is_collected :
      (a b : Envelope Signature AttestationData) (s : CollectedAttestations Signature)
      (n : BlockSeqNo)
      → (is_collected b (move_cutoff s n) ≡ (is_collected b s && ltb n b.signed_data.block_seq_no))
        × (add (move_cutoff s n) a true ≡ (
            if leb a.signed_data.block_seq_no n
            then (move_cutoff s n, false)
            else add (move_cutoff s n) a false))
  unfolding move_cutoff is_collected holds add
  move_cutoff-is_collected a b s n = (kept, later)
    where
      kept :
          is_collected b (move_cutoff s n) ≡ (is_collected b s && ltb n b.signed_data.block_seq_no)
      kept =
          ground
            (arith, get-retain_above n (key_of b.signed_data) s.compacted_unverified_attestations)

      later : add (move_cutoff s n) a true ≡ (
          if leb a.signed_data.block_seq_no n
          then (move_cutoff s n, false)
          else add (move_cutoff s n) a false)
      later = ground arith

  record_bunch-is_collected :
      (attestations : List (Envelope Signature AttestationData))
      (b : Envelope Signature AttestationData) (s : CollectedAttestations Signature)
      → is_collected b (record_bunch attestations s).0
        ≡ (is_collected b s || any (λ a. is_same a b) attestations)
  unfolding record_bunch
  record_bunch-is_collected [] b s = ground arith
  record_bunch-is_collected (a ∷ attestations) b s = ground (
    arith,
    record_bunch-is_collected attestations b (record_attestation a s).0,
    record_attestation-is_collected a b s,
  )

  any_kept :
      (attestations : List (Envelope Signature AttestationData))
      (b : Envelope Signature AttestationData) (s : CollectedAttestations Signature)
      → any (λ a. is_same a b) (filter (λ e. ltb s.cutoff e.signed_data.block_seq_no) attestations)
        ≡ any (λ a. not (is_cut_off s true a) && is_same a b) attestations
  unfolding is_cut_off
  any_kept [] b s = refl
  any_kept (a ∷ attestations) b s = ground (arith, any_kept attestations b s)

  any_all :
      (attestations : List (Envelope Signature AttestationData))
      (b : Envelope Signature AttestationData) (s : CollectedAttestations Signature)
      → any (λ a. is_same a b) attestations
        ≡ any (λ a. not (is_cut_off s false a) && is_same a b) attestations
  unfolding is_cut_off
  any_all [] b s = refl
  any_all (a ∷ attestations) b s = ground (arith, any_all attestations b s)

  -- The end of `add_bunch`, for the attestations that are kept.
  abbrev end_of_bunch :
      List (Envelope Signature AttestationData)
      → CollectedAttestations Signature
      → CollectedAttestations Signature × Bool
  end_of_bunch kept s =
      let (next, added_smth) = record_bunch kept s in
      if is_empty kept then (s, false) else (if added_smth then touch next else next, added_smth)

  end_of_bunch-is_collected :
      (kept : List (Envelope Signature AttestationData)) (b : Envelope Signature AttestationData)
      (s : CollectedAttestations Signature)
      → is_collected b (end_of_bunch kept s).0 ≡ (is_collected b s || any (λ a. is_same a b) kept)
  end_of_bunch-is_collected kept b s =
      ground
        (arith, record_bunch-is_collected kept b s, is_collected-touch b (record_bunch kept s).0)

  -- `add_bunch` collects exactly the attestations of the bunch that are not cut off, and loses none.
  pub add_bunch-is_collected :
      (attestations : List (Envelope Signature AttestationData))
      (b : Envelope Signature AttestationData) (s : CollectedAttestations Signature)
      (enable_cutoff : Bool)
      → is_collected b (add_bunch s attestations enable_cutoff).0 ≡ (
          is_collected b s
          || any (λ a. not (is_cut_off s enable_cutoff a) && is_same a b) attestations)
  unfolding add_bunch
  add_bunch-is_collected attestations b s true =
      end_of_bunch-is_collected (filter (λ e. ltb s.cutoff e.signed_data.block_seq_no) attestations)
        b s
      ∙ ap (λ x. is_collected b s || x) (any_kept attestations b s)
  add_bunch-is_collected attestations b s false =
      end_of_bunch-is_collected attestations b s
      ∙ ap (λ x. is_collected b s || x) (any_all attestations b s)
