-- ===== src/Collected/Aggregate/Round.antt =====
-- A round of `aggregate` of node/src/types/attestation/mod.rs.
use mathlib.Core.Option.{some-injective}
use ackinacki.Fold.Payload.{signed_data-try_fold}
use ackinacki.Fold.{TryFoldResult, try_fold}
use ackinacki.Types.{SignerIndex, BlockIdentifier, BlockSeqNo}
use ackinacki.BlockKeepers.{BlockKeeperSet}
use ackinacki.Common.Assoc.{get-insert_cases, insert, get}
use ackinacki.Envelope.{SignatureOccurrences, signatures_count, Envelope, BlsSignatureScheme}
use ackinacki.Collected.Aggregate.{
  keep_fold, aggregate_one, gather, combine_folded, key_for, stored_in_state, fold_and_keep,
  when_enough,
}
use ackinacki.Common.{
  ok, length, leb, Bool-cases, ap, sym, ◌∙◌, inr, inl, Option-cases, ◌⊎◌, ◌≤◌, arith, ◌≡◌, ℕ,
  Option, List, some, none,
}
use ackinacki.Collected.{
  key_of, AttestationData, AggregateFilter, CompactedMapKey, BlockFacts, CollectedAttestations,
  key_eq,
}

module _ {Signature : Type 0} where
  -- Each folded envelope is kept under the key of its own data.
  unfoldable pub IsFiled : CollectedAttestations Signature → Type 0
  IsFiled s =
      (k : CompactedMapKey) (e : Envelope Signature AttestationData)
      → get k s.folded_attestations ≡ some e
      → key_of e.signed_data ≡ k

  when_enough-some :
      (m : ℕ) (o : Option (Envelope Signature AttestationData))
      (e : Envelope Signature AttestationData)
      → when_enough m o ≡ some e
      → (m ≤ signatures_count e) × (o ≡ some e)
  unfolding when_enough
  when_enough-some m none e h = cc
  when_enough-some m (some x) e h = ground arith

module _ {Signature PubKey : Type 0} where
  -- The envelope has the signatures that the filter asks for, and it is the proof in the block's state
  -- or is of that block and the filter's type.
  abbrev pub Meets :
      BlockFacts Signature PubKey → AggregateFilter → Envelope Signature AttestationData → Type 0
  Meets b f e =
      (f.min_signatures_inclusive ≤ signatures_count e)
      × ((stored_in_state b f.attestation_type ≡ some e)
          ⊎ (n : BlockSeqNo) × (b.block_seq_no ≡ some n) × (key_of e.signed_data ≡ key_for b f n))

module _ {Signature PubKey Secret : Type 0}
    (bls : BlsSignatureScheme Signature PubKey Secret AttestationData) where
  module _ (s : CollectedAttestations Signature) (key : CompactedMapKey) (signed : AttestationData)
      (bk_set : BlockKeeperSet PubKey) (xs : List (SignatureOccurrences × Signature)) (m : ℕ) where
    keep_fold_of :
        (next : CollectedAttestations Signature × Option (Envelope Signature AttestationData))
        → fold_and_keep bls s key signed bk_set xs m ≡ some next
        → (q : TryFoldResult Signature AttestationData) × (try_fold bls signed xs
              bk_set.signer_to_pubkey
            ≡ some q)
          × (keep_fold s key m q.folded ≡ next)
    unfolding fold_and_keep
    keep_fold_of next h = elim (Option-cases (try_fold bls signed xs bk_set.signer_to_pubkey)) [
      | inl e ↦ cc (rw (e, fold_and_keep) at h)
      | inr (q, e) ↦
          (q, e, some-injective (keep_fold s key m q.folded) next (rw (e, fold_and_keep) at h))
    ]

    folded-fold_and_keep :
        (next : CollectedAttestations Signature × Option (Envelope Signature AttestationData))
        (k : CompactedMapKey) (e : Envelope Signature AttestationData)
        → fold_and_keep bls s key signed bk_set xs m ≡ some next
        → get k next.0.folded_attestations ≡ some e
        → (get k s.folded_attestations ≡ some e) ⊎ (key ≡ k) × (e.signed_data ≡ signed)
    unfolding keep_fold
    folded-fold_and_keep next k e h g =
        let (q, folded, kept) = keep_fold_of next h in
        let held : get k (keep_fold s key m q.folded).0.folded_attestations ≡ some e =
          ap (λ y. get k y.0.folded_attestations) kept ∙ g in
        elim (Option-cases q.folded) [
          | inl none_folded ↦ inl (rw (none_folded, keep_fold) at held)
          | inr (fold, found) ↦ stored q fold folded found (rw (found, keep_fold) at held)
        ]
      where
        stored :
            (q : TryFoldResult Signature AttestationData)
            (fold : Envelope Signature AttestationData)
            → try_fold bls signed xs bk_set.signer_to_pubkey ≡ some q
            → q.folded ≡ some fold
            → get k (insert key fold s.folded_attestations) ≡ some e
            → (get k s.folded_attestations ≡ some e) ⊎ (key ≡ k) × (e.signed_data ≡ signed)
        stored q fold folded found g =
            elim (get-insert_cases key k fold e s.folded_attestations g) [
              | inl (same, is_new) ↦ inr (
                same,
                signed_data-try_fold bls signed bk_set.signer_to_pubkey xs q e folded
                    (found ∙ ap some is_new),
              )
              | inr before ↦ inl before
            ]

    found-fold_and_keep :
        (next : CollectedAttestations Signature × Option (Envelope Signature AttestationData))
        (e : Envelope Signature AttestationData)
        → fold_and_keep bls s key signed bk_set xs m ≡ some next
        → next.1 ≡ some e
        → (m ≤ signatures_count e) × (e.signed_data ≡ signed)
    unfolding keep_fold
    found-fold_and_keep next e h g =
        let (q, folded, kept) = keep_fold_of next h in
        let held : (keep_fold s key m q.folded).1 ≡ some e = ap (λ y. y.1) kept ∙ g in
        elim (Option-cases q.folded) [
          | inl none_folded ↦ cc (rw (none_folded, keep_fold) at held)
          | inr (fold, found) ↦
              let (enough, same) =
                when_enough-some m (some fold) e (rw (found, keep_fold) at held) in
              (
                enough,
                signed_data-try_fold bls signed bk_set.signer_to_pubkey xs q e folded
                    (found ∙ same),
              )
        ]

  module _ (s : CollectedAttestations Signature) (b : BlockFacts Signature PubKey)
      (f : AggregateFilter) (n : BlockSeqNo) (parent : BlockIdentifier)
      (bk_set : BlockKeeperSet PubKey) (hash : ℕ) where
    abbrev combined :
        Option (CollectedAttestations Signature × Option (Envelope Signature AttestationData))
    combined = combine_folded bls s b f (key_for b f n) parent bk_set hash

    abbrev signed : AttestationData
    signed = record {
      block_id = b.block_identifier;
      block_seq_no = n;
      parent_block_id = parent;
      envelope_hash = hash;
      target_type = f.attestation_type;
    }

    abbrev gathered : List SignerIndex × List (SignatureOccurrences × Signature)
    gathered = gather bls s (key_for b f n) parent bk_set hash

    combine_folded_cases :
        (combined ≡ some (s, none))
        ⊎ (xs : List (SignatureOccurrences × Signature)) × (combined
            ≡ fold_and_keep bls s (key_for b f n) signed bk_set xs f.min_signatures_inclusive)
    unfolding combine_folded key_for
    combine_folded_cases = elim (Bool-cases (leb f.min_signatures_inclusive (length gathered.0))) [
      | inl enough ↦ inr (gathered.1, rw (enough, combine_folded))
      | inr few ↦ inl (rw (few, combine_folded))
    ]

    combine_folded-IsFiled :
        (next : CollectedAttestations Signature × Option (Envelope Signature AttestationData))
        → combined ≡ some next
        → IsFiled s
        → IsFiled next.0
    unfolding IsFiled key_for
    combine_folded-IsFiled next run h k e g = elim combine_folded_cases [
      | inl same ↦
          let unchanged = some-injective (s, none) next (sym same ∙ run) in
          h k e (ap (λ y. get k y.0.folded_attestations) unchanged ∙ g)
      | inr (xs, fold) ↦
          elim (folded-fold_and_keep s (key_for b f n) signed bk_set xs f.min_signatures_inclusive
            next k e (sym fold ∙ run) g) [
              | inl before ↦ h k e before
              | inr (at_key, is_signed) ↦ ap key_of is_signed ∙ at_key
            ]
    ]

    found-combine_folded :
        (next : CollectedAttestations Signature × Option (Envelope Signature AttestationData))
        (e : Envelope Signature AttestationData)
        → combined ≡ some next
        → next.1 ≡ some e
        → (f.min_signatures_inclusive ≤ signatures_count e) × (key_of e.signed_data ≡ key_for b f n)
    unfolding key_for
    found-combine_folded next e run h = elim combine_folded_cases [
      | inl same ↦
          let unchanged = some-injective (s, none) next (sym same ∙ run) in
          cc (ap (λ y. y.1) unchanged ∙ h)
      | inr (xs, fold) ↦
          let (enough, is_signed) =
            found-fold_and_keep s (key_for b f n) signed bk_set xs f.min_signatures_inclusive next e
              (sym fold ∙ run) h in
          (enough, ap key_of is_signed)
    ]

  module _ (s next : CollectedAttestations Signature) (b : BlockFacts Signature PubKey)
      (f : AggregateFilter) (found : Option (Envelope Signature AttestationData))
      (h : aggregate_one bls s b f ≡ ok (next, found)) where
    -- A round returns the stored proof, a folded envelope, or what it combines.
    abbrev RoundCases : Type 0
    RoundCases =
        ((e : Envelope Signature AttestationData) × (next ≡ s)
          × (found ≡ some e)
          × (when_enough f.min_signatures_inclusive (stored_in_state b f.attestation_type)
              ≡ some e))
        ⊎ ((n : BlockSeqNo) × (e : Envelope Signature AttestationData) × (b.block_seq_no ≡ some n)
            × (next ≡ s)
            × (found ≡ some e)
            × (when_enough f.min_signatures_inclusive (get (key_for b f n) s.folded_attestations)
                ≡ some e))
        ⊎ (n : BlockSeqNo) × (parent : BlockIdentifier) × (bk_set : BlockKeeperSet PubKey)
          × (hash : ℕ) × (b.block_seq_no ≡ some n)
          × (combine_folded bls s b f (key_for b f n) parent bk_set hash ≡ some (next, found))

    round_combines :
        (n : BlockSeqNo) (parent : BlockIdentifier)
        → b.block_seq_no ≡ some n
        → b.parent_block_identifier ≡ some parent
        → when_enough f.min_signatures_inclusive (stored_in_state b f.attestation_type) ≡ none
        → when_enough f.min_signatures_inclusive (get (key_for b f n) s.folded_attestations) ≡ none
        → (n : BlockSeqNo) × (parent : BlockIdentifier) × (bk_set : BlockKeeperSet PubKey)
          × (hash : ℕ) × (b.block_seq_no ≡ some n)
          × (combine_folded bls s b f (key_for b f n) parent bk_set hash ≡ some (next, found))
    unfolding aggregate_one
    round_combines n parent number is_parent unstored unfolded = elim (Option-cases b.bk_set) [
      | inl missing ↦ absurd (ground arith)
      | inr (bk_set, is_set_of) ↦ elim (Option-cases b.envelope_hash) [
        | inl missing ↦ absurd (ground arith)
        | inr (hash, is_hash) ↦ (n, parent, bk_set, hash, number, ground arith)
      ]
    ]

    round_cases : RoundCases
    unfolding aggregate_one
    round_cases =
        elim (Option-cases
          (when_enough f.min_signatures_inclusive (stored_in_state b f.attestation_type))) [
            | inr (e, stored) ↦ inl (e, ground arith, ground arith, stored)
            | inl unstored ↦ elim (Option-cases b.block_seq_no) [
              | inl missing ↦ absurd (ground arith)
              | inr (n, number) ↦ elim (Option-cases b.parent_block_identifier) [
                | inl missing ↦ absurd (ground arith)
                | inr (parent, is_parent) ↦
                    elim (Option-cases (
                      when_enough f.min_signatures_inclusive
                        (get (key_for b f n) s.folded_attestations))) [
                          | inr (e, folded) ↦
                              inr (inl (n, e, number, ground arith, ground arith, folded))
                          | inl unfolded ↦
                              inr (inr (round_combines n parent number is_parent unstored unfolded))
                        ]
              ]
            ]
          ]

    pub round-IsFiled : IsFiled s → IsFiled next
    round-IsFiled filed = elim round_cases [
      | inl (e, same, _, _) ↦ rw same filed
      | inr (inl (n, e, _, same, _, _)) ↦ rw same filed
      | inr (inr (n, parent, bk_set, hash, _, run)) ↦
          combine_folded-IsFiled s b f n parent bk_set hash (next, found) run filed
    ]

    pub round-Meets :
        (e : Envelope Signature AttestationData) → IsFiled s → found ≡ some e → Meets b f e
    unfolding IsFiled
    round-Meets e filed is_found = elim round_cases [
      | inl (x, _, g, stored) ↦
          let (enough, at) = when_enough-some _ _ e (stored ∙ sym g ∙ is_found) in (enough, inl at)
      | inr (inl (n, x, number, _, g, folded)) ↦
          let (enough, at) = when_enough-some _ _ e (folded ∙ sym g ∙ is_found) in
          (enough, inr (n, number, filed (key_for b f n) e at))
      | inr (inr (n, parent, bk_set, hash, number, run)) ↦
          let (enough, at) =
            found-combine_folded s b f n parent bk_set hash (next, found) e run is_found in
          (enough, inr (n, number, at))
    ]
