-- ===== src/Envelope/Verification.antt =====
-- What a verified envelope of node/src/bls/envelope.rs shows of its signers.
use ackinacki.Checkpoints.{is_empty}
use ackinacki.Envelope.{
  signatures_count, has_signer_index, verify_signatures, Envelope, BlsSignatureScheme,
  occurrences_of, collect_pubkeys, SignatureOccurrences,
}
use ackinacki.Common.Assoc.{is_some, contains_key_lem, IsMap, contains_key, get, Assoc}
use ackinacki.Types.{SignerIndex}
use ackinacki.Common.{
  ◌+◌, sym, ◌∙◌, Option-cases, inr, inl, ◌==◌, Bool-cases, nat_eq, ltb, arith, ◌≡◌, ℕ, List, Bool,
  false, true, some, ◌∷◌, [],
}

-- A signer that the table counts at least once.
abbrev pub has_signed : SignerIndex → SignatureOccurrences → Bool
has_signed i m = ltb 0 (occurrences_of i m)

module _ {PubKey : Type 0} (signers : Assoc SignerIndex PubKey) where
  collect_pubkeys-known :
      (m : SignatureOccurrences) (i : SignerIndex)
      → is_some (collect_pubkeys m signers) ≡ true
      → has_signed i m ≡ true
      → contains_key i signers ≡ true
  unfolding collect_pubkeys occurrences_of get
  collect_pubkeys-known [] i e h = cc
  collect_pubkeys-known ((k, count) ∷ m) i e h =
      ground (arith, contains_key_lem i signers, collect_pubkeys-known m i)

  collect_pubkeys-some :
      (m : SignatureOccurrences) (pubkeys : List (PubKey × ℕ))
      → IsMap m
      → collect_pubkeys m signers ≡ some pubkeys
      → is_empty pubkeys ≡ false
      → (i : SignerIndex) × (has_signed i m ≡ true)
  unfolding collect_pubkeys occurrences_of get
  collect_pubkeys-some [] pubkeys maps e h = absurd (ground arith)
  collect_pubkeys-some ((k, count) ∷ m) pubkeys maps e h = elim (Bool-cases (count == 0)) [
    | inl zero_count ↦
        let (i, found) = collect_pubkeys-some m pubkeys maps.1 (rw zero_count at e) h in
        (i, ground (arith, contains_key_lem i m))
    | inr counted ↦ (k, ground arith)
  ]

module _ {Signature PubKey Secret TData : Type 0}
    (bls : BlsSignatureScheme Signature PubKey Secret TData) (e : Envelope Signature TData)
    (signers : Assoc SignerIndex PubKey) where
  has_signer_index_lem :
      (i : SignerIndex) → has_signer_index e i ≡ has_signed i e.signature_occurrences
  unfolding has_signer_index occurrences_of
  has_signer_index_lem i = ground arith

  -- An envelope that verifies has been signed by someone, and each signer that it counts at least
  -- once has a public key among the given ones.
  pub verify_signatures-signers :
      IsMap e.signature_occurrences
      → verify_signatures bls e signers ≡ some true
      → ((i : SignerIndex) × (has_signer_index e i ≡ true))
        × ((j : SignerIndex) → has_signer_index e j ≡ true → contains_key j signers ≡ true)
  unfolding verify_signatures
  verify_signatures-signers maps h =
      elim (Option-cases (collect_pubkeys e.signature_occurrences signers)) [
        | inl missing ↦ cc (rw (missing, verify_signatures) at h)
        | inr (pubkeys, found) ↦ elim (Bool-cases (is_empty pubkeys)) [
          | inl none_signed ↦ cc (rw (found, none_signed, verify_signatures) at h)
          | inr some_signed ↦
              let (i, signed) =
                collect_pubkeys-some signers e.signature_occurrences pubkeys maps found
                  some_signed in
              (
                (i, has_signer_index_lem i ∙ signed),
                λ j counted.
                    collect_pubkeys-known signers e.signature_occurrences j (rw found)
                      (sym (has_signer_index_lem j) ∙ counted),
              )
        ]
      ]

  -- An entry with the count 0 changes neither whom `has_signer_index` finds nor the outcome of the
  -- verification, but it is counted by `signatures_count`.
  pub signatures_count-zero :
      (k : SignerIndex) (j : SignerIndex)
      → contains_key k e.signature_occurrences ≡ false
      → let padded = record e { signature_occurrences = (k, 0) ∷ e.signature_occurrences } in
        (verify_signatures bls padded signers ≡ verify_signatures bls e signers)
        × (has_signer_index padded j ≡ has_signer_index e j)
        × (signatures_count padded ≡ signatures_count e + 1)
  unfolding verify_signatures has_signer_index signatures_count collect_pubkeys get
  signatures_count-zero k j h = ground (arith, contains_key_lem k e.signature_occurrences)
