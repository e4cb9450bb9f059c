-- ===== src/Fold.antt =====
use mathlib.Core.Option
mod Examples
pub mod Occurrences
pub mod Outcome
pub mod Payload
pub mod Rounds
use ackinacki.BlockState.{is_set}
use ackinacki.Types.{SignerIndex}
use ackinacki.Common.Assoc.{insert, get, Assoc}
use ackinacki.Envelope.{
  verify_signatures, create, Envelope, BlsSignatureScheme, SignatureOccurrences, add_u16,
}
use ackinacki.Common.{
  inr, inl, Bool-cases, Option-cases, ◌∙◌, ap, sym, refl, suc, zero, ◌≡◌, Bool, false, true, nat_eq,
  arith, ℕ, ◌∷◌, [], ◌++◌, some, none, if◌then◌else◌, map, List, Option,
}

-- node/src/types/attestation/fold.rs: attestations of one block are merged into one envelope. The outer
-- `none` is the panic of a counter that overflows.

pub record TryFoldResult (Signature TData : Type 0) : Type 0 where
  pub folded : Option (Envelope Signature TData)
  pub poisoned : List (Envelope Signature TData)

-- `entry(k).and_modify(|e| *e += v).or_insert(v)`
pub add_occurrence : SignerIndex → ℕ → SignatureOccurrences → Option SignatureOccurrences
unfolding add_u16
add_occurrence k v m = elim (get k m) [
  | none ↦ some (insert k v m)
  | some count ↦ Option.map (λ sum. insert k sum m) (add_u16 count v)
]

-- `for (k, v) in signature_occurences { .. }`
pub add_occurrences : SignatureOccurrences → SignatureOccurrences → Option SignatureOccurrences
add_occurrences m [] = some m
add_occurrences m ((k, v) ∷ rest) = elim (add_occurrence k v m) [
  | none ↦ none
  | some next ↦ add_occurrences next rest
]

module _ {Signature : Type 0} where
  pub all_occurrences :
      List (SignatureOccurrences × Signature) → SignatureOccurrences → Option SignatureOccurrences
  all_occurrences [] m = some m
  all_occurrences ((occurrences, signature) ∷ rest) m = elim (add_occurrences m occurrences) [
    | none ↦ none
    | some next ↦ all_occurrences rest next
  ]

module _ {Signature PubKey Secret TData : Type 0}
    (bls : BlsSignatureScheme Signature PubKey Secret TData) where
  -- What follows the loop of `try_fold_all_optimistic`.
  pub envelope_of_all :
      TData
      → Assoc SignerIndex PubKey
      → SignatureOccurrences
      → Option Signature
      → Option (Envelope Signature TData)
  envelope_of_all attestation_data signers occurrences none = none
  envelope_of_all attestation_data signers occurrences (some aggregated_signature) =
      let envelope = create aggregated_signature occurrences attestation_data in
      if is_set (verify_signatures bls envelope signers) then some envelope else none

  -- The keeper set is read for its public keys only.
  pub try_fold_all_optimistic :
      TData
      → List (SignatureOccurrences × Signature)
      → Assoc SignerIndex PubKey
      → Option (Option (Envelope Signature TData))
  unfolding all_occurrences envelope_of_all
  try_fold_all_optimistic attestation_data to_combine signers =
      Option.map
        (λ occurrences.
          envelope_of_all attestation_data signers occurrences
            (bls.merge_all (map (λ pair. pair.1) to_combine)))
        (all_occurrences to_combine [])

  -- A round of the loop for an envelope that verifies.
  pub fold_verified :
      TData
      → TryFoldResult Signature TData
      → Envelope Signature TData
      → Option (TryFoldResult Signature TData)
  fold_verified attestation_data r envelope = elim r.folded [
    | none ↦ some (record r { folded = some envelope })
    | some e ↦ elim (bls.merge e.aggregated_signature envelope.aggregated_signature) [
      | none ↦ some (record r { poisoned = r.poisoned ++ (envelope ∷ []) })
      | some aggregated_signature ↦
          Option.map
            (λ occurrences. record r {
              folded = some (create aggregated_signature occurrences attestation_data);
            })
            (add_occurrences e.signature_occurrences envelope.signature_occurrences)
    ]
  ]

  -- A round of the loop; an envelope whose verification fails with an error is poisoned too.
  pub fold_one :
      TData
      → Assoc SignerIndex PubKey
      → TryFoldResult Signature TData
      → Envelope Signature TData
      → Option (TryFoldResult Signature TData)
  unfolding fold_verified
  fold_one attestation_data signers r envelope =
      if is_set (verify_signatures bls envelope signers)
      then fold_verified attestation_data r envelope
      else some (record r { poisoned = r.poisoned ++ (envelope ∷ []) })

  pub fold_each :
      TData
      → Assoc SignerIndex PubKey
      → List (SignatureOccurrences × Signature)
      → TryFoldResult Signature TData
      → Option (TryFoldResult Signature TData)
  fold_each attestation_data signers [] r = some r
  fold_each attestation_data signers ((occurrences, signature) ∷ rest) r =
      elim (fold_one attestation_data signers r (create signature occurrences attestation_data)) [
        | none ↦ none
        | some next ↦ fold_each attestation_data signers rest next
      ]

  pub try_fold_one_by_one_checked :
      TData
      → List (SignatureOccurrences × Signature)
      → Assoc SignerIndex PubKey
      → Option (TryFoldResult Signature TData)
  unfolding fold_each
  try_fold_one_by_one_checked attestation_data to_combine signers =
      fold_each attestation_data signers to_combine (record { folded = none; poisoned = [] })

  pub try_fold :
      TData
      → List (SignatureOccurrences × Signature)
      → Assoc SignerIndex PubKey
      → Option (TryFoldResult Signature TData)
  unfolding try_fold_all_optimistic try_fold_one_by_one_checked
  try_fold attestation_data to_combine signers =
      elim (try_fold_all_optimistic attestation_data to_combine signers) [
        | none ↦ none
        | some (some folded) ↦ some (record { folded = some folded; poisoned = [] })
        | some none ↦ try_fold_one_by_one_checked attestation_data to_combine signers
      ]
