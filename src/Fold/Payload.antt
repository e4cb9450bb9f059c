-- ===== src/Fold/Payload.antt =====
-- A fold is of the data that it is given: node/src/types/attestation/fold.rs.
use ackinacki.BlockState.{is_set}
use mathlib.Core.Option.{some-injective}
use ackinacki.Fold.{
  add_occurrences, all_occurrences, envelope_of_all, try_fold_one_by_one_checked, TryFoldResult,
  try_fold_all_optimistic, fold_verified, try_fold, fold_each, fold_one,
}
use ackinacki.Types.{SignerIndex}
use ackinacki.Common.Assoc.{Assoc}
use ackinacki.Envelope.{
  verify_signatures, create, SignatureOccurrences, Envelope, BlsSignatureScheme,
}
use ackinacki.Common.{
  map, subst, ◌++◌, inr, inl, Bool-cases, Option-cases, refl, ◌≡◌, Option, List, some, none, ◌∷◌,
  [],
}

module _ {Signature PubKey Secret TData : Type 0}
    (bls : BlsSignatureScheme Signature PubKey Secret TData) (attestation_data : TData)
    (signers : Assoc SignerIndex PubKey) where
  abbrev IsOfData : Option (Envelope Signature TData) → Type 0
  IsOfData none = Unit
  IsOfData (some e) = e.signed_data ≡ attestation_data

  fold_one-IsOfData :
      (r m : TryFoldResult Signature TData) (x : SignatureOccurrences × Signature)
      → IsOfData r.folded
      → fold_one bls attestation_data signers r (create x.1 x.0 attestation_data) ≡ some m
      → IsOfData m.folded
  unfolding fold_one fold_verified create
  fold_one-IsOfData r m x h made =
      elim (Bool-cases (is_set (verify_signatures bls (create x.1 x.0 attestation_data) signers))) [
        | inr w ↦ kept r m (rw (w, fold_one) at made) h
        | inl v ↦ elim (Option-cases r.folded) [
          | inl e ↦
              subst (λ y. IsOfData y.folded)
                (some-injective (record r { folded = some (create x.1 x.0 attestation_data) }) m
                  (rw (v, e, fold_one, fold_verified) at made))
                refl
          | inr (f, e) ↦ elim (Option-cases (bls.merge f.aggregated_signature x.1)) [
            | inl failed ↦ kept r m (rw (v, e, failed, fold_one, fold_verified, create) at made) h
            | inr (s, merged) ↦ elim (Option-cases (add_occurrences f.signature_occurrences x.0)) [
              | inl over ↦ cc (rw (v, e, merged, over, fold_one, fold_verified, create) at made)
              | inr (p, added) ↦
                  subst (λ y. IsOfData y.folded)
                    (some-injective (record r { folded = some (create s p attestation_data) }) m
                      (rw (v, e, merged, added, fold_one, fold_verified, create) at made))
                    refl
            ]
          ]
        ]
      ]
    where
      kept :
          (r m : TryFoldResult Signature TData)
          → some (record r { poisoned = r.poisoned ++ (create x.1 x.0 attestation_data ∷ []) })
            ≡ some m
          → IsOfData r.folded
          → IsOfData m.folded
      kept r m same h = subst (λ y. IsOfData y.folded) (some-injective _ m same) h

  fold_each-IsOfData :
      (xs : List (SignatureOccurrences × Signature)) (r q : TryFoldResult Signature TData)
      → IsOfData r.folded
      → fold_each bls attestation_data signers xs r ≡ some q
      → IsOfData q.folded
  unfolding fold_each
  fold_each-IsOfData [] r q h made = subst (λ y. IsOfData y.folded) (some-injective r q made) h
  fold_each-IsOfData (x ∷ xs) r q h made =
      elim (Option-cases
        (fold_one bls attestation_data signers r (create x.1 x.0 attestation_data))) [
          | inl e ↦ cc (rw (e, fold_each) at made)
          | inr (m, e) ↦
              fold_each-IsOfData xs m q (fold_one-IsOfData r m x h e) (rw (e, fold_each) at made)
        ]

  envelope_of_all-IsOfData :
      (p : SignatureOccurrences) (merged : Option Signature)
      → IsOfData (envelope_of_all bls attestation_data signers p merged)
  unfolding envelope_of_all create
  envelope_of_all-IsOfData p none = tt
  envelope_of_all-IsOfData p (some s) =
      elim (Bool-cases (is_set (verify_signatures bls (create s p attestation_data) signers))) [
        | inl e ↦ rw (e, create) refl
        | inr e ↦ rw (e, create) tt
      ]

  optimistic-IsOfData :
      (xs : List (SignatureOccurrences × Signature)) (o : Option (Envelope Signature TData))
      → try_fold_all_optimistic bls attestation_data xs signers ≡ some o
      → IsOfData o
  unfolding try_fold_all_optimistic
  optimistic-IsOfData xs o h = elim (Option-cases (all_occurrences xs [])) [
    | inl over ↦ cc (rw (over, try_fold_all_optimistic) at h)
    | inr (p, made) ↦
        let merged = bls.merge_all (map (λ pair. pair.1) xs) in
        subst IsOfData
          (some-injective (envelope_of_all bls attestation_data signers p merged) o
            (rw (made, try_fold_all_optimistic) at h))
          (envelope_of_all-IsOfData p merged)
  ]

  try_fold-IsOfData :
      (xs : List (SignatureOccurrences × Signature)) (q : TryFoldResult Signature TData)
      → try_fold bls attestation_data xs signers ≡ some q
      → IsOfData q.folded
  unfolding try_fold try_fold_one_by_one_checked
  try_fold-IsOfData xs q h =
      elim (Option-cases (try_fold_all_optimistic bls attestation_data xs signers)) [
        | inl e ↦ cc (rw (e, try_fold) at h)
        | inr (none, e) ↦
            fold_each-IsOfData xs (record { folded = none; poisoned = [] }) q tt
              (rw (e, try_fold) at h)
        | inr (some f, e) ↦
            subst (λ y. IsOfData y.folded)
              (some-injective (record { folded = some f; poisoned = [] }) q (rw (e, try_fold) at h))
              (optimistic-IsOfData xs (some f) e)
      ]

  -- An envelope that `try_fold` returns signs the data that it was given.
  pub signed_data-try_fold :
      (xs : List (SignatureOccurrences × Signature)) (q : TryFoldResult Signature TData)
      (e : Envelope Signature TData)
      → try_fold bls attestation_data xs signers ≡ some q
      → q.folded ≡ some e
      → e.signed_data ≡ attestation_data
  signed_data-try_fold xs q e h found = subst IsOfData found (try_fold-IsOfData xs q h)
