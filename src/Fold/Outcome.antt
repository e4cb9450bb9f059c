-- ===== src/Fold/Outcome.antt =====
-- What `try_fold` of node/src/types/attestation/fold.rs returns.
use mathlib.Core.Option.{some-injective, some-injective}
use ackinacki.Fold.Rounds.{
  fold_each_fits, IsRefused, Verifies, table_of, fold_each-Run, Selects-all, envelope_of, names,
  Run, Selects, total, IsInput,
}
use ackinacki.Checkpoints.{is_empty}
use ackinacki.BlockState.{is_set}
use ackinacki.Common.Assoc.{is_some, contains_key, Assoc}
use ackinacki.Fold.Occurrences.{
  occurrences_of-absent, occurrences_of-add_occurrences, contains_key-add_occurrences,
  add_occurrences_fits,
}
use ackinacki.Types.{SignerIndex}
use ackinacki.Envelope.{
  collect_pubkeys, verify_signatures, create, occurrences_of, BlsSignatureScheme, Envelope,
  SignatureOccurrences,
}
use ackinacki.Common.{
  subst, ◌+◌, Option, sym, refl, inr, inl, Option-cases, All, ap, not, ◌||◌, ◌∙◌, ◌^◌, map, ◌⊎◌,
  nat_eq, ◌<◌, arith, ◌≡◌, List, true, some, none, ◌∷◌, [],
}
use ackinacki.Fold.{
  envelope_of_all, add_occurrences, all_occurrences, TryFoldResult, try_fold,
  try_fold_all_optimistic, try_fold_one_by_one_checked,
}

none_counted : (i : SignerIndex) → occurrences_of i [] ≡ 0
unfolding contains_key
none_counted i = occurrences_of-absent i [] refl

module _ {Signature : Type 0} where
  occurrences_of-all_occurrences :
      (xs : List (SignatureOccurrences × Signature)) (m p : SignatureOccurrences) (i : SignerIndex)
      → All IsInput xs
      → all_occurrences xs m ≡ some p
      → occurrences_of i p ≡ occurrences_of i m + total i xs
  unfolding all_occurrences
  occurrences_of-all_occurrences [] m p i inputs h =
      ap (occurrences_of i) (sym (some-injective m p h)) ∙ omega arith
  occurrences_of-all_occurrences (x ∷ xs) m p i inputs h =
      elim (Option-cases (add_occurrences m x.0)) [
        | inl e ↦ cc (rw (e, all_occurrences) at h)
        | inr (next, e) ↦ omega (
          arith,
          occurrences_of-add_occurrences m x.0 next i inputs.0 e,
          occurrences_of-all_occurrences xs next p i inputs.1 (rw (e, all_occurrences) at h),
        )
      ]

  contains_key-all_occurrences :
      (xs : List (SignatureOccurrences × Signature)) (m p : SignatureOccurrences) (i : SignerIndex)
      → all_occurrences xs m ≡ some p
      → contains_key i p ≡ (contains_key i m || names i xs)
  unfolding all_occurrences
  contains_key-all_occurrences [] m p i h =
      ap (contains_key i) (sym (some-injective m p h)) ∙ ground arith
  contains_key-all_occurrences (x ∷ xs) m p i h = elim (Option-cases (add_occurrences m x.0)) [
    | inl e ↦ cc (rw (e, all_occurrences) at h)
    | inr (next, e) ↦ ground (
      arith,
      contains_key-add_occurrences m x.0 next i e,
      contains_key-all_occurrences xs next p i (rw (e, all_occurrences) at h),
    )
  ]

  all_occurrences_fits :
      (xs : List (SignatureOccurrences × Signature)) (m : SignatureOccurrences)
      → All IsInput xs
      → ((i : SignerIndex) → occurrences_of i m + total i xs < 2 ^ 16)
      → (p : SignatureOccurrences) × (all_occurrences xs m ≡ some p)
  unfolding all_occurrences
  all_occurrences_fits [] m inputs fits = (m, refl)
  all_occurrences_fits (x ∷ xs) m inputs fits =
      let (next, e) = add_occurrences_fits m x.0 inputs.0 (λ i. omega (arith, fits i)) in
      let (p, rest) =
        all_occurrences_fits xs next inputs.1
          (λ i. omega (arith, fits i, occurrences_of-add_occurrences m x.0 next i inputs.0 e)) in
      let whole : all_occurrences (x ∷ xs) m ≡ all_occurrences xs next =
        rw (e, all_occurrences) refl in
      (p, whole ∙ rest)

module _ {Signature PubKey Secret TData : Type 0}
    (bls : BlsSignatureScheme Signature PubKey Secret TData) (attestation_data : TData)
    (signers : Assoc SignerIndex PubKey) where
  abbrev pub IsVerified : Envelope Signature TData → Type 0
  IsVerified e = is_set (verify_signatures bls e signers) ≡ true

  -- The outcome of folding `xs`.
  pub record Folds (xs : List (SignatureOccurrences × Signature))
      (q : TryFoldResult Signature TData) : Type 0 where
    pub taken : List (SignatureOccurrences × Signature)
    pub left_out : List (SignatureOccurrences × Signature)
    pub selects : Selects xs taken left_out
    pub poisoned : q.poisoned ≡ map (envelope_of bls attestation_data signers) left_out
    pub found : is_some q.folded ≡ not (is_empty taken)
    pub counts : (i : SignerIndex) → occurrences_of i (table_of q.folded) ≡ total i taken
    pub signed : (i : SignerIndex) → contains_key i (table_of q.folded) ≡ names i taken
    pub verified :
        All (Verifies bls attestation_data signers) taken
        ⊎ (e : Envelope Signature TData) × (q.folded ≡ some e) × IsVerified e
    pub refused : All (IsRefused bls attestation_data signers) left_out

  abbrev start : TryFoldResult Signature TData
  start = record { folded = none; poisoned = [] }

  Run-Folds :
      (xs : List (SignatureOccurrences × Signature)) (q : TryFoldResult Signature TData)
      → Run bls attestation_data signers xs start q
      → Folds xs q
  unfolding contains_key
  Run-Folds xs q run = record {
    taken = run.taken;
    left_out = run.left_out;
    selects = run.selects;
    poisoned = run.poisoned;
    found = run.found;
    counts = λ i. omega (arith, run.counts i, none_counted i);
    signed = run.signed;
    verified = inl run.verified;
    refused = run.refused;
  }

  envelope_of_all-some :
      (occurrences : SignatureOccurrences) (merged : Option Signature)
      (e : Envelope Signature TData)
      → envelope_of_all bls attestation_data signers occurrences merged ≡ some e
      → (e.signature_occurrences ≡ occurrences) × IsVerified e
  unfolding envelope_of_all create
  envelope_of_all-some occurrences none e h = cc
  envelope_of_all-some occurrences (some s) e h = ground arith

  optimistic_some :
      (xs : List (SignatureOccurrences × Signature)) (e : Envelope Signature TData)
      → try_fold_all_optimistic bls attestation_data xs signers ≡ some (some e)
      → (all_occurrences xs [] ≡ some e.signature_occurrences) × IsVerified e
  unfolding try_fold_all_optimistic
  optimistic_some xs e h = elim (Option-cases (all_occurrences xs [])) [
    | inl over ↦ cc (rw (over, try_fold_all_optimistic) at h)
    | inr (p, made) ↦
        let merged = bls.merge_all (map (λ pair. pair.1) xs) in
        let (same, verified) = envelope_of_all-some p merged e (
          some-injective (envelope_of_all bls attestation_data signers p merged) (some e)
            (rw (made, try_fold_all_optimistic) at h)) in
        (made ∙ ap some (sym same), verified)
  ]

  optimistic_fits :
      (xs : List (SignatureOccurrences × Signature)) (p : SignatureOccurrences)
      → all_occurrences xs [] ≡ some p
      → (o : Option (Envelope Signature TData)) × (try_fold_all_optimistic bls attestation_data xs
            signers
          ≡ some o)
  unfolding try_fold_all_optimistic
  optimistic_fits xs p made = (
    envelope_of_all bls attestation_data signers p (bls.merge_all (map (λ pair. pair.1) xs)),
    rw (made, try_fold_all_optimistic) refl,
  )

  -- Nothing is folded from nothing, since an envelope without signers does not verify.
  unsigned : (e : Envelope Signature TData) → e.signature_occurrences ≡ [] → IsVerified e → ⊥
  unfolding verify_signatures collect_pubkeys
  unsigned e s v = ground arith

  optimistic-found :
      (xs : List (SignatureOccurrences × Signature)) (e : Envelope Signature TData)
      → all_occurrences xs [] ≡ some e.signature_occurrences
      → IsVerified e
      → true ≡ not (is_empty xs)
  unfolding all_occurrences
  optimistic-found [] e h v =
      absurd (unsigned e (sym (some-injective [] e.signature_occurrences h)) v)
  optimistic-found (x ∷ xs) e h v = refl

  optimistic-Folds :
      (xs : List (SignatureOccurrences × Signature)) (e : Envelope Signature TData)
      → All IsInput xs
      → try_fold_all_optimistic bls attestation_data xs signers ≡ some (some e)
      → Folds xs (record { folded = some e; poisoned = [] })
  unfolding contains_key
  optimistic-Folds xs e h o =
      let (occurrences, verified) = optimistic_some xs e o in
      record {
        taken = xs;
        left_out = [];
        selects = Selects-all xs;
        poisoned = refl;
        found = optimistic-found xs e occurrences verified;
        counts = λ i. omega (
          arith,
          none_counted i,
          occurrences_of-all_occurrences xs [] e.signature_occurrences i h occurrences,
        );
        signed = λ i. contains_key-all_occurrences xs [] e.signature_occurrences i occurrences;
        verified = inr (e, refl, verified);
        refused = tt;
      }

  try_fold-some :
      (xs : List (SignatureOccurrences × Signature)) (q : TryFoldResult Signature TData)
      → All IsInput xs
      → try_fold bls attestation_data xs signers ≡ some q
      → Folds xs q
  unfolding try_fold try_fold_one_by_one_checked
  try_fold-some xs q inputs h =
      elim (Option-cases (try_fold_all_optimistic bls attestation_data xs signers)) [
        | inl e ↦ cc (rw (e, try_fold) at h)
        | inr (none, e) ↦
            Run-Folds xs q
              (fold_each-Run bls attestation_data signers xs start q inputs (rw (e, try_fold) at h))
        | inr (some f, e) ↦
            let whole : TryFoldResult Signature TData = record { folded = some f; poisoned = [] } in
            subst (Folds xs) (some-injective whole q (rw (e, try_fold) at h))
              (optimistic-Folds xs f inputs e)
      ]

  -- A fold deals with every pair that it is given, in order: a pair is taken into the folded envelope or
  -- its envelope is poisoned. There is a folded envelope exactly when some pair is taken; the counter of
  -- each signer in it is the sum of those of the pairs taken, and its signers are those of the pairs
  -- taken. Either each pair taken verifies alone, or the folded envelope verifies; a poisoned one does
  -- not verify, or its signature could not be merged with another. Where for each signer the sum over
  -- all pairs is below 2 ^ 16, the fold returns, and does not panic.
  pub try_fold-Folds :
      (xs : List (SignatureOccurrences × Signature))
      → All IsInput xs
      → ((q : TryFoldResult Signature TData)
          → try_fold bls attestation_data xs signers ≡ some q
          → Folds xs q)
        × (((i : SignerIndex) → total i xs < 2 ^ 16)
            → (q : TryFoldResult Signature TData) × (try_fold bls attestation_data xs signers
                ≡ some q))
  unfolding try_fold try_fold_one_by_one_checked
  try_fold-Folds xs inputs = (
    λ q h. try_fold-some xs q inputs h,
    λ fits.
        let (p, made) =
          all_occurrences_fits xs [] inputs (λ i. omega (arith, fits i, none_counted i)) in
        let (each, ran) =
          fold_each_fits bls attestation_data signers xs start inputs
            (λ i. omega (arith, fits i, none_counted i)) in
        let (o, is_some) = optimistic_fits xs p made in
        elim (Option-cases (try_fold_all_optimistic bls attestation_data xs signers)) [
          | inl e ↦ absurd (cc (sym e ∙ is_some))
          | inr (none, e) ↦ (each, rw (e, try_fold) ran)
          | inr (some f, e) ↦ (record { folded = some f; poisoned = [] }, rw (e, try_fold) refl)
        ],
  )
