-- ===== src/Fold/Rounds.antt =====
-- The rounds of `try_fold_one_by_one_checked` of node/src/types/attestation/fold.rs.
use ackinacki.Fold.Occurrences.{
  contains_key-add_occurrences, add_occurrences_fits, occurrences_of-add_occurrences,
  occurrences_of-absent,
}
use mathlib.Core.Option.{some-injective, some-injective}
use ackinacki.Checkpoints.{is_empty}
use ackinacki.BlockState.{is_set}
use ackinacki.Common.Assoc.{is_some, contains_key, IsMap, Assoc}
use ackinacki.Types.{SignerIndex}
use ackinacki.Envelope.{
  verify_signatures, create, occurrences_of, BlsSignatureScheme, Envelope, SignatureOccurrences,
}
use ackinacki.Common.{
  ◌≤◌, subst, ◌+◌, sym, Bool-cases, refl, inr, inl, Option-cases, All, ap, not, ◌||◌, ◌∙◌, ◌^◌, map,
  ◌⊎◌, nat_eq, ◌<◌, ◌++◌, any, arith, ◌≡◌, ℕ, Option, List, Bool, false, true, some, none, ◌∷◌, [],
}
use mathlib.Core.List.{append_assoc, append-nil}
use ackinacki.Fold.{add_occurrences, TryFoldResult, fold_verified, fold_one, fold_each}

-- The taken elements and those left out, both in their order.
pub data Selects {ℓ} {A : Type ℓ} : List A → List A → List A → Type ℓ where
  end : Selects [] [] []
  take : {xs ts ls : List A} (x : A) → Selects xs ts ls → Selects (x ∷ xs) (x ∷ ts) ls
  leave : {xs ts ls : List A} (x : A) → Selects xs ts ls → Selects (x ∷ xs) ts (x ∷ ls)

pub Selects-all {ℓ} : {A : Type ℓ} (xs : List A) → Selects xs xs []
Selects-all [] = end
Selects-all (x ∷ xs) = take x (Selects-all xs)

module _ {Signature : Type 0} where
  -- The counters of a pair of `to_combine` are a map.
  abbrev pub IsInput : SignatureOccurrences × Signature → Type 0
  IsInput x = IsMap x.0

  -- The counter of a signer, added up over the pairs.
  abbrev pub total : SignerIndex → List (SignatureOccurrences × Signature) → ℕ
  total i [] = 0
  total i (x ∷ xs) = occurrences_of i x.0 + total i xs

  abbrev pub names : SignerIndex → List (SignatureOccurrences × Signature) → Bool
  names i = any (λ x. contains_key i x.0)

abbrev pub table_of :
    {Signature TData : Type 0} → Option (Envelope Signature TData) → SignatureOccurrences
table_of none = []
table_of (some e) = e.signature_occurrences

module _ {Signature PubKey Secret TData : Type 0}
    (bls : BlsSignatureScheme Signature PubKey Secret TData) (attestation_data : TData)
    (signers : Assoc SignerIndex PubKey) where
  abbrev pub envelope_of : SignatureOccurrences × Signature → Envelope Signature TData
  envelope_of x = create x.1 x.0 attestation_data

  abbrev pub Verifies : SignatureOccurrences × Signature → Type 0
  Verifies x = is_set (verify_signatures bls (envelope_of x) signers) ≡ true

  -- The pair does not verify, or its signature could not be merged with another.
  abbrev pub IsRefused : SignatureOccurrences × Signature → Type 0
  IsRefused x =
      (is_set (verify_signatures bls (envelope_of x) signers) ≡ false)
      ⊎ (s : Signature) × (bls.merge s x.1 ≡ none)

  -- What the loop does from `r`, when it ends in `q`.
  pub record Run (xs : List (SignatureOccurrences × Signature))
      (r q : TryFoldResult Signature TData) : Type 0 where
    pub taken : List (SignatureOccurrences × Signature)
    pub left_out : List (SignatureOccurrences × Signature)
    pub selects : Selects xs taken left_out
    pub poisoned : q.poisoned ≡ r.poisoned ++ map envelope_of left_out
    pub counts :
        (i : SignerIndex)
        → occurrences_of i (table_of q.folded)
          ≡ occurrences_of i (table_of r.folded) + total i taken
    pub signed :
        (i : SignerIndex)
        → contains_key i (table_of q.folded) ≡ (contains_key i (table_of r.folded) || names i taken)
    pub found : is_some q.folded ≡ (is_some r.folded || not (is_empty taken))
    pub verified : All Verifies taken
    pub refused : All IsRefused left_out

  Run-left_out :
      (x : SignatureOccurrences × Signature) (xs : List (SignatureOccurrences × Signature))
      (r q : TryFoldResult Signature TData)
      → IsRefused x
      → Run xs (record r { poisoned = r.poisoned ++ (envelope_of x ∷ []) }) q
      → Run (x ∷ xs) r q
  Run-left_out x xs r q h run = record {
    taken = run.taken;
    left_out = x ∷ run.left_out;
    selects = leave x run.selects;
    poisoned =
        run.poisoned ∙ append_assoc r.poisoned (envelope_of x ∷ []) (map envelope_of run.left_out);
    counts = run.counts;
    signed = run.signed;
    found = run.found;
    verified = run.verified;
    refused = (h, run.refused);
  }

  Run-taken :
      (x : SignatureOccurrences × Signature) (xs : List (SignatureOccurrences × Signature))
      (r m q : TryFoldResult Signature TData)
      → Verifies x
      → m.poisoned ≡ r.poisoned
      → is_some m.folded ≡ true
      → ((i : SignerIndex)
          → occurrences_of i (table_of m.folded)
            ≡ occurrences_of i (table_of r.folded) + occurrences_of i x.0)
      → ((i : SignerIndex)
          → contains_key i (table_of m.folded)
            ≡ (contains_key i (table_of r.folded) || contains_key i x.0))
      → Run xs m q
      → Run (x ∷ xs) r q
  Run-taken x xs r m q v p f c s run = record {
    taken = x ∷ run.taken;
    left_out = run.left_out;
    selects = take x run.selects;
    poisoned = run.poisoned ∙ ap (λ l. l ++ map envelope_of run.left_out) p;
    counts = λ i. omega (arith, run.counts i, c i);
    signed = λ i. ground (arith, run.signed i, s i);
    found = ground (arith, run.found);
    verified = (v, run.verified);
    refused = run.refused;
  }

  -- A round of the loop for a pair that verifies.
  fold_verified-Run :
      (x : SignatureOccurrences × Signature) (xs : List (SignatureOccurrences × Signature))
      (r m q : TryFoldResult Signature TData)
      → IsInput x
      → Verifies x
      → fold_verified bls attestation_data r (envelope_of x) ≡ some m
      → Run xs m q
      → Run (x ∷ xs) r q
  unfolding fold_verified create contains_key
  fold_verified-Run x xs r m q input v h run = elim (Option-cases r.folded) [
    | inl e ↦
        let next : TryFoldResult Signature TData = record r { folded = some (envelope_of x) } in
        let same : next ≡ m = some-injective next m (rw (e, fold_verified, create) at h) in
        Run-taken x xs r next q v refl refl (λ i. ground (arith, occurrences_of-absent i [] refl))
          (λ i. ground arith) (subst (λ y. Run xs y q) (sym same) run)
    | inr (e, f) ↦ elim (Option-cases (bls.merge e.aggregated_signature x.1)) [
      | inl failed ↦
          let next : TryFoldResult Signature TData = record r {
            poisoned = r.poisoned ++ (envelope_of x ∷ []);
          } in
          let same : next ≡ m =
            some-injective next m (rw (f, failed, fold_verified, create) at h) in
          Run-left_out x xs r q (inr (e.aggregated_signature, failed))
            (subst (λ y. Run xs y q) (sym same) run)
      | inr (s, merged) ↦ elim (Option-cases (add_occurrences e.signature_occurrences x.0)) [
        | inl over ↦ cc (rw (f, merged, over, fold_verified, create) at h)
        | inr (p, added) ↦
            let next : TryFoldResult Signature TData = record r {
              folded = some (create s p attestation_data);
            } in
            let same : next ≡ m =
              some-injective next m (rw (f, merged, added, fold_verified, create) at h) in
            Run-taken x xs r next q v refl refl
              (λ i. ground (
                arith,
                f,
                occurrences_of-add_occurrences e.signature_occurrences x.0 p i input added,
              ))
              (λ i.
                ground
                  (arith, f, contains_key-add_occurrences e.signature_occurrences x.0 p i added))
              (subst (λ y. Run xs y q) (sym same) run)
      ]
    ]
  ]

  fold_one-Run :
      (x : SignatureOccurrences × Signature) (xs : List (SignatureOccurrences × Signature))
      (r m q : TryFoldResult Signature TData)
      → IsInput x
      → fold_one bls attestation_data signers r (envelope_of x) ≡ some m
      → Run xs m q
      → Run (x ∷ xs) r q
  unfolding fold_one
  fold_one-Run x xs r m q input h run =
      elim (Bool-cases (is_set (verify_signatures bls (envelope_of x) signers))) [
        | inl v ↦ fold_verified-Run x xs r m q input v (rw (v, fold_one) at h) run
        | inr w ↦
            let next : TryFoldResult Signature TData = record r {
              poisoned = r.poisoned ++ (envelope_of x ∷ []);
            } in
            let same : next ≡ m = some-injective next m (rw (w, fold_one) at h) in
            Run-left_out x xs r q (inl w) (subst (λ y. Run xs y q) (sym same) run)
      ]

  pub fold_each-Run :
      (xs : List (SignatureOccurrences × Signature)) (r q : TryFoldResult Signature TData)
      → All IsInput xs
      → fold_each bls attestation_data signers xs r ≡ some q
      → Run xs r q
  unfolding fold_each
  fold_each-Run [] r q inputs h = subst (Run [] r) (some-injective r q h) (record {
    taken = [];
    left_out = [];
    selects = end;
    poisoned = sym (append-nil r.poisoned);
    counts = λ i. omega arith;
    signed = λ i. ground arith;
    found = ground arith;
    verified = tt;
    refused = tt;
  })
  fold_each-Run (x ∷ xs) r q inputs h =
      elim (Option-cases (fold_one bls attestation_data signers r (envelope_of x))) [
        | inl e ↦ cc (rw (e, fold_each) at h)
        | inr (m, e) ↦
            fold_one-Run x xs r m q inputs.0 e
              (fold_each-Run xs m q inputs.1 (rw (e, fold_each) at h))
      ]

  -- A round whose sums fit does not panic, and raises no counter above its sum.
  fold_one_fits :
      (x : SignatureOccurrences × Signature) (r : TryFoldResult Signature TData)
      → IsInput x
      → ((i : SignerIndex) → occurrences_of i (table_of r.folded) + occurrences_of i x.0 < 2 ^ 16)
      → (m : TryFoldResult Signature TData) × (fold_one bls attestation_data signers r
            (envelope_of x)
          ≡ some m)
        × ((i : SignerIndex)
            → occurrences_of i (table_of m.folded)
              ≤ occurrences_of i (table_of r.folded) + occurrences_of i x.0)
  unfolding fold_one fold_verified create
  fold_one_fits x r input fits =
      elim (Bool-cases (is_set (verify_signatures bls (envelope_of x) signers))) [
        | inr w ↦ (
          record r { poisoned = r.poisoned ++ (envelope_of x ∷ []) },
          rw (w, fold_one) refl,
          λ i. omega arith,
        )
        | inl v ↦ elim (Option-cases r.folded) [
          | inl e ↦ (
            record r { folded = some (envelope_of x) },
            rw (v, e, fold_one, fold_verified) refl,
            λ i. omega arith,
          )
          | inr (f, e) ↦ elim (Option-cases (bls.merge f.aggregated_signature x.1)) [
            | inl failed ↦ (
              record r { folded = some f; poisoned = r.poisoned ++ (envelope_of x ∷ []) },
              rw (v, e, failed, fold_one, fold_verified, create)
                  (ap
                    (λ o.
                      some (record r { folded = o; poisoned = r.poisoned ++ (envelope_of x ∷ []) }))
                    e),
              λ i. rw e (omega arith),
            )
            | inr (s, merged) ↦
                let (p, added) =
                  add_occurrences_fits f.signature_occurrences x.0 input (λ i. rw e at (fits i)) in
                (
                  record r { folded = some (create s p attestation_data) },
                  rw (v, e, merged, added, fold_one, fold_verified, create) refl,
                  λ i. rw e (
                      omega (
                        arith,
                        occurrences_of-add_occurrences f.signature_occurrences x.0 p i input added,
                      )),
                )
          ]
        ]
      ]

  pub fold_each_fits :
      (xs : List (SignatureOccurrences × Signature)) (r : TryFoldResult Signature TData)
      → All IsInput xs
      → ((i : SignerIndex) → occurrences_of i (table_of r.folded) + total i xs < 2 ^ 16)
      → (q : TryFoldResult Signature TData) × (fold_each bls attestation_data signers xs r ≡ some q)
  unfolding fold_each
  fold_each_fits [] r inputs fits = (r, refl)
  fold_each_fits (x ∷ xs) r inputs fits =
      let (m, e, bound) = fold_one_fits x r inputs.0 (λ i. omega (arith, fits i)) in
      let (q, rest) = fold_each_fits xs m inputs.1 (λ i. omega (arith, fits i, bound i)) in
      let whole : fold_each bls attestation_data signers (x ∷ xs) r
          ≡ fold_each bls attestation_data signers xs m =
        rw (e, fold_each) refl in
      (q, whole ∙ rest)
