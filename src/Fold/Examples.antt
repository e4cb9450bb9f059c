-- ===== src/Fold/Examples.antt =====
-- Folds of node/src/types/attestation/fold.rs at concrete inputs, under the scheme in which a signature
-- is the sum of the keys that signed.
use ackinacki.Fold.{TryFoldResult, try_fold}
use ackinacki.Fold.Rounds.{total, IsInput}
use ackinacki.Envelope.Examples.{sums}
use ackinacki.Types.{SignerIndex}
use ackinacki.Fold.Outcome.{try_fold-Folds, Folds}
use ackinacki.Common.Assoc.{contains_key, Assoc}
use ackinacki.Envelope.{SignatureOccurrences}
use ackinacki.Common.{◌^◌, ◌<◌, ◌≡◌, some, All, ℕ, List, ◌∷◌, [], nat_eq, refl}

-- Two signatures that verify, and one of a signer that is not known.
abbrev three : List (SignatureOccurrences × ℕ)
three = (((1, 1) ∷ []), 10) ∷ (((9, 1) ∷ []), 90) ∷ (((1, 1) ∷ (2, 1) ∷ []), 30) ∷ []

abbrev signers : Assoc SignerIndex ℕ
signers = (1, 10) ∷ (2, 20) ∷ []

three-IsInput : All IsInput three
unfolding contains_key
three-IsInput = ((refl, tt), ((refl, tt), ((refl, (refl, tt)), tt)))

try_fold-Folds_example :
    ((q : TryFoldResult ℕ ℕ)
      → try_fold sums 5 three signers ≡ some q
      → Folds sums 5 signers three q)
    × (((i : SignerIndex) → total i three < 2 ^ 16)
        → (q : TryFoldResult ℕ ℕ) × (try_fold sums 5 three signers ≡ some q))
try_fold-Folds_example = try_fold-Folds sums 5 signers three three-IsInput
