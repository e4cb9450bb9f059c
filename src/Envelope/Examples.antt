-- ===== src/Envelope/Examples.antt =====
-- An envelope of node/src/bls/envelope.rs at concrete inputs, under a scheme in which a signature is
-- the sum of the keys that signed.
use ackinacki.Envelope.Verification.{signatures_count-zero, verify_signatures-signers}
use ackinacki.Types.{SignerIndex}
use ackinacki.Common.Assoc.{get, contains_key, Assoc}
use ackinacki.Envelope.{
  signatures_count, has_signer_index, collect_pubkeys, verify_signatures, Envelope,
  BlsSignatureScheme,
}
use ackinacki.Common.{◌==◌, ◌+◌, ◌*◌, ◌≡◌, ℕ, List, true, some, ◌∷◌, [], nat_eq, refl}

abbrev pub sum_of_keys : List (ℕ × ℕ) → ℕ
sum_of_keys [] = 0
sum_of_keys ((key, count) ∷ rest) = key * count + sum_of_keys rest

abbrev list_sum : List ℕ → ℕ
list_sum [] = 0
list_sum (x ∷ xs) = x + list_sum xs

abbrev pub sums : BlsSignatureScheme ℕ ℕ ℕ ℕ
sums = record {
  sign = λ secret signed. some secret;
  verify = λ signature keys signed. some (signature == sum_of_keys keys);
  merge = λ a b. some (a + b);
  merge_all = λ signatures. some (list_sum signatures);
}

abbrev signers : Assoc SignerIndex ℕ
signers = (1, 10) ∷ (2, 20) ∷ []

abbrev signed_by_both : Envelope ℕ ℕ
signed_by_both = record {
  aggregated_signature = 30;
  signature_occurrences = (1, 1) ∷ (2, 1) ∷ [];
  signed_data = 5;
}

verify_signatures-signers_example :
    ((i : SignerIndex) × (has_signer_index signed_by_both i ≡ true))
    × ((j : SignerIndex) → has_signer_index signed_by_both j ≡ true → contains_key j signers ≡ true)
unfolding verify_signatures collect_pubkeys get contains_key
verify_signatures-signers_example =
    verify_signatures-signers sums signed_by_both signers (refl, (refl, tt)) refl

signatures_count-zero_example :
    let padded = record signed_by_both {
      signature_occurrences = (7, 0) ∷ signed_by_both.signature_occurrences;
    } in
    (verify_signatures sums padded signers ≡ verify_signatures sums signed_by_both signers)
    × (has_signer_index padded 7 ≡ has_signer_index signed_by_both 7)
    × (signatures_count padded ≡ signatures_count signed_by_both + 1)
unfolding contains_key
signatures_count-zero_example = signatures_count-zero sums signed_by_both signers 7 7 refl
