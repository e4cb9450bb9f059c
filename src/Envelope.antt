-- ===== src/Envelope.antt =====
-- node/src/bls/mod.rs and node/src/bls/envelope.rs: data with an aggregated signature and the number
-- of times that each signer has signed.

pub mod Examples
pub mod Verification
use ackinacki.Checkpoints.{is_empty}
use ackinacki.Types.{SignerIndex}
use ackinacki.Common.Assoc.{insert, get, Assoc}
use ackinacki.Common.{
  inr, inl, Bool-cases, Option-cases, ◌∙◌, ap, sym, refl, suc, zero, ◌≡◌, true, ◌==◌, if◌then◌else◌,
  ltb, arith, false, none, ◌∷◌, [], ◌^◌, nat_eq, some, ◌%◌, length, Bool, ◌+◌, List, ℕ, Option,
}
use mathlib.Core.Option

-- The trait `BLSSignatureScheme`, and `merge_all` of `GoshBLS`. The curve arithmetic behind it is not
-- part of the repository; `none` is an error.
pub record BlsSignatureScheme (Signature PubKey Secret TData : Type 0) : Type 0 where
  pub sign : Secret → TData → Option Signature
  pub verify : Signature → List (PubKey × ℕ) → TData → Option Bool
  pub merge : Signature → Signature → Option Signature
  pub merge_all : List Signature → Option Signature

-- `HashMap<SignerIndex, u16>`
abbrev pub SignatureOccurrences : Type 0
SignatureOccurrences = Assoc SignerIndex ℕ

pub record Envelope (Signature TData : Type 0) : Type 0 where
  pub aggregated_signature : Signature
  pub signature_occurrences : SignatureOccurrences
  pub signed_data : TData

-- The addition of counters is checked in every build of the node: `none` is the panic of an overflow.
unfoldable pub add_u16 : ℕ → ℕ → Option ℕ
add_u16 a b = if ltb (a + b) (2 ^ 16) then some (a + b) else none

-- `*map.get(key).unwrap_or(&0)`
unfoldable pub occurrences_of : SignerIndex → SignatureOccurrences → ℕ
occurrences_of i m = elim (get i m) [ none ↦ 0 | some count ↦ count ]

module _ {Signature TData : Type 0} where
  unfoldable pub create : Signature → SignatureOccurrences → TData → Envelope Signature TData
  create aggregated_signature signature_occurrences signed_data = record {
    aggregated_signature = aggregated_signature;
    signature_occurrences = signature_occurrences;
    signed_data = signed_data;
  }

  pub has_signer_index : Envelope Signature TData → SignerIndex → Bool
  has_signer_index e index = elim (get index e.signature_occurrences) [
    | none ↦ false
    | some count ↦ ltb 0 count
  ]

  pub signatures_count : Envelope Signature TData → ℕ
  signatures_count e = length e.signature_occurrences

-- The `match` of `add_signature`.
pub count_signature : SignerIndex → SignatureOccurrences → Option SignatureOccurrences
unfolding add_u16
count_signature signer_index m = elim (get signer_index m) [
  | none ↦ some (insert signer_index 1 m)
  | some count ↦ Option.map (λ next. insert signer_index next m) (add_u16 count 1)
]

-- The loop of `verify_signatures`; `none` is the return at a signer that is not known. A round that
-- sets `is_any_signature_exists` pushes to the list, so the flag says that the list is not empty.
unfoldable pub collect_pubkeys :
    {PubKey : Type 0} → SignatureOccurrences → Assoc SignerIndex PubKey → Option (List (PubKey × ℕ))
collect_pubkeys [] signers = some []
collect_pubkeys ((signer_index, count) ∷ rest) signers =
    let others = collect_pubkeys rest signers in
    if count == 0 then others else elim (get signer_index signers) [
      | none ↦ none
      | some pubkey ↦ Option.map (λ ps. (pubkey, count) ∷ ps) others
    ]

module _ {Signature PubKey Secret TData : Type 0}
    (bls : BlsSignatureScheme Signature PubKey Secret TData) where
  -- `none` is an error of the scheme, or the panic of an overflow.
  pub add_signature :
      Envelope Signature TData → SignerIndex → Secret → Option (Envelope Signature TData)
  unfolding count_signature
  add_signature e signer_index secret = elim (bls.sign secret e.signed_data) [
    | none ↦ none
    | some signature ↦ elim (bls.merge e.aggregated_signature signature) [
      | none ↦ none
      | some merged ↦
          Option.map
            (λ occurrences. record e {
              aggregated_signature = merged;
              signature_occurrences = occurrences;
            })
            (count_signature signer_index e.signature_occurrences)
    ]
  ]

  unfoldable pub verify_signatures :
      Envelope Signature TData → Assoc SignerIndex PubKey → Option Bool
  verify_signatures e signers = elim (collect_pubkeys e.signature_occurrences signers) [
    | none ↦ some false
    | some pubkeys_occurrences ↦
        if is_empty pubkeys_occurrences
        then some false
        else bls.verify e.aggregated_signature pubkeys_occurrences e.signed_data
  ]
