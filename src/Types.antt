-- ===== src/Types.antt =====
-- node/src/types: the identifiers and numbers by which blocks and threads are known.
-- A `BlockIdentifier` is 32 bytes and a `ThreadIdentifier` 34; each is the number that its bytes
-- spell, most significant first, so equality and byte order are those of numbers.
use ackinacki.Common.{ℕ, ◌≡◌, ◌↔◌, arith, Bool, true, false, PartialEq}

abbrev pub BlockIdentifier : Type 0
BlockIdentifier = ℕ

abbrev pub ThreadIdentifier : Type 0
ThreadIdentifier = ℕ

abbrev pub BlockSeqNo : Type 0
BlockSeqNo = ℕ

abbrev pub SignerIndex : Type 0
SignerIndex = ℕ

abbrev pub NodeIdentifier : Type 0
NodeIdentifier = ℕ

-- node/src/node/associated_types.rs
pub data AttestationTargetType : Type 0 where
  primary fallback : AttestationTargetType

abbrev pub target_beq : AttestationTargetType → AttestationTargetType → Bool
target_beq primary primary = true
target_beq fallback fallback = true
target_beq _ _ = false

pub target_beq_iff : (a b : AttestationTargetType) → (target_beq a b ≡ true) ↔ (a ≡ b)
target_beq_iff a b = ground arith

instance abbrev pub target_eq : PartialEq AttestationTargetType
target_eq = record { beq = target_beq; beq_iff = target_beq_iff }
