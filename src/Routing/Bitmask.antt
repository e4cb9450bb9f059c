-- ===== src/Routing/Bitmask.antt =====
-- node/src/bitmask/mask.rs: a bitmask over any source of bits.
use ackinacki.Common.{arith, ◌↔◌, ◌&&◌, PartialEq, ◌≡◌, Bool, true}

-- The bounds of `TBitsSource`: equality, `&`, and a default value under which every `&` is the same.
pub record BitsSource {ℓ} (A : Type ℓ) : Type ℓ where
  pub equality : PartialEq A
  pub band : A → A → A
  pub default : A
  pub band_default : (a b : A) → band a default ≡ band b default

pub record Bitmask {ℓ} (A : Type ℓ) : Type ℓ where
  pub mask_bits : A
  pub meaningful_mask_bits : A

module _ {ℓ} {A : Type ℓ} ⦃src : BitsSource A⦄ where
  abbrev pub bits_eq : A → A → Bool
  bits_eq = src.equality.beq

  unfoldable pub is_match : Bitmask A → A → Bool
  is_match m account_address =
      bits_eq (src.band account_address m.meaningful_mask_bits)
        (src.band m.mask_bits m.meaningful_mask_bits)

  unfoldable pub default_mask : Bitmask A
  default_mask = record { mask_bits = src.default; meaningful_mask_bits = src.default }

  -- `PartialEq` as derived.
  abbrev pub mask_beq : Bitmask A → Bitmask A → Bool
  mask_beq m n =
      bits_eq m.mask_bits n.mask_bits && bits_eq m.meaningful_mask_bits n.meaningful_mask_bits

  pub mask_beq_iff : (m n : Bitmask A) → (mask_beq m n ≡ true) ↔ (m ≡ n)
  mask_beq_iff m n = ground (
    arith,
    src.equality.beq_iff m.mask_bits n.mask_bits,
    src.equality.beq_iff m.meaningful_mask_bits n.meaningful_mask_bits,
  )

  instance abbrev pub mask_eq : PartialEq (Bitmask A)
  mask_eq = record { beq = mask_beq; beq_iff = mask_beq_iff }

  -- The default mask matches every address.
  pub is_match-default : (a : A) → is_match default_mask a ≡ true
  unfolding is_match default_mask
  is_match-default a = (src.equality.beq_iff _ _).1 (src.band_default a src.default)
