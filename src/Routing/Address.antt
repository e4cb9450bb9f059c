-- ===== src/Routing/Address.antt =====
-- node/src/types/account_address and AccountRouting of node/src/types/threads_table.rs.
-- An `AccountAddress` is 32 bytes; it is modelled as the number that they spell, the first byte the
-- most significant, so bit `index` of the source, which is bit `7 - index % 8` of byte `index / 8`,
-- is bit `255 - index` of the number.
pub mod Laws
use ackinacki.Routing.Bitmask.{BitsSource}
use ackinacki.Common.Bits.{bit_at, bit_and-zero}
use Prim.Native.Nat.{bit_and, bit_or}
use mathlib.Core.Option
use ackinacki.Common.{
  zero, nat_eq, suc, ◌^◌, ◌-◌, ltb, leb, not, arith, ◌&&◌, if◌then◌else◌, PartialEq, ◌↔◌, ◌==◌,
  Option, ℕ, ◌≡◌, Bool, true, [], some, none,
}

abbrev pub AccountAddress : Type 0
AccountAddress = ℕ

abbrev pub DAppIdentifier : Type 0
DAppIdentifier = AccountAddress

pub record AccountRouting : Type 0 where
  pub dapp : DAppIdentifier
  pub account : AccountAddress

-- An account without a dapp is its own dapp.
pub from_optional_dapp : Option DAppIdentifier → AccountAddress → AccountRouting
from_optional_dapp dapp acc = record { dapp = Option.get_or dapp acc; account = acc }

-- `none` is the panic on an index out of bounds.
pub address_get_bit_value : AccountAddress → ℕ → Option Bool
address_get_bit_value a index =
    if leb 256 index then none else some (not (bit_at a (255 - index) == 0))

-- `none` is the panic of the assertion, or of the index.
unfoldable pub address_set_bit_value : AccountAddress → ℕ → Bool → Option AccountAddress
address_set_bit_value a index value =
    if value then (if leb 256 index then none else some (bit_or a (2 ^ (255 - index)))) else none

pub get_bit_value : AccountRouting → ℕ → Option Bool
unfolding address_get_bit_value
get_bit_value r index =
    if ltb index 256
    then address_get_bit_value r.dapp index
    else address_get_bit_value r.account (index - 256)

abbrev with_dapp : AccountRouting → DAppIdentifier → AccountRouting
with_dapp r dapp = record r { dapp = dapp }

abbrev with_account : AccountRouting → AccountAddress → AccountRouting
with_account r account = record r { account = account }

unfoldable pub set_bit_value : AccountRouting → ℕ → Bool → Option AccountRouting
unfolding address_set_bit_value
set_bit_value r index value =
    if ltb index 256
    then Option.map (with_dapp r) (address_set_bit_value r.dapp index value)
    else Option.map (with_account r) (address_set_bit_value r.account (index - 256) value)

-- `impl BitAnd`
pub routing_band : AccountRouting → AccountRouting → AccountRouting
routing_band a b = record { dapp = bit_and a.dapp b.dapp; account = bit_and a.account b.account }

abbrev pub routing_default : AccountRouting
routing_default = record { dapp = 0; account = 0 }

abbrev pub routing_beq : AccountRouting → AccountRouting → Bool
routing_beq a b = a.dapp == b.dapp && a.account == b.account

pub routing_beq_iff : (a b : AccountRouting) → (routing_beq a b ≡ true) ↔ (a ≡ b)
routing_beq_iff a b = ground arith

instance abbrev pub routing_eq : PartialEq AccountRouting
routing_eq = record { beq = routing_beq; beq_iff = routing_beq_iff }

pub routing_band_default :
    (a b : AccountRouting) → routing_band a routing_default ≡ routing_band b routing_default
unfolding routing_band
routing_band_default a b =
    cc (bit_and-zero a.dapp, bit_and-zero b.dapp, bit_and-zero a.account, bit_and-zero b.account)

instance abbrev pub routing_bits : BitsSource AccountRouting
routing_bits = record {
  equality = routing_eq;
  band = routing_band;
  default = routing_default;
  band_default = routing_band_default;
}

-- From<AccountRouting> for [[bool; 256]; 2], as a function of the two indices.
unfoldable pub bits_of_routing : AccountRouting → ℕ → ℕ → Bool
bits_of_routing r zero inner = not (bit_at r.dapp (255 - inner) == 0)
bits_of_routing r (suc outer) inner = not (bit_at r.account (255 - inner) == 0)
