-- ===== src/BlockState/Examples.antt =====
-- Setters of node/src/node/block_state/state.rs at concrete inputs.
use ackinacki.BlockState.{new, AckiNackiBlockState}
use ackinacki.Common.{ℕ, true, some, nat_eq}
use ackinacki.Types.{target_eq}

abbrev fresh : AckiNackiBlockState
fresh = record (new 7) { signatures_verified = some true }

abbrev six : ℕ
six = 6

abbrev eight : ℕ
eight = 8
