-- ===== src/Branches/Examples.antt =====
use ackinacki.Common.Assoc.{get}
use ackinacki.Branches.Rounds.{invalidate_branch-Descends, pending}
use ackinacki.Branches.Closure.{Grows, final, Descends, invalid, IsCovered}
use ackinacki.Types.{BlockIdentifier}
use ackinacki.Common.{◌<◌, ok, ◌⊎◌, err, arith, ◌≡◌, List, false, true, ◌∷◌, []}
use ackinacki.Branches.{
  all_children, invalidate_branch, state_of, BlockStateRepository, is_finalized,
}
use ackinacki.BlockState.{can_be_finalized, AckiNackiBlockState, new}

-- Branches at concrete inputs.

abbrev with_children : BlockIdentifier → List BlockIdentifier → AckiNackiBlockState
with_children b children = record (new b) { known_children = (9, children) ∷ [] }

-- Block 1 has the children 2 and 3, and block 3 has the child 4.
abbrev tree : BlockStateRepository
tree = (1, with_children 1 (2 ∷ (3 ∷ []))) ∷ ((3, with_children 3 (4 ∷ [])) ∷ [])

all_valid : (b : BlockIdentifier) → invalid tree b ≡ false
unfolding state_of get new
all_valid b = ground arith

tree-IsCovered : IsCovered [] tree
tree-IsCovered b c is_invalid here = absurd (ground (arith, all_valid b))

fits : pending tree < 4
unfolding pending all_children new
fits = omega arith

invalidate_branch-Descends_example :
    ((invalidate_branch 4 3 tree ≡ err is_finalized)
      × ((b : BlockIdentifier) × Descends tree 3 b × (final tree b ≡ true)))
    ⊎ ((t : BlockStateRepository) × (invalidate_branch 4 3 tree ≡ ok t)
        × Grows tree t
        × IsCovered [] t
        × ((b : BlockIdentifier)
            → Descends tree 3 b
            → (invalid t b ≡ true) × (can_be_finalized (state_of t b) ≡ false))
        × ((b : BlockIdentifier)
            → invalid t b ≡ true
            → (invalid tree b ≡ true) ⊎ Descends tree 3 b))
invalidate_branch-Descends_example = invalidate_branch-Descends 4 3 tree tree-IsCovered fits
