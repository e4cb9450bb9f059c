-- ===== src/Ancestors/Examples.antt =====
use ackinacki.Ancestors.{look, select_unfinalized_ancestor_blocks}
use ackinacki.Ancestors.Outcome.{
  select_unfinalized_ancestor_blocks-Explains, Explains, ParentsAreOlder,
}
use ackinacki.Types.{BlockIdentifier}
use ackinacki.Common.{
  nat_eq, ok, ltb, ◌==◌, ◌<◌, if◌then◌else◌, ◌-◌, refl, arith, ◌≡◌, ℕ, Option, some, none, ◌∷◌, [],
}
use ackinacki.BlockState.{AckiNackiBlockState, new}

-- Walks to the last final block at concrete inputs.

-- Block `n` follows block `n - 1`, up to block 5; the second one is final.
abbrev state : ℕ → AckiNackiBlockState
state n = record (new n) {
  block_seq_no = some n;
  parent_block_identifier = some (n - 1);
  finalized = some (n == 2);
}

abbrev read : BlockIdentifier → Option AckiNackiBlockState
read b = if ltb 0 b then (if ltb b 6 then some (state b) else none) else none

read-some :
    (b : BlockIdentifier) (r : AckiNackiBlockState) → read b ≡ some r → (0 < b) × (r ≡ state b)
read-some b r h = ground arith

read-ParentsAreOlder : ParentsAreOlder read 0
read-ParentsAreOlder id at child parent n m h not_final above g number older =
    let (positive, is_block) = read-some id child h in
    let (higher, is_parent) = read-some at parent g in
    let at_id : some (id - 1) ≡ some at = rw is_block at above in
    let n_id : some id ≡ some n = rw is_block at number in
    let m_at : some at ≡ some m = rw is_parent at older in ground arith

-- The blocks above the second one, oldest first.
selects : select_unfinalized_ancestor_blocks read 7 (state 4) 0 ≡ ok (state 3 ∷ (state 4 ∷ []))
unfolding select_unfinalized_ancestor_blocks look new
selects = refl

select_unfinalized_ancestor_blocks-Explains_example :
    Explains read 0 [] (state 4) (select_unfinalized_ancestor_blocks read 7 (state 4) 0)
select_unfinalized_ancestor_blocks-Explains_example =
    select_unfinalized_ancestor_blocks-Explains read 0 7 4 (state 4) read-ParentsAreOlder refl
      (omega arith) (λ n same. ground arith)
