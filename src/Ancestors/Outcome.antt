-- ===== src/Ancestors/Outcome.antt =====
use ackinacki.Ancestors.{
  climb, select_unfinalized_ancestor_blocks, look, look_up, return, out_of_rounds, select, Round,
  failed_to_load_block_state, incomplete_history, invalidated_parent, block_seq_no_cutoff, Selected,
}
use ackinacki.BlockState.{is_set, AckiNackiBlockState}
use ackinacki.Types.{BlockSeqNo, BlockIdentifier}
use ackinacki.Common.{
  ltb, not, subst, ◌&&◌, ◌+◌, ◌⊎◌, err, ◌++◌, ok, ◌≤◌, ◌<◌, inr, inl, Bool-cases, Option-cases, ◌∙◌,
  ap, sym, refl, suc, zero, arith, ◌≡◌, ℕ, Option, List, false, true, some, none, ◌∷◌, [],
}
use mathlib.Core.List.{append-nil, append_assoc, reverse}

-- What select_unfinalized_ancestor_blocks of node/src/node/block_state/unfinalized_ancestor_blocks.rs
-- returns.
module _ (read : BlockIdentifier → Option AckiNackiBlockState) (cutoff : BlockSeqNo) where
  -- Of the blocks that can be read, the parent of a block that is not final has a smaller number.
  abbrev pub ParentsAreOlder : Type 0
  ParentsAreOlder =
      (id at : BlockIdentifier) (child parent : AckiNackiBlockState) (n m : BlockSeqNo)
      → read id ≡ some child
      → is_set child.finalized ≡ false
      → child.parent_block_identifier ≡ some at
      → read at ≡ some parent
      → child.block_seq_no ≡ some n
      → parent.block_seq_no ≡ some m
      → m < n

  -- The walk passes the block on its way to the parent `at`.
  abbrev pub IsPassed : AckiNackiBlockState → BlockIdentifier → Type 0
  IsPassed b at =
      (is_set b.finalized ≡ false)
      × (is_set b.invalidated ≡ false)
      × ((n : BlockSeqNo) × (b.block_seq_no ≡ some n) × (cutoff ≤ n))
      × (b.parent_block_identifier ≡ some at)

  -- The blocks from the first one back along the parents, and the block that the walk comes to next.
  abbrev pub Climbs : AckiNackiBlockState → List AckiNackiBlockState → AckiNackiBlockState → Type 0
  Climbs cursor [] end = cursor ≡ end
  Climbs cursor (b ∷ bs) end =
      (cursor ≡ b)
      × (at : BlockIdentifier) × IsPassed b at
      × (parent : AckiNackiBlockState) × (read at ≡ some parent)
      × Climbs parent bs end

  -- What the walk from the tail comes to, for each result.
  abbrev pub Explains : List AckiNackiBlockState → AckiNackiBlockState → Selected → Type 0
  Explains before tail (ok blocks) =
      (chain : List AckiNackiBlockState) × (end : AckiNackiBlockState) × Climbs tail chain end
      × (is_set end.finalized ≡ true)
      × (blocks ≡ reverse (before ++ chain))
  Explains before tail (err (block_seq_no_cutoff blocks)) =
      (chain : List AckiNackiBlockState) × (end : AckiNackiBlockState) × Climbs tail chain end
      × (is_set end.finalized ≡ false)
      × ((n : BlockSeqNo) × (end.block_seq_no ≡ some n) × (n < cutoff))
      × (blocks ≡ (before ++ chain) ++ (end ∷ []))
  Explains before tail (err (invalidated_parent blocks)) =
      (chain : List AckiNackiBlockState) × (end : AckiNackiBlockState) × Climbs tail chain end
      × (is_set end.finalized ≡ false)
      × (is_set end.invalidated ≡ true)
      × (blocks ≡ (before ++ chain) ++ (end ∷ []))
  Explains before tail (err incomplete_history) =
      (chain : List AckiNackiBlockState) × (end : AckiNackiBlockState) × Climbs tail chain end
      × ((end.block_seq_no ≡ none) ⊎ (end.parent_block_identifier ≡ none))
  Explains before tail (err failed_to_load_block_state) =
      (chain : List AckiNackiBlockState) × (end : AckiNackiBlockState) × Climbs tail chain end
      × (at : BlockIdentifier) × IsPassed end at
      × (read at ≡ none)
  Explains before tail (err out_of_rounds) = ⊥

  abbrev Sees : List AckiNackiBlockState → AckiNackiBlockState → Round → Type 0
  Sees before cursor (return result) = Explains before cursor result
  Sees before cursor (climb at) = IsPassed cursor at

  look_up-Sees :
      (before : List AckiNackiBlockState) (cursor : AckiNackiBlockState) (n : Option BlockSeqNo)
      (at : Option BlockIdentifier)
      → cursor.block_seq_no ≡ n
      → cursor.parent_block_identifier ≡ at
      → (is_set cursor.invalidated && not (is_set cursor.finalized)) ≡ false
      → Sees before cursor (look_up cutoff before cursor n at)
  unfolding look_up
  look_up-Sees before cursor none at number parent valid = ([], cursor, refl, inl number)
  look_up-Sees before cursor (some n) none number parent valid = ([], cursor, refl, inr parent)
  look_up-Sees before cursor (some n) (some at) number parent valid =
      elim (Bool-cases (is_set cursor.finalized)) [
        | inl e ↦ rw e ([], cursor, refl, e, ap reverse (sym (append-nil before)))
        | inr e ↦ rw e (elim (Bool-cases (ltb n cutoff)) [
          | inl f ↦ rw f (
            [],
            cursor,
            refl,
            e,
            (n, number, ground (arith, f)),
            ap (λ l. l ++ (cursor ∷ [])) (sym (append-nil before)),
          )
          | inr f ↦ rw f (e, ground (arith, e, valid), (n, number, ground (arith, f)), parent)
        ])
      ]

  look-Sees :
      (before : List AckiNackiBlockState) (cursor : AckiNackiBlockState)
      → Sees before cursor (look cutoff before cursor)
  unfolding look
  look-Sees before cursor =
      elim (Bool-cases (is_set cursor.invalidated && not (is_set cursor.finalized))) [
        | inl e ↦ rw e (
          [],
          cursor,
          refl,
          ground (arith, e),
          ground (arith, e),
          ap (λ l. l ++ (cursor ∷ [])) (sym (append-nil before)),
        )
        | inr e ↦ rw e (
            look_up-Sees before cursor cursor.block_seq_no cursor.parent_block_identifier refl refl
              e)
      ]

  longer :
      (before chain : List AckiNackiBlockState) (cursor : AckiNackiBlockState)
      → (before ++ (cursor ∷ [])) ++ chain ≡ before ++ (cursor ∷ chain)
  longer before chain cursor = append_assoc before (cursor ∷ []) chain

  Explains-climb :
      (before : List AckiNackiBlockState) (cursor next : AckiNackiBlockState) (at : BlockIdentifier)
      (result : Selected)
      → IsPassed cursor at
      → read at ≡ some next
      → Explains (before ++ (cursor ∷ [])) next result
      → Explains before cursor result
  Explains-climb before cursor next at (ok blocks) passed found (chain, end, climbs, final, same) =
      (
        cursor ∷ chain,
        end,
        (refl, at, passed, next, found, climbs),
        final,
        same ∙ ap reverse (longer before chain cursor),
      )
  Explains-climb before cursor next at (err (block_seq_no_cutoff blocks)) passed found
        (chain, end, climbs, pending, below, same) =
      (
        cursor ∷ chain,
        end,
        (refl, at, passed, next, found, climbs),
        pending,
        below,
        same ∙ ap (λ l. l ++ (end ∷ [])) (longer before chain cursor),
      )
  Explains-climb before cursor next at (err (invalidated_parent blocks)) passed found
        (chain, end, climbs, pending, invalid, same) =
      (
        cursor ∷ chain,
        end,
        (refl, at, passed, next, found, climbs),
        pending,
        invalid,
        same ∙ ap (λ l. l ++ (end ∷ [])) (longer before chain cursor),
      )
  Explains-climb before cursor next at (err incomplete_history) passed found
        (chain, end, climbs, missing) =
      (cursor ∷ chain, end, (refl, at, passed, next, found, climbs), missing)
  Explains-climb before cursor next at (err failed_to_load_block_state) passed found
        (chain, end, climbs, last, seen, unread) =
      (cursor ∷ chain, end, (refl, at, passed, next, found, climbs), last, seen, unread)
  Explains-climb before cursor next at (err out_of_rounds) passed found e = e

  Round-cases :
      (r : Round)
      → ((result : Selected) × (r ≡ return result)) ⊎ ((at : BlockIdentifier) × (r ≡ climb at))
  Round-cases (return result) = inl (result, refl)
  Round-cases (climb at) = inr (at, refl)

  select-Explains :
      (rounds : ℕ) (before : List AckiNackiBlockState) (id : BlockIdentifier)
      (cursor : AckiNackiBlockState)
      → ParentsAreOlder
      → read id ≡ some cursor
      → 0 < rounds
      → ((n : BlockSeqNo) → cursor.block_seq_no ≡ some n → n + 1 < rounds)
      → Explains before cursor (select read cutoff rounds before cursor)
  unfolding select
  select-Explains zero before id cursor older at some_rounds enough = absurd (omega arith)
  select-Explains (suc rounds) before id cursor older at some_rounds enough =
      elim (Round-cases (look cutoff before cursor)) [
        | inl (result, e) ↦ rw (e, select) (subst (Sees before cursor) e (look-Sees before cursor))
        | inr (parent, e) ↦
            let passed = subst (Sees before cursor) e (look-Sees before cursor) in
            elim (Option-cases (read parent)) [
              | inl f ↦ rw (e, f, select) ([], cursor, refl, parent, passed, f)
              | inr (next, f) ↦
                  let (pending, valid, (number, has_number, above), has_parent) = passed in
                  let left = enough number has_number in
                  rw (e, f, select)
                    (Explains-climb before cursor next parent
                      (select read cutoff rounds (before ++ (cursor ∷ [])) next) passed f
                      (select-Explains rounds (before ++ (cursor ∷ [])) parent next older f
                        (omega (arith, left))
                        (λ m has. omega (
                          arith,
                          left,
                          older id parent cursor next number m at pending has_parent f has_number
                              has,
                        ))))
            ]
      ]

  -- Where the parent of a block that is not final has a smaller number, the walk from a block ends
  -- within two rounds more than its number. It climbs over blocks that are neither final nor
  -- invalidated and that are at or above the cutoff. It succeeds when it comes to a final block, with
  -- the blocks that it passed, oldest first. It fails at a block that is invalidated but not final, or
  -- not final and below the cutoff, with the blocks that it passed and that one, newest first; and
  -- else where a number or a parent is unknown or the parent can not be read.
  pub select_unfinalized_ancestor_blocks-Explains :
      (rounds : ℕ) (id : BlockIdentifier) (tail : AckiNackiBlockState)
      → ParentsAreOlder
      → read id ≡ some tail
      → 0 < rounds
      → ((n : BlockSeqNo) → tail.block_seq_no ≡ some n → n + 1 < rounds)
      → Explains [] tail (select_unfinalized_ancestor_blocks read rounds tail cutoff)
  unfolding select_unfinalized_ancestor_blocks
  select_unfinalized_ancestor_blocks-Explains rounds id tail older at some_rounds enough =
      select-Explains rounds [] id tail older at some_rounds enough
