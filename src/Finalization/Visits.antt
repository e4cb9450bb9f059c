-- ===== src/Finalization/Visits.antt =====
use ackinacki.Finalization.Told.{finalize_block-Finalizes, Finalizes}
use ackinacki.Identity.{BlockHeight}
use ackinacki.Common.Assoc.{is_some, get, get, Assoc}
use ackinacki.Branches.{state_of}
use ackinacki.Finalization.{Node, finalize_block}
use ackinacki.Finalization.Trying.{
  border_at, visit_all, visit_block, visit_candidate, border_after, finalized_at, all_facts,
  Progress,
}
use ackinacki.Types.{BlockSeqNo, BlockIdentifier}
use ackinacki.Finalization.Kept.{IsKept-trans, IsKept, core}
use ackinacki.Common.{
  ℕ, ◌&&◌, not, ltb, if◌then◌else◌, ==_cases, ◌⊎◌, contains, nat_eq, subst, inr, inl, Bool-cases,
  ◌∙◌, ap, sym, refl, arith, ◌≡◌, Option, List, Bool, true, some, none, ◌∷◌, [],
}
use mathlib.Core.Option.{some-injective}
use ackinacki.SharedServices.{FinalizedBlock}
use ackinacki.Branches.Closure.{final}
use ackinacki.BlockState.{
  AttestationTargets, AckiNackiBlockState, is_set, can_be_finalized, has_all_nacks_resolved,
  has_bad_block_nacks_resolved,
}

-- The loop of try_finalize of node/src/node/services/finalization/mod.rs over the blocks that a parent
-- finalizes.
abbrev pub ready : AckiNackiBlockState → AckiNackiBlockState
ready s = record s { has_parent_finalized = some true }

can_be_finalized-ready :
    (s t : AckiNackiBlockState)
    → core s ≡ core t
    → can_be_finalized s ≡ true
    → can_be_finalized (ready t) ≡ true
unfolding can_be_finalized has_all_nacks_resolved has_bad_block_nacks_resolved
can_be_finalized-ready s t same h =
    let own : can_be_finalized (ready (core s)) ≡ true = ground (arith, h) in
    let other : can_be_finalized (ready (core t)) ≡ true =
      ap (λ x. can_be_finalized (ready x)) (sym same) ∙ own in
    other

-- Of a node, the candidates are under their own identifiers.
abbrev pub IsKeyed : Assoc BlockIdentifier FinalizedBlock → Type 0
IsKeyed queue =
    (b : BlockIdentifier) (block : FinalizedBlock)
    → get b queue ≡ some block
    → block.block_identifier ≡ b

module _ {Signature : Type 0} (is_saved : BlockIdentifier → Bool) (start : Node Signature)
    (ids : List BlockIdentifier) where
  -- What a block that is made final was at the start.
  abbrev pub WasReady : BlockIdentifier → Type 0
  WasReady b =
      (contains b ids ≡ true)
      × (can_be_finalized (ready (state_of start.block_states b)) ≡ true)
      × (is_some (get b start.unprocessed_blocks) ≡ true)

  abbrev pub IsListedNumber : BlockSeqNo → Type 0
  IsListedNumber n =
      (b : BlockIdentifier) × (contains b ids ≡ true)
      × ((state_of start.block_states b).block_seq_no ≡ some n)

  -- What holds of the progress at every block.
  pub record IsOnTrack (p : Progress Signature) : Type 0 where
    pub kept : IsKept start.block_states p.node.block_states
    pub queue : p.node.unprocessed_blocks ≡ start.unprocessed_blocks
    pub finals :
        (b : BlockIdentifier)
        → final p.node.block_states b ≡ true
        → (final start.block_states b ≡ true) ⊎ WasReady b
    pub stays :
        (b : BlockIdentifier)
        → final start.block_states b ≡ true
        → final p.node.block_states b ≡ true
    pub number : (p.max_finalized_seq_no ≡ 0) ⊎ IsListedNumber p.max_finalized_seq_no

  IsOnTrack-number :
      (p q : Progress Signature)
      → q.node ≡ p.node
      → (q.max_finalized_seq_no ≡ 0) ⊎ IsListedNumber q.max_finalized_seq_no
      → IsOnTrack p
      → IsOnTrack q
  IsOnTrack-number p q same number t = record {
    kept = rw same t.kept;
    queue = rw same t.queue;
    finals = rw same t.finals;
    stays = rw same t.stays;
    number = number;
  }

  all_facts-number :
      (height : Option BlockHeight) (n : Option BlockSeqNo) (targets : Option AttestationTargets)
      (fact : BlockHeight × BlockSeqNo × AttestationTargets)
      → all_facts height n targets ≡ some fact
      → n ≡ some fact.1
  unfolding all_facts
  all_facts-number (some height) (some n) (some targets) fact h = ground arith
  all_facts-number (some height) (some n) none fact h = cc
  all_facts-number (some height) none targets fact h = cc
  all_facts-number none n targets fact h = cc

  finalized_at-IsOnTrack :
      (b : BlockIdentifier) (p next : Progress Signature) (border : Option ℕ)
      (made : Option (Node Signature))
      → WasReady b
      → ((node : Node Signature) → made ≡ some node → Finalizes b p.node node)
      → IsOnTrack p
      → finalized_at is_saved p border made ≡ some next
      → IsOnTrack next
  unfolding finalized_at
  finalized_at-IsOnTrack b p next border none ready_before made t h = cc
  finalized_at-IsOnTrack b p next none (some node) ready_before made t h = cc
  finalized_at-IsOnTrack b p next (some border) (some node) ready_before made t h =
      let f = made node refl in
      let after : Progress Signature = record p {
        node = node;
        finalized_block_height_border = border_after p.finalized_block_height_border border;
      } in
      subst IsOnTrack (some-injective after next h) (record {
        kept = IsKept-trans start.block_states p.node.block_states node.block_states t.kept f.kept;
        queue = f.queue ∙ t.queue;
        finals = λ c is_final. elim (==_cases b c) [
          | inl (same, e) ↦ inr (subst WasReady same ready_before)
          | inr (other, e) ↦ t.finals c (ground (arith, f.finals c))
        ];
        stays = λ c was. f.finals c ∙ ground (arith, t.stays c was);
        number = t.number;
      })

  visit_candidate-IsOnTrack :
      (b : BlockIdentifier) (p next : Progress Signature)
      (fact : Option (BlockHeight × BlockSeqNo × AttestationTargets))
      (block : Option FinalizedBlock)
      → ((x : BlockHeight × BlockSeqNo × AttestationTargets) → fact ≡ some x → IsListedNumber x.1)
      → ((x : FinalizedBlock) → block ≡ some x → (x.block_identifier ≡ b) × WasReady b)
      → IsOnTrack p
      → visit_candidate is_saved p fact block ≡ some next
      → IsOnTrack next
  unfolding visit_candidate
  visit_candidate-IsOnTrack b p next none block listed candidate t h =
      subst IsOnTrack (some-injective p next h) t
  visit_candidate-IsOnTrack b p next (some (height, n, targets)) block listed candidate t h =
      let noted : Progress Signature = record p {
        max_finalized_seq_no = if ltb p.max_finalized_seq_no n then n else p.max_finalized_seq_no;
      } in
      let number : (noted.max_finalized_seq_no ≡ 0) ⊎ IsListedNumber noted.max_finalized_seq_no =
        elim (Bool-cases (ltb p.max_finalized_seq_no n)) [
          | inl e ↦ rw e (inr (listed (height, n, targets) refl))
          | inr e ↦ rw e t.number
        ] in
      let track = IsOnTrack-number p noted refl number t in go block candidate noted track refl h
    where
      go :
          (block : Option FinalizedBlock)
          → ((x : FinalizedBlock) → block ≡ some x → (x.block_identifier ≡ b) × WasReady b)
          → (noted : Progress Signature) → IsOnTrack noted
          → noted.node ≡ p.node
          → (elim block [
            | none ↦ some noted
            | some x ↦
                finalized_at is_saved noted
                  (border_at height targets)
                  (finalize_block is_saved n x p.node)
          ])
            ≡ some next
          → IsOnTrack next
      go none candidate noted track here h = subst IsOnTrack (some-injective noted next h) track
      go (some x) candidate noted track here h =
          let (same, was_ready) = candidate x refl in
          finalized_at-IsOnTrack b noted next (border_at height targets)
            (finalize_block is_saved n x p.node) was_ready
            (λ node made.
              subst (λ y. Finalizes y noted.node node) same
                (subst (λ v. Finalizes x.block_identifier v node) (sym here)
                  (finalize_block-Finalizes is_saved n x p.node node made)))
            track h

  visit_block-IsOnTrack :
      (b : BlockIdentifier) (p next : Progress Signature)
      → IsKeyed start.unprocessed_blocks
      → contains b ids ≡ true
      → IsOnTrack p
      → visit_block is_saved p b ≡ some next
      → IsOnTrack next
  unfolding visit_block
  visit_block-IsOnTrack b p next keyed listed t h =
      let s = state_of p.node.block_states b in
      elim (Bool-cases (not (is_set s.finalized) && can_be_finalized s)) [
        | inl e ↦
            visit_candidate-IsOnTrack b p next
              (all_facts s.block_height s.block_seq_no s.attestation_target)
              (get b p.node.unprocessed_blocks)
              (λ x found. (
                b,
                listed,
                ap (λ y. y.block_seq_no) (sym (t.kept b))
                    ∙ all_facts-number s.block_height s.block_seq_no s.attestation_target x found,
              ))
              (λ x found.
                let at_start : get b start.unprocessed_blocks ≡ some x =
                  ap (get b) (sym t.queue) ∙ found in
                (
                  keyed b x at_start,
                  (
                    listed,
                    can_be_finalized-ready s (state_of start.block_states b) (t.kept b)
                        (ground (arith, e)),
                    rw at_start refl,
                  ),
                ))
              t (rw (e, visit_block) at h)
        | inr e ↦ subst IsOnTrack (some-injective p next (rw (e, visit_block) at h)) t
      ]

  pub visit_all-IsOnTrack :
      (bs : List BlockIdentifier) (p : Option (Progress Signature)) (last : Progress Signature)
      → IsKeyed start.unprocessed_blocks
      → ((b : BlockIdentifier) → contains b bs ≡ true → contains b ids ≡ true)
      → ((x : Progress Signature) → p ≡ some x → IsOnTrack x)
      → visit_all is_saved bs p ≡ some last
      → IsOnTrack last
  unfolding visit_all
  visit_all-IsOnTrack [] none last keyed listed t h = cc
  visit_all-IsOnTrack (b ∷ bs) none last keyed listed t h = cc
  visit_all-IsOnTrack [] (some p) last keyed listed t h = t last h
  visit_all-IsOnTrack (b ∷ bs) (some p) last keyed listed t h =
      visit_all-IsOnTrack bs (visit_block is_saved p b) last keyed
        (λ c here. listed c (ground (arith, here)))
        (λ x made. visit_block-IsOnTrack b p x keyed (listed b (ground arith)) (t p refl) made) h
