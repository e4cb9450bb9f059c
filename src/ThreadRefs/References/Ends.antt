-- ===== src/ThreadRefs/References/Ends.antt =====
use ackinacki.ThreadRefs.References.Ahead.{
  gather_block-reached, gather_trail-IsAhead, above_falls, gather_trail-append, above, IsIn,
  is_above,
}
use mathlib.Core.List.{reverse, reverse-cons}
use ackinacki.ThreadRefs.Walk.{
  at_cutoff-go_on, walk_back_into_history-IsTrail, walk_unread, ParentsAreOlder,
}
use ackinacki.Types.{BlockIdentifier}
use ackinacki.ThreadRefs.References.{
  CanRefQueryResult, can_reference, gather, Gathering, gather_trail, gather_block, is_newer,
}
use ackinacki.ThreadRefs.{
  walk_back_into_history, WalkError, CrossThreadRefData, ThreadRefs, out_of_rounds, unreadable,
  go_on, at_cutoff,
}
use ackinacki.Common.{
  map, Result, subst, Result-cases, ok, ◌≢◌, err, nat_eq, ◌==◌, leb, ◌<◌, ◌≤◌, ◌⊎◌, inr, inl,
  Bool-cases, Option-cases, ◌∙◌, ap, refl, suc, zero, arith, ◌≡◌, ℕ, Option, List, true, some, none,
  ◌∷◌, [],
}
use ackinacki.Common.Assoc.{get}

-- The loop of can_reference of thread_references_state.rs ends.
go_on-above :
    (tails : ThreadRefs) (b : CrossThreadRefData)
    → at_cutoff tails b ≡ go_on
    → is_above tails b ≡ true
unfolding at_cutoff is_newer
go_on-above tails b h = elim (Option-cases (get b.block_thread_identifier tails)) [
  | inl e ↦ rw e refl
  | inr (last, e) ↦ elim (Bool-cases (leb b.block_seq_no last.block_seq_no)) [
    | inr f ↦ rw e (ground (arith, f))
    | inl f ↦ elim (Bool-cases (last.block_seq_no == b.block_seq_no)) [
      | inl k ↦ elim (Bool-cases (last.block_identifier == b.block_identifier)) [
        | inl j ↦ cc (rw (e, f, k, j, at_cutoff) at h)
        | inr j ↦ cc (rw (e, f, k, j, at_cutoff) at h)
      ]
      | inr k ↦ cc (rw (e, f, k, at_cutoff) at h)
    ]
  ]
]

abbrev failed_walk : WalkError → Result WalkError Gathering
failed_walk e = err e

same_error : (a b : WalkError) → failed_walk a ≡ failed_walk b → a ≡ b
same_error a b h = ground arith

abbrev failed_query : WalkError → Result WalkError CanRefQueryResult
failed_query e = err e

same_query : (a b : WalkError) → failed_query a ≡ failed_query b → a ≡ b
same_query a b h = ground arith

module _ (read : BlockIdentifier → Option CrossThreadRefData) (walk_rounds : ℕ)
    (blocks : List CrossThreadRefData) where
  -- The blocks that can be read are among the given ones, and their numbers are below the rounds of a walk.
  abbrev pub AreKnown : Type 0
  AreKnown =
      (id : BlockIdentifier) (b : CrossThreadRefData)
      → read id ≡ some b
      → IsIn b blocks × (b.block_seq_no < walk_rounds)

  -- A walk fails, finds nothing new, or finds a block above the tails first.
  abbrev Walks : ThreadRefs → BlockIdentifier → Type 0
  Walks tails start =
      ((e : WalkError) × (walk_back_into_history read tails walk_rounds start ≡ err e)
        × (e ≢ out_of_rounds))
      ⊎ (walk_back_into_history read tails walk_rounds start ≡ ok [])
      ⊎ ((b : CrossThreadRefData) × (bs : List CrossThreadRefData) × (walk_back_into_history read
              tails walk_rounds start
            ≡ ok (b ∷ bs))
          × IsIn b blocks
          × (is_above tails b ≡ true))

  walk_cases :
      (tails : ThreadRefs) (start : BlockIdentifier)
      → AreKnown
      → ParentsAreOlder read tails
      → Walks tails start
  walk_cases tails start known_blocks older = elim (Option-cases (read start)) [
    | inl e ↦ inl (unreadable, unread e, cc)
    | inr (cursor, e) ↦
        let (here, enough) = known_blocks start cursor e in
        let (ends, is_trail) =
          walk_back_into_history-IsTrail read tails walk_rounds start cursor older e enough in
        elim (Result-cases (walk_back_into_history read tails walk_rounds start)) [
          | inl (error, f) ↦ inl (error, f, λ same. ends (f ∙ ap err same))
          | inr ([], f) ↦ inr (inl f)
          | inr (b ∷ bs, f) ↦
              let (first, on, parent, has_parent, rest) = is_trail (b ∷ bs) f in
              inr (
                inr (
                  b,
                  bs,
                  f,
                  subst (λ x. IsIn x blocks) first here,
                  go_on-above tails b (at_cutoff-go_on read tails b on),
                ))
        ]
  ]
    where
      unread :
          read start ≡ none → walk_back_into_history read tails walk_rounds start ≡ err unreadable
      unread e = walk_unread read tails walk_rounds start e

  gather_empty :
      (known : List BlockIdentifier) (g : Gathering) → gather_trail known (reverse []) g ≡ g
  unfolding gather_trail
  gather_empty known g = refl

  -- After a trail its first block is not above the tails any more.
  trail_falls :
      (known : List BlockIdentifier) (b : CrossThreadRefData) (bs : List CrossThreadRefData)
      (g : Gathering)
      → IsIn b blocks
      → is_above g.tails b ≡ true
      → above (gather_trail known (reverse (b ∷ bs)) g).tails blocks < above g.tails blocks
  trail_falls known b bs g here was =
      let last : gather_trail known (reverse (b ∷ bs)) g
          ≡ gather_block known b (gather_trail known (reverse bs) g) =
        ap (λ l. gather_trail known l g) (reverse-cons b bs)
        ∙ gather_trail-append known (reverse bs) b g in
      above_falls g.tails (gather_trail known (reverse (b ∷ bs)) g).tails b blocks
        (gather_trail-IsAhead known (reverse (b ∷ bs)) g) here was
        (ap (λ x. is_above x.tails b) last
          ∙ gather_block-reached known b (gather_trail known (reverse bs) g))

  -- With enough rounds the loop does not run out of them.
  abbrev Ends : List BlockIdentifier → List BlockIdentifier → Gathering → Type 0
  Ends known stack g =
      (enough : ℕ) × ((rounds : ℕ)
        → enough ≤ rounds
        → gather read walk_rounds rounds known stack g ≢ err out_of_rounds)

  after_trail :
      List BlockIdentifier → List BlockIdentifier → List CrossThreadRefData → Gathering → Gathering
  after_trail known stack trail g = gather_trail known (reverse trail) (record g { stack = stack })

  Ends-trail :
      (known stack : List BlockIdentifier) (start : BlockIdentifier)
      (trail : List CrossThreadRefData) (g : Gathering)
      → walk_back_into_history read g.tails walk_rounds start ≡ ok trail
      → Ends known (after_trail known stack trail g).stack (after_trail known stack trail g)
      → Ends known (start ∷ stack) g
  unfolding gather after_trail
  Ends-trail known stack start trail g f (most, ends) = (suc most, go)
    where
      go :
          (rounds : ℕ)
          → suc most ≤ rounds
          → gather read walk_rounds rounds known (start ∷ stack) g ≢ err out_of_rounds
      go zero enough h = absurd (omega (arith, enough))
      go (suc rounds) enough h = ends rounds (omega (arith, enough)) (rw (f, gather) at h)

  Ends-error :
      (known stack : List BlockIdentifier) (start : BlockIdentifier) (g : Gathering) (e : WalkError)
      → walk_back_into_history read g.tails walk_rounds start ≡ err e
      → e ≢ out_of_rounds
      → Ends known (start ∷ stack) g
  unfolding gather
  Ends-error known stack start g e f other = (1, go)
    where
      go :
          (rounds : ℕ)
          → 1 ≤ rounds
          → gather read walk_rounds rounds known (start ∷ stack) g ≢ err out_of_rounds
      go zero enough h = absurd (omega (arith, enough))
      go (suc rounds) enough h = other (same_error e out_of_rounds (rw (f, gather) at h))

  gather_nothing :
      (rounds : ℕ) (known : List BlockIdentifier) (g : Gathering)
      → gather read walk_rounds rounds known [] g ≢ err out_of_rounds
  unfolding gather
  gather_nothing zero known g h = cc h
  gather_nothing (suc rounds) known g h = cc h

  -- By induction on the stack, where fewer blocks above the tails are known to be enough.
  stack-Ends :
      (m : ℕ) (known stack : List BlockIdentifier) (g : Gathering)
      → AreKnown
      → ParentsAreOlder read []
      → ((rest : List BlockIdentifier) (next : Gathering)
          → above next.tails blocks < m
          → Ends known rest next)
      → above g.tails blocks ≤ m
      → Ends known stack g
  unfolding gather after_trail
  stack-Ends m known [] g known_blocks older fewer le =
      (0, λ rounds enough h. gather_nothing rounds known g h)
  stack-Ends m known (start ∷ stack) g known_blocks older fewer le =
      elim (walk_cases g.tails start known_blocks older) [
        | inl (e, f, other) ↦ Ends-error known stack start g e f other
        | inr (inl f) ↦
            Ends-trail known stack start [] g f
              (stack-Ends m known stack (record g { stack = stack }) known_blocks older fewer le)
        | inr (inr (b, bs, f, here, was)) ↦
            let next = after_trail known stack (b ∷ bs) g in
            Ends-trail known stack start (b ∷ bs) g f (
              fewer next.stack next
                (omega (arith, le, trail_falls known b bs (record g { stack = stack }) here was)))
      ]

  gather-Ends :
      (m : ℕ) (known stack : List BlockIdentifier) (g : Gathering)
      → AreKnown
      → ParentsAreOlder read []
      → above g.tails blocks ≤ m
      → Ends known stack g
  gather-Ends zero known stack g known_blocks older le =
      stack-Ends 0 known stack g known_blocks older (λ rest next lt. absurd (omega (arith, lt))) le
  gather-Ends (suc m) known stack g known_blocks older le =
      stack-Ends (suc m) known stack g known_blocks older
        (λ rest next lt. gather-Ends m known rest next known_blocks older (omega (arith, lt))) le

  -- Where the blocks that can be read are among finitely many, with numbers below the rounds of a walk, and
  -- parents have smaller numbers than their children, there is a number of rounds from which on the query
  -- for a set of references does not run out of them: the loop of the code ends, whatever the blocks
  -- refer to.
  pub can_reference-ends :
      (refs : ThreadRefs) (references : List BlockIdentifier)
      → AreKnown
      → ParentsAreOlder read []
      → (enough : ℕ) × ((rounds : ℕ)
          → enough ≤ rounds
          → can_reference read walk_rounds rounds refs references ≢ err out_of_rounds)
  unfolding can_reference
  can_reference-ends refs [] known_blocks older = (0, λ rounds enough h. cc h)
  can_reference-ends refs (b ∷ bs) known_blocks older =
      let known = map (λ entry. entry.1.block_identifier) refs in
      let g : Gathering = record {
        tails = refs;
        stack = b ∷ bs;
        all_referenced_blocks = [];
        explicitly_referenced_set = [];
      } in
      let (most, ends) =
        gather-Ends (above refs blocks) known (b ∷ bs) g known_blocks older (omega arith) in
      (
        most,
        λ rounds enough h. elim (Result-cases (gather read walk_rounds rounds known (b ∷ bs) g)) [
          | inl (e, f) ↦
              ends rounds enough
                (f ∙ ap err (same_query e out_of_rounds (rw (f, can_reference) at h)))
          | inr (done, f) ↦ cc (rw (f, can_reference) at h)
        ],
      )
