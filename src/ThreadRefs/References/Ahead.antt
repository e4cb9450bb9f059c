-- ===== src/ThreadRefs/References/Ahead.antt =====
use ackinacki.Types.{BlockSeqNo, ThreadIdentifier, BlockIdentifier}
use ackinacki.ThreadRefs.References.{Gathering, gather_trail, gather_block, is_newer}
use ackinacki.ThreadRefs.{ReferencedBlock, as_reference_state_data, CrossThreadRefData, ThreadRefs}
use ackinacki.Common.{
  nat_eq, ◌+◌, ◌++◌, ==_cases, ◌<◌, ◌≤◌, if◌then◌else◌, ◌⊎◌, inr, inl, Bool-cases, ◌∙◌, ap, sym,
  refl, arith, ◌≡◌, ℕ, Option, List, Bool, false, true, some, none, ◌∷◌, [],
}
use ackinacki.Common.Assoc.{get, insert, get-insert}

-- The tails in the loop of can_reference of thread_references_state.rs only move on.
abbrev pub is_above : ThreadRefs → CrossThreadRefData → Bool
is_above tails b = is_newer b.block_seq_no (get b.block_thread_identifier tails)

-- The tails have moved on: what is newer than the later ones is newer than the earlier ones.
abbrev pub IsAhead : ThreadRefs → ThreadRefs → Type 0
IsAhead from to =
    (t : ThreadIdentifier) (n : BlockSeqNo)
    → is_newer n (get t to) ≡ true
    → is_newer n (get t from) ≡ true

newer_chain :
    (b : CrossThreadRefData) (n : BlockSeqNo) (o : Option ReferencedBlock)
    → is_newer b.block_seq_no o ≡ true
    → is_newer n (some (as_reference_state_data b)) ≡ true
    → is_newer n o ≡ true
unfolding is_newer as_reference_state_data
newer_chain b n none h above = refl
newer_chain b n (some e) h above = ground (arith, h, above)

not_newer_self :
    (b : CrossThreadRefData) → is_newer b.block_seq_no (some (as_reference_state_data b)) ≡ false
unfolding is_newer as_reference_state_data
not_newer_self b = ground arith

tails-gather_block :
    (known : List BlockIdentifier) (b : CrossThreadRefData) (g : Gathering)
    → (gather_block known b g).tails ≡ (
        if is_above g.tails b
        then insert b.block_thread_identifier (as_reference_state_data b) g.tails
        else g.tails)
unfolding gather_block
tails-gather_block known b g = elim (Bool-cases (is_above g.tails b)) [
  | inl e ↦ rw e refl
  | inr e ↦ rw e refl
]

gather_block-IsAhead :
    (known : List BlockIdentifier) (b : CrossThreadRefData) (g : Gathering)
    → IsAhead g.tails (gather_block known b g).tails
gather_block-IsAhead known b g = λ t n h. elim (Bool-cases (is_above g.tails b)) [
  | inr e ↦ ap (λ x. is_newer n (get t x)) (sym (tails-gather_block known b g ∙ rw e refl)) ∙ h
  | inl e ↦
      let moved : is_newer n
            (get t (insert b.block_thread_identifier (as_reference_state_data b) g.tails))
          ≡ true =
        ap (λ x. is_newer n (get t x)) (sym (tails-gather_block known b g ∙ rw e refl)) ∙ h in
      elim (==_cases b.block_thread_identifier t) [
        | inl (same, f) ↦
            newer_chain b n (get t g.tails)
              (ap (λ x. is_newer b.block_seq_no (get x g.tails)) (sym same) ∙ e)
              (rw (get-insert b.block_thread_identifier t (as_reference_state_data b) g.tails, f) at
                moved)
        | inr (other, f) ↦
            rw (get-insert b.block_thread_identifier t (as_reference_state_data b) g.tails, f) at
              moved
      ]
]

get_own :
    (b : CrossThreadRefData) (tails : ThreadRefs)
    → get b.block_thread_identifier
        (insert b.block_thread_identifier (as_reference_state_data b) tails)
      ≡ some (as_reference_state_data b)
get_own b tails = ground (
  arith,
  get-insert b.block_thread_identifier b.block_thread_identifier (as_reference_state_data b) tails,
)

pub gather_block-reached :
    (known : List BlockIdentifier) (b : CrossThreadRefData) (g : Gathering)
    → is_above (gather_block known b g).tails b ≡ false
gather_block-reached known b g = elim (Bool-cases (is_above g.tails b)) [
  | inr e ↦ ap (λ x. is_above x b) (tails-gather_block known b g ∙ rw e refl) ∙ e
  | inl e ↦
      let moved : (gather_block known b g).tails
          ≡ insert b.block_thread_identifier (as_reference_state_data b) g.tails =
        tails-gather_block known b g ∙ rw e refl in
      ap (λ x. is_above x b) moved
      ∙ ap (is_newer b.block_seq_no) (get_own b g.tails)
      ∙ not_newer_self b
]

pub gather_trail-IsAhead :
    (known : List BlockIdentifier) (bs : List CrossThreadRefData) (g : Gathering)
    → IsAhead g.tails (gather_trail known bs g).tails
unfolding gather_trail
gather_trail-IsAhead known [] g = λ t n h. h
gather_trail-IsAhead known (b ∷ bs) g = λ t n h.
    gather_block-IsAhead known b g t n
      (gather_trail-IsAhead known bs (gather_block known b g) t n h)

pub gather_trail-append :
    (known : List BlockIdentifier) (bs : List CrossThreadRefData) (b : CrossThreadRefData)
    (g : Gathering)
    → gather_trail known (bs ++ (b ∷ [])) g ≡ gather_block known b (gather_trail known bs g)
unfolding gather_trail
gather_trail-append known [] b g = refl
gather_trail-append known (c ∷ bs) b g = gather_trail-append known bs b (gather_block known c g)

abbrev pub IsIn : CrossThreadRefData → List CrossThreadRefData → Type 0
IsIn b [] = ⊥
IsIn b (c ∷ cs) = (c ≡ b) ⊎ IsIn b cs

-- How many blocks are above the tails.
pub above : ThreadRefs → List CrossThreadRefData → ℕ
above tails [] = 0
above tails (b ∷ bs) = (if is_above tails b then 1 else 0) + above tails bs

above-IsAhead :
    (from to : ThreadRefs) (bs : List CrossThreadRefData)
    → IsAhead from to
    → above to bs ≤ above from bs
unfolding above
above-IsAhead from to [] h = omega arith
above-IsAhead from to (b ∷ bs) h = elim (Bool-cases (is_above to b)) [
  | inl e ↦
      let was = h b.block_thread_identifier b.block_seq_no e in
      rw (e, was) (omega (arith, above-IsAhead from to bs h))
  | inr e ↦ rw e (omega (arith, above-IsAhead from to bs h))
]

pub above_falls :
    (from to : ThreadRefs) (b : CrossThreadRefData) (bs : List CrossThreadRefData)
    → IsAhead from to
    → IsIn b bs
    → is_above from b ≡ true
    → is_above to b ≡ false
    → above to bs < above from bs
unfolding above
above_falls from to b [] h nowhere was now = absurd nowhere
above_falls from to b (c ∷ cs) h (inl same) was now =
    let was_c : is_above from c ≡ true = rw same was in
    let now_c : is_above to c ≡ false = rw same now in
    rw (was_c, now_c) (omega (arith, above-IsAhead from to cs h))
above_falls from to b (c ∷ cs) h (inr rest) was now = elim (Bool-cases (is_above to c)) [
  | inl e ↦
      let was_c = h c.block_thread_identifier c.block_seq_no e in
      rw (e, was_c) (omega (arith, above_falls from to b cs h rest was now))
  | inr e ↦ rw e (omega (arith, above_falls from to b cs h rest was now))
]
