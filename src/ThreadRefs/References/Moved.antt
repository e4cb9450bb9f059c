-- ===== src/ThreadRefs/References/Moved.antt =====
use ackinacki.ThreadRefs.Tails.{keep_all_tails-All, HasTail}
use ackinacki.Types.{BlockIdentifier, ThreadIdentifier}
use ackinacki.ThreadRefs.References.{
  can_reference, read_all, CanRefQueryResult, spawned_threads, move_refs, move_result, move_read,
  move_to, add_all_phantoms, add_phantoms, no, yes, insert_tails,
}
use ackinacki.ThreadRefs.{
  WalkError, keep_tails, as_reference_state_data, CrossThreadRefData, ThreadRefs, keep_all_tails,
  keep_tail, ReferencedBlock,
}
use ackinacki.Common.{
  ◌++◌, Result-cases, ok, All, Result, ==_cases, subst, or_else, nat_eq, map, ltb, ◌⊎◌, inr, inl,
  Bool-cases, Option-cases, ◌∙◌, ap, sym, refl, arith, ◌≡◌, ℕ, Option, List, true, some, none, ◌∷◌,
  [],
}
use ackinacki.Common.Assoc.{
  is_some, get-insert, get-insert_cases, insert-IsMap, get, insert, IsMap, contains_key_lem,
}

-- What move_refs of thread_references_state.rs leaves.
abbrev pub IsAmong : ReferencedBlock → List ReferencedBlock → Type 0
IsAmong e [] = ⊥
IsAmong e (b ∷ bs) = (b ≡ e) ⊎ IsAmong e bs

-- The tails have distinct threads, each block is under its own thread, and is one of those that were
-- given.
record Tails (bs : List ReferencedBlock) (tails : ThreadRefs) : Type 0 where
  is_map : IsMap tails
  keyed :
      (t : ThreadIdentifier) (e : ReferencedBlock)
      → get t tails ≡ some e
      → (e.block_thread_identifier ≡ t) × IsAmong e bs

keep_tail_cases :
    (b : ReferencedBlock) (tails : ThreadRefs)
    → (keep_tail b tails ≡ insert b.block_thread_identifier b tails) ⊎ (keep_tail b tails ≡ tails)
unfolding keep_tail
keep_tail_cases b tails = elim (Option-cases (get b.block_thread_identifier tails)) [
  | inl e ↦ inl (rw (e, keep_tail) refl)
  | inr (x, e) ↦ elim (Bool-cases (ltb x.block_seq_no b.block_seq_no)) [
    | inl f ↦ inl (rw (e, f, keep_tail) refl)
    | inr f ↦ inr (rw (e, f, keep_tail) refl)
  ]
]

keep_tail-Tails :
    (given : List ReferencedBlock) (b : ReferencedBlock) (tails : ThreadRefs)
    → IsAmong b given
    → Tails given tails
    → Tails given (keep_tail b tails)
keep_tail-Tails given b tails among h = elim (keep_tail_cases b tails) [
  | inl e ↦ rw e (record {
    is_map = insert-IsMap b.block_thread_identifier b tails h.is_map;
    keyed = λ t x found. elim (get-insert_cases b.block_thread_identifier t b x tails found) [
      | inl (thread, same) ↦
          subst (λ y. (y.block_thread_identifier ≡ t) × IsAmong y given) same (thread, among)
      | inr was ↦ h.keyed t x was
    ];
  })
  | inr e ↦ rw e h
]

keep_all_tails-Tails :
    (given bs : List ReferencedBlock) (tails : ThreadRefs)
    → ((b : ReferencedBlock) → IsAmong b bs → IsAmong b given)
    → Tails given tails
    → Tails given (keep_all_tails bs tails)
unfolding keep_all_tails
keep_all_tails-Tails given [] tails within h = h
keep_all_tails-Tails given (b ∷ bs) tails within h =
    keep_all_tails-Tails given bs (keep_tail b tails) (λ x among. within x (inr among))
      (keep_tail-Tails given b tails (within b (inl refl)) h)

-- Inserting the values of a map is laying it over another.
get-insert_tails :
    (t : ThreadIdentifier) (m refs : ThreadRefs)
    → IsMap m
    → ((j : ThreadIdentifier) (e : ReferencedBlock)
        → get j m ≡ some e
        → e.block_thread_identifier ≡ j)
    → get t (insert_tails (map (λ entry. entry.1) m) refs) ≡ or_else (get t m) (get t refs)
unfolding insert_tails get
get-insert_tails t [] refs is_map keyed = refl
get-insert_tails t ((j, v) ∷ m) refs is_map keyed =
    let own : v.block_thread_identifier ≡ j = keyed j v (ground arith) in
    let rest : get t
          (insert_tails (map (λ entry. entry.1) m) (insert v.block_thread_identifier v refs))
        ≡ or_else (get t m) (get t (insert v.block_thread_identifier v refs)) =
      get-insert_tails t m (insert v.block_thread_identifier v refs) is_map.1
        (λ i e found. keyed i e (ground (arith, found, is_map.0, contains_key_lem i m))) in
    rest ∙ elim (==_cases j t) [
      | inl (same, e) ↦
          let absent : get t m ≡ none = ground (arith, same, is_map.0, contains_key_lem t m) in
          ground (arith, e, same, own, absent, get-insert v.block_thread_identifier t v refs)
      | inr (other, e) ↦
          let skipped : get t (insert v.block_thread_identifier v refs) ≡ get t refs =
            ground (arith, e, own, get-insert v.block_thread_identifier t v refs) in
          ap (or_else (get t m)) skipped ∙ rw e refl
    ]

add_phantoms_cases :
    (b e : ReferencedBlock) (threads : List ThreadIdentifier) (refs : ThreadRefs)
    (t : ThreadIdentifier)
    → get t (add_phantoms b threads refs) ≡ some e
    → (b ≡ e) ⊎ (get t refs ≡ some e)
unfolding add_phantoms
add_phantoms_cases b e [] refs t h = inr h
add_phantoms_cases b e (x ∷ threads) refs t h =
    elim (add_phantoms_cases b e threads (insert x b refs) t h) [
      | inl same ↦ inl same
      | inr found ↦ elim (get-insert_cases x t b e refs found) [
        | inl (here, same) ↦ inl same
        | inr was ↦ inr was
      ]
    ]

add_all_phantoms_cases :
    (e : ReferencedBlock) (blocks : List CrossThreadRefData) (refs : ThreadRefs)
    (t : ThreadIdentifier)
    → get t (add_all_phantoms blocks refs) ≡ some e
    → IsAmong e (map as_reference_state_data blocks) ⊎ (get t refs ≡ some e)
unfolding add_all_phantoms
add_all_phantoms_cases e [] refs t h = inr h
add_all_phantoms_cases e (b ∷ blocks) refs t h =
    elim (add_all_phantoms_cases e blocks
      (add_phantoms (as_reference_state_data b) (spawned_threads b) refs) t h) [
        | inl among ↦ inl (inr among)
        | inr found ↦
            elim (add_phantoms_cases (as_reference_state_data b) e (spawned_threads b) refs t
              found) [ inl same ↦ inl (inl same) | inr was ↦ inr was ]
      ]

add_phantoms_some :
    (b : ReferencedBlock) (threads : List ThreadIdentifier) (refs : ThreadRefs)
    (t : ThreadIdentifier)
    → is_some (get t refs) ≡ true
    → is_some (get t (add_phantoms b threads refs)) ≡ true
unfolding add_phantoms
add_phantoms_some b [] refs t h = h
add_phantoms_some b (x ∷ threads) refs t h =
    add_phantoms_some b threads (insert x b refs) t (elim (==_cases x t) [
      | inl (same, e) ↦ rw (get-insert x t b refs, e) refl
      | inr (other, e) ↦ rw (get-insert x t b refs, e) h
    ])

add_all_phantoms_some :
    (blocks : List CrossThreadRefData) (refs : ThreadRefs) (t : ThreadIdentifier)
    → is_some (get t refs) ≡ true
    → is_some (get t (add_all_phantoms blocks refs)) ≡ true
unfolding add_all_phantoms
add_all_phantoms_some [] refs t h = h
add_all_phantoms_some (b ∷ blocks) refs t h =
    add_all_phantoms_some blocks (add_phantoms (as_reference_state_data b) (spawned_threads b) refs)
      t (add_phantoms_some (as_reference_state_data b) (spawned_threads b) refs t h)

abbrev moved_result :
    ThreadRefs → List CrossThreadRefData → Result WalkError (ThreadRefs × List CrossThreadRefData)
moved_result refs blocks = ok (refs, blocks)

ok_parts :
    (a b : ThreadRefs) (x y : List CrossThreadRefData)
    → moved_result a x ≡ moved_result b y
    → (a ≡ b) × (x ≡ y)
ok_parts a b x y h = ground arith

moved-Tails : (given : List ReferencedBlock) → Tails given (keep_all_tails given [])
unfolding get
moved-Tails given =
    keep_all_tails-Tails given given [] (λ b among. among)
      (record { is_map = tt; keyed = λ t e found. absurd (ground (arith, found)) })

-- A move as the tails laid over the phantoms.
get-move_to :
    (t : ThreadIdentifier) (blocks : List CrossThreadRefData) (refs : ThreadRefs)
    → get t (move_to blocks refs)
      ≡ or_else
          (get t (keep_all_tails (map as_reference_state_data blocks) []))
          (get t (add_all_phantoms blocks refs))
unfolding move_to keep_tails
get-move_to t blocks refs =
    let given = map as_reference_state_data blocks in
    let h = moved-Tails given in
    get-insert_tails t (keep_all_tails given []) (add_all_phantoms blocks refs) h.is_map
      (λ j e found. (h.keyed j e found).0)

or_else_cases :
    (a b : Option ReferencedBlock) (e : ReferencedBlock)
    → or_else a b ≡ some e
    → (a ≡ some e) ⊎ (b ≡ some e)
or_else_cases none b e h = inr h
or_else_cases (some x) b e h = inl h

or_else_some : (a b : Option ReferencedBlock) → is_some b ≡ true → is_some (or_else a b) ≡ true
or_else_some none b h = h
or_else_some (some x) b h = refl

moved-HasTail :
    (bs : List ReferencedBlock) (blocks : List CrossThreadRefData) (refs : ThreadRefs)
    → All (HasTail (keep_all_tails (map as_reference_state_data blocks) [])) bs
    → All (HasTail (move_to blocks refs)) bs
moved-HasTail [] blocks refs h = tt
moved-HasTail (b ∷ bs) blocks refs ((e, found, le), rest) = (
  (
    e,
    get-move_to b.block_thread_identifier blocks refs
        ∙ ap (λ x. or_else x (get b.block_thread_identifier (add_all_phantoms blocks refs))) found,
    le,
  ),
  moved-HasTail bs blocks refs rest,
)

module _ (read : BlockIdentifier → Option CrossThreadRefData) (walk_rounds : ℕ) where
  move_read_to :
      (refs next : ThreadRefs) (read_blocks : Option (List CrossThreadRefData))
      (blocks : List CrossThreadRefData)
      → move_read read walk_rounds refs read_blocks ≡ ok (next, blocks)
      → move_to blocks refs ≡ next
  unfolding move_read
  move_read_to refs next none blocks h = cc
  move_read_to refs next (some found) blocks h =
      let (same_refs, same_blocks) = ok_parts (move_to found refs) next found blocks h in
      subst (λ x. move_to x refs ≡ next) same_blocks same_refs

  move_result_to :
      (refs next : ThreadRefs) (result : CanRefQueryResult) (blocks : List CrossThreadRefData)
      → move_result read walk_rounds refs result ≡ ok (next, blocks)
      → move_to blocks refs ≡ next
  unfolding move_result
  move_result_to refs next no blocks h = cc
  move_result_to refs next (yes state) blocks h =
      move_read_to refs next
        (read_all read walk_rounds
          (state.explicitly_referenced_blocks ++ state.implicitly_referenced_blocks))
        blocks h

  -- A move of references that succeeds leaves every thread of a block that it returns with a reference
  -- whose number is no smaller than the block's. Each reference after it was there before or is to one of
  -- the blocks that it returns, and no thread loses its reference.
  pub move_refs-HasTail :
      (rounds : ℕ) (refs next : ThreadRefs) (references : List BlockIdentifier)
      (blocks : List CrossThreadRefData)
      → move_refs read walk_rounds rounds refs references ≡ ok (next, blocks)
      → All (HasTail next) (map as_reference_state_data blocks)
        × ((t : ThreadIdentifier) (e : ReferencedBlock)
            → get t next ≡ some e
            → IsAmong e (map as_reference_state_data blocks) ⊎ (get t refs ≡ some e))
        × ((t : ThreadIdentifier) → is_some (get t refs) ≡ true → is_some (get t next) ≡ true)
  unfolding move_refs
  move_refs-HasTail rounds refs next references blocks h =
      elim (Result-cases (can_reference read walk_rounds rounds refs references)) [
        | inl (e, f) ↦ cc (rw (f, move_refs) at h)
        | inr (result, f) ↦
            let moved = move_result_to refs next result blocks (rw (f, move_refs) at h) in
            let given = map as_reference_state_data blocks in
            rw (sym moved) (
              moved-HasTail given blocks refs (keep_all_tails-All given []),
              (λ t e found.
                  elim (or_else_cases (get t (keep_all_tails given []))
                    (get t (add_all_phantoms blocks refs)) e
                    (sym (get-move_to t blocks refs) ∙ found)) [
                      | inl tail ↦ inl ((moved-Tails given).keyed t e tail).1
                      | inr phantom ↦ add_all_phantoms_cases e blocks refs t phantom
                    ]),
              (λ t was.
                  ap is_some (get-move_to t blocks refs)
                  ∙ or_else_some (get t (keep_all_tails given []))
                      (get t (add_all_phantoms blocks refs))
                      (add_all_phantoms_some blocks refs t was)),
            )
      ]
