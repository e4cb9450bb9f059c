-- ===== src/Fold/Occurrences.antt =====
use ackinacki.Common.Assoc.{
  get-insert, contains_key-insert, IsMap, get, insert, contains_key_lem, contains_key,
}
use ackinacki.Types.{SignerIndex}
use ackinacki.Envelope.{add_u16, SignatureOccurrences, occurrences_of}
use ackinacki.Common.{
  ◌^◌, ◌<◌, ltb, ◌==◌, nat_eq, ◌+◌, if◌then◌else◌, ◌||◌, inr, inl, Bool-cases, Option-cases, ◌∙◌,
  ap, sym, refl, arith, ◌≡◌, ℕ, false, true, some, ◌∷◌, [],
}
use mathlib.Core.Option.{some-injective, some-injective}
use ackinacki.Fold.{add_occurrence, add_occurrences}

-- How node/src/types/attestation/fold.rs adds up the counters of signers.
pub occurrences_of-absent :
    (i : SignerIndex) (m : SignatureOccurrences) → contains_key i m ≡ false → occurrences_of i m ≡ 0
unfolding occurrences_of
occurrences_of-absent i m h = ground (arith, contains_key_lem i m)

occurrences_of-insert :
    (i k : SignerIndex) (v : ℕ) (m : SignatureOccurrences)
    → occurrences_of i (insert k v m) ≡ (if k == i then v else occurrences_of i m)
unfolding occurrences_of
occurrences_of-insert i k v m = ground (arith, get-insert k i v m)

-- One counter is set, to the sum.
add_occurrence-some :
    (k : SignerIndex) (v : ℕ) (m p : SignatureOccurrences)
    → add_occurrence k v m ≡ some p
    → insert k (occurrences_of k m + v) m ≡ p
unfolding add_occurrence occurrences_of add_u16
add_occurrence-some k v m p h = elim (Option-cases (get k m)) [
  | inl e ↦
      let absent : occurrences_of k m ≡ 0 = rw (e, occurrences_of) refl in
      let sum : occurrences_of k m + v ≡ v = omega (arith, absent) in
      ap (λ x. insert k x m) sum ∙ some-injective (insert k v m) p (rw (e, add_occurrence) at h)
  | inr (count, e) ↦
      let has : occurrences_of k m ≡ count = rw (e, occurrences_of) refl in
      elim (Bool-cases (ltb (count + v) (2 ^ 16))) [
        | inl f ↦
            ap (λ x. insert k (x + v) m) has
            ∙ some-injective (insert k (count + v) m) p (rw (e, add_occurrence, add_u16, f) at h)
        | inr f ↦ cc (rw (e, add_occurrence, add_u16, f) at h)
      ]
]

add_occurrence_fits :
    (k : SignerIndex) (v : ℕ) (m : SignatureOccurrences)
    → occurrences_of k m + v < 2 ^ 16
    → add_occurrence k v m ≡ some (insert k (occurrences_of k m + v) m)
unfolding add_occurrence occurrences_of add_u16
add_occurrence_fits k v m h = elim (Option-cases (get k m)) [
  | inl e ↦
      let absent : occurrences_of k m ≡ 0 = rw (e, occurrences_of) refl in
      let sum : occurrences_of k m + v ≡ v = omega (arith, absent) in
      let made : add_occurrence k v m ≡ some (insert k v m) = rw (e, add_occurrence) refl in
      made ∙ ap (λ x. some (insert k x m)) (sym sum)
  | inr (count, e) ↦
      let has : occurrences_of k m ≡ count = rw (e, occurrences_of) refl in
      let f : ltb (count + v) (2 ^ 16) ≡ true = ground (arith, h, has) in
      let made : add_occurrence k v m ≡ some (insert k (count + v) m) =
        rw (e, add_occurrence, add_u16, f) refl in
      made ∙ ap (λ x. some (insert k (x + v) m)) (sym has)
]

occurrences_of-cons :
    (i k : SignerIndex) (v : ℕ) (n : SignatureOccurrences)
    → occurrences_of i ((k, v) ∷ n) ≡ (if k == i then v else occurrences_of i n)
unfolding occurrences_of get
occurrences_of-cons i k v n = ground arith

occurrences_of-first :
    (k : SignerIndex) (v : ℕ) (n : SignatureOccurrences) → occurrences_of k ((k, v) ∷ n) ≡ v
occurrences_of-first k v n = ground (arith, occurrences_of-cons k k v n)

-- Adding a table of counters adds each signer's counter.
pub occurrences_of-add_occurrences :
    (m n p : SignatureOccurrences) (i : SignerIndex)
    → IsMap n
    → add_occurrences m n ≡ some p
    → occurrences_of i p ≡ occurrences_of i m + occurrences_of i n
unfolding add_occurrences occurrences_of get
occurrences_of-add_occurrences m [] p i maps h =
    ap (occurrences_of i) (sym (some-injective m p h)) ∙ omega arith
occurrences_of-add_occurrences m ((k, v) ∷ n) p i maps h =
    elim (Option-cases (add_occurrence k v m)) [
      | inl e ↦ cc (rw (e, add_occurrences) at h)
      | inr (next, e) ↦ ground (
        arith,
        occurrences_of-add_occurrences next n p i maps.1 (rw (e, add_occurrences) at h),
        ap (occurrences_of i) (add_occurrence-some k v m next e),
        occurrences_of-insert i k (occurrences_of k m + v) m,
        occurrences_of-absent k n maps.0,
      )
    ]

-- A signer is in the table after the addition if it was in either.
pub contains_key-add_occurrences :
    (m n p : SignatureOccurrences) (i : SignerIndex)
    → add_occurrences m n ≡ some p
    → contains_key i p ≡ (contains_key i m || contains_key i n)
unfolding add_occurrences contains_key
contains_key-add_occurrences m [] p i h =
    ap (contains_key i) (sym (some-injective m p h)) ∙ ground arith
contains_key-add_occurrences m ((k, v) ∷ n) p i h = elim (Option-cases (add_occurrence k v m)) [
  | inl e ↦ cc (rw (e, add_occurrences) at h)
  | inr (next, e) ↦ ground (
    arith,
    contains_key-add_occurrences next n p i (rw (e, add_occurrences) at h),
    ap (contains_key i) (add_occurrence-some k v m next e),
    contains_key-insert k i (occurrences_of k m + v) m,
  )
]

-- Sums that fit are added without a panic.
pub add_occurrences_fits :
    (m n : SignatureOccurrences)
    → IsMap n
    → ((i : SignerIndex) → occurrences_of i m + occurrences_of i n < 2 ^ 16)
    → (p : SignatureOccurrences) × (add_occurrences m n ≡ some p)
unfolding add_occurrences
add_occurrences_fits m [] maps fits = (m, refl)
add_occurrences_fits m ((k, v) ∷ n) maps fits =
    let made = add_occurrence_fits k v m (ground (arith, fits k, occurrences_of-first k v n)) in
    let next = insert k (occurrences_of k m + v) m in
    let (p, rest) = add_occurrences_fits next n maps.1 (λ i. ground (
      arith,
      fits i,
      occurrences_of-insert i k (occurrences_of k m + v) m,
      occurrences_of-absent k n maps.0,
      occurrences_of-cons i k v n,
    )) in
    let whole : add_occurrences m ((k, v) ∷ n) ≡ add_occurrences next n =
      rw (made, add_occurrences) refl in
    (p, whole ∙ rest)
