-- ===== src/Statistics/Median.antt =====
use ackinacki.Statistics.{insert_sorted, sort, select_nth}
use ackinacki.Common.{
  get_elem?-lt, ◌<◌, ◌+◌, ltb, get_elem?, leb, ◌≤◌, length, if◌then◌else◌, inr, inl, Bool-cases, ap,
  refl, suc, zero, arith, ◌≡◌, ℕ, List, some, ◌∷◌, [], nat_eq,
}

-- The median that median_descendants_chain_length_to_meet_threshold.rs selects.

-- How many elements are below a bound, and how many are not above it.
abbrev pub below : ℕ → List ℕ → ℕ
below v [] = 0
below v (x ∷ xs) = (if ltb x v then 1 else 0) + below v xs

abbrev pub at_most : ℕ → List ℕ → ℕ
at_most v [] = 0
at_most v (x ∷ xs) = (if leb x v then 1 else 0) + at_most v xs

abbrev IsSorted : List ℕ → Type 0
IsSorted [] = Unit
IsSorted (x ∷ xs) = (below x xs ≡ 0) × IsSorted xs

below-insert_sorted :
    (v x : ℕ) (xs : List ℕ) → below v (insert_sorted x xs) ≡ (if ltb x v then 1 else 0) + below v xs
unfolding insert_sorted
below-insert_sorted v x [] = refl
below-insert_sorted v x (y ∷ ys) = ground (arith, below-insert_sorted v x ys)

at_most-insert_sorted :
    (v x : ℕ) (xs : List ℕ)
    → at_most v (insert_sorted x xs) ≡ (if leb x v then 1 else 0) + at_most v xs
unfolding insert_sorted
at_most-insert_sorted v x [] = refl
at_most-insert_sorted v x (y ∷ ys) = ground (arith, at_most-insert_sorted v x ys)

length-insert_sorted : (x : ℕ) (xs : List ℕ) → length (insert_sorted x xs) ≡ length xs + 1
unfolding insert_sorted
length-insert_sorted x [] = omega arith
length-insert_sorted x (y ∷ ys) = ground (arith, length-insert_sorted x ys)

below_mono : (v w : ℕ) (xs : List ℕ) → v ≤ w → below v xs ≤ below w xs
below_mono v w [] h = omega arith
below_mono v w (x ∷ xs) h = ground (arith, below_mono v w xs h)

insert_sorted-IsSorted : (x : ℕ) (xs : List ℕ) → IsSorted xs → IsSorted (insert_sorted x xs)
unfolding insert_sorted
insert_sorted-IsSorted x [] h = (refl, tt)
insert_sorted-IsSorted x (y ∷ ys) h = elim (Bool-cases (leb x y)) [
  | inl low ↦ rw (low, insert_sorted) (ground (arith, below_mono x y ys (ground arith)), h)
  | inr high ↦
      rw (high, insert_sorted)
        (ground (arith, below-insert_sorted y x ys), insert_sorted-IsSorted x ys h.1)
]

sort-IsSorted : (xs : List ℕ) → IsSorted (sort xs)
unfolding sort
sort-IsSorted [] = tt
sort-IsSorted (x ∷ xs) = insert_sorted-IsSorted x (sort xs) (sort-IsSorted xs)

sort-same :
    (v : ℕ) (xs : List ℕ)
    → (below v (sort xs) ≡ below v xs)
      × (at_most v (sort xs) ≡ at_most v xs)
      × (length (sort xs) ≡ length xs)
unfolding sort
sort-same v [] = (refl, refl, refl)
sort-same v (x ∷ xs) =
    let (low, high, size) = sort-same v xs in
    (
      omega (arith, below-insert_sorted v x (sort xs)),
      omega (arith, at_most-insert_sorted v x (sort xs)),
      omega (arith, length-insert_sorted x (sort xs)),
    )

at_most-below : (v w : ℕ) (xs : List ℕ) → v < w → at_most v xs ≤ below w xs
at_most-below v w [] h = omega arith
at_most-below v w (x ∷ xs) h = ground (arith, at_most-below v w xs h)

get_elem?-IsSorted :
    (xs : List ℕ) (n v : ℕ)
    → IsSorted xs
    → get_elem? xs n ≡ some v
    → (below v xs ≤ n) × (n < at_most v xs)
get_elem?-IsSorted [] n v h e = cc
get_elem?-IsSorted (x ∷ xs) zero v h e =
    let same : x ≡ v = ground arith in ground (arith, ap (λ n. below n xs) same)
get_elem?-IsSorted (x ∷ xs) (suc n) v h e =
    ground (arith, get_elem?-IsSorted xs n v h.1 e, at_most-below v x xs)

-- An element selected at an index has at most so many below it, and more than so many not above it.
pub select_nth-counts :
    (xs : List ℕ) (n v : ℕ) → select_nth xs n ≡ some v → (below v xs ≤ n) × (n < at_most v xs)
unfolding select_nth
select_nth-counts xs n v e =
    let (low, high, _) = sort-same v xs in
    let (few, many) = get_elem?-IsSorted (sort xs) n v (sort-IsSorted xs) e in
    (omega arith, omega arith)

pub select_nth-returns :
    (xs : List ℕ) (n : ℕ) → n < length xs → (v : ℕ) × (select_nth xs n ≡ some v)
unfolding select_nth
select_nth-returns xs n h = get_elem?-lt (sort xs) n (omega (arith, sort-same 0 xs))
