-- ===== src/Statistics/Window.antt =====
use native.Mathlib.Nat.{mod-lt}
use mathlib.Core.List.{append-nil}
use ackinacki.Common.Ring.{
  last, tail_shift, last-append, from_place, tail, from_place-set, length-from_place,
}
use ackinacki.Statistics.Median.{select_nth-returns, below, at_most, select_nth-counts}
use ackinacki.Statistics.{
  BlockStatistics, resize, resized, record_distances, with_median, and_median, next,
}
use ackinacki.Common.{
  subst, length-replicate, replicate, ltb, ◌==◌, length-append, take, ◌⊎◌, length-set, ◌/◌, set,
  ◌≤◌, get_elem?-lt, leb, if◌then◌else◌, ◌++◌, ◌%◌, ◌-◌, ◌+◌, length, ◌<◌, inr, inl, Bool-cases,
  ◌∙◌, ap, sym, refl, suc, zero, arith, ◌≡◌, ℕ, Option, List, some, none, ◌∷◌, [], nat_eq,
}

-- The window of median_descendants_chain_length_to_meet_threshold.rs as the queue of the last distances.

-- The distances of the window, from the oldest to the newest.
abbrev pub recent : BlockStatistics → List ℕ
recent s = from_place s.cursor s.stats

next_cursor : (c n : ℕ) → c < n → (c + 1) % n ≡ (if leb n (c + 1) then 0 else c + 1)
next_cursor c n h = grind arith

record_distances-recent :
    (distances : List ℕ) (s : BlockStatistics)
    → s.cursor < length s.stats
    → (t : BlockStatistics) × (record_distances distances s ≡ some t)
      × (t.cursor < length t.stats)
      × (length t.stats ≡ length s.stats)
      × ((dropped : List ℕ) × (recent s ++ distances ≡ dropped ++ recent t)
          × (length dropped ≡ length distances))
unfolding record_distances
record_distances-recent [] s h = (s, refl, h, refl, ([], append-nil (recent s), refl))
record_distances-recent (e ∷ distances) s h =
    let (x, at) = get_elem?-lt s.stats s.cursor h in
    let (front, moved) = from_place-set s.stats s.cursor x e at h in
    let written = record s {
      stats = set s.stats s.cursor e;
      cursor = (s.cursor + 1) % length s.stats;
    } in
    let place = next_cursor s.cursor (length s.stats) h in
    let after : recent written ≡ tail (recent s) ++ (e ∷ []) = rw place moved in
    let size = length-set s.stats s.cursor e in
    let below : written.cursor < length written.stats = ground (arith, place, size) in
    let (t, made, inside, same, (dropped, split, count)) =
      record_distances-recent distances written below in
    (
      t,
      ground (arith, made),
      inside,
      same ∙ size,
      (
        x ∷ dropped,
        tail_shift (recent s) (recent written) distances dropped (recent t) x e front after split,
        ap suc count,
      ),
    )

length-take : (n : ℕ) (xs : List ℕ) → length (take n xs) + (n - length xs) ≡ n
length-take zero xs = omega arith
length-take (suc n) [] = omega arith
length-take (suc n) (x ∷ xs) = omega (arith, length-take n xs)

length-resize : (n value : ℕ) (stats : List ℕ) → length (resize n value stats) ≡ n
unfolding resize
length-resize n value stats = omega (
  arith,
  length-append (take n stats) (replicate (n - length stats) value),
  length-replicate {A = ℕ} (n - length stats) value,
  length-take n stats,
)

resized-inside :
    (o : Option ℕ) (s : BlockStatistics)
    → s.cursor < length s.stats
    → (resized o s).cursor < length (resized o s).stats
unfolding resized resize
resized-inside none s h = h
resized-inside (some n) s h =
    let k : ℕ = if n == 0 then 1 else n in
    let pos : 0 < k = ground arith in
    omega (
      arith,
      mod-lt s.cursor pos,
      length-resize k s.median_descendants_chain_length_to_meet_threshold s.stats,
    )

-- From a window that is not empty, the next statistics are computed without a panic. Their window is the
-- last distances, as many as the window then holds, after those of the window of before or of its
-- override, and their median m is above 0: at most half of the distances of the window are below it, and
-- more than half are not above it, or it is 1 where that median would be 0.
pub next-median :
    (distances : List ℕ) (new_window_size : Option ℕ) (s : BlockStatistics)
    → s.cursor < length s.stats
    → let before = resized new_window_size s in
      (t : BlockStatistics) × (next distances new_window_size s ≡ some t)
      × (t.cursor < length t.stats)
      × (recent t ≡ last (length before.stats) (recent before ++ distances))
      × (0 < t.median_descendants_chain_length_to_meet_threshold)
      × ((below t.median_descendants_chain_length_to_meet_threshold t.stats ≤ length t.stats / 2)
            × (length t.stats / 2
                < at_most t.median_descendants_chain_length_to_meet_threshold t.stats)
          ⊎ (t.median_descendants_chain_length_to_meet_threshold ≡ 1)
            × (length t.stats / 2 < at_most 0 t.stats))
unfolding next
next-median distances o s h =
    let before = resized o s in
    let (t, made, inside, size, (dropped, split, count)) =
      record_distances-recent distances before (resized-inside o s h) in
    let (median, at) = select_nth-returns t.stats (length t.stats / 2) (omega arith) in
    let (few, many) = select_nth-counts t.stats (length t.stats / 2) median at in
    let newest : recent t ≡ last (length before.stats) (recent before ++ distances) = sym (
      ap (last (length before.stats)) split
      ∙ last-append (length before.stats) dropped (recent t)
          (length-from_place t.cursor t.stats ∙ size)) in
    (
      record t {
        median_descendants_chain_length_to_meet_threshold = if ltb 0 median then median else 1;
      },
      rw (made, and_median) (rw (at, with_median) refl),
      inside,
      newest,
      ground arith,
      elim (Bool-cases (ltb 0 median)) [
        | inl pos ↦ inl (rw pos few, rw pos many)
        | inr none_below ↦
            let zero_median : median ≡ 0 = ground arith in
            inr (
              rw none_below refl,
              subst (λ m. length t.stats / 2 < at_most m t.stats) zero_median many,
            )
      ],
    )
