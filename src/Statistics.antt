-- ===== src/Statistics.antt =====
use mathlib.Core.Option
use ackinacki.Common.{
  ◌/◌, length, ◌%◌, ◌-◌, ltb, leb, ◌+◌, ◌==◌, ◌++◌, get_elem?, set, if◌then◌else◌, take, replicate,
  arith, ℕ, Option, List, some, none, ◌∷◌, [], nat_eq,
}
-- node/src/node/services/statistics/median_descendants_chain_length_to_meet_threshold.rs: the median over a
-- window of the last finalization distances.
pub mod Median
pub mod Window
mod Examples

pub record BlockStatistics : Type 0 where
  pub stats : List ℕ
  pub cursor : ℕ
  pub median_descendants_chain_length_to_meet_threshold : ℕ

pub zero_statistics : ℕ → ℕ → BlockStatistics
zero_statistics initial_window_size preset = record {
  stats = replicate initial_window_size preset;
  cursor = 0;
  median_descendants_chain_length_to_meet_threshold = preset;
}

-- `Vec::resize`
pub resize : ℕ → ℕ → List ℕ → List ℕ
resize n value stats = take n stats ++ replicate (n - length stats) value

-- The override of the window; `stats` is not empty after it.
pub resized : Option ℕ → BlockStatistics → BlockStatistics
unfolding resize
resized none s = s
resized (some new_window_size) s =
    let n = if new_window_size == 0 then 1 else new_window_size in
    record s {
      stats = resize n s.median_descendants_chain_length_to_meet_threshold s.stats;
      cursor = s.cursor % n;
    }

-- `none` is the panic of an empty window.
pub record_distances : List ℕ → BlockStatistics → Option BlockStatistics
record_distances [] s = some s
record_distances (e ∷ distances) s =
    let rest =
      record_distances distances
        (record s { stats = set s.stats s.cursor e; cursor = (s.cursor + 1) % length s.stats }) in
    if ltb s.cursor (length s.stats) then rest else none

-- `select_nth_unstable` of the standard library: the element at an index of the sorted slice.
pub insert_sorted : ℕ → List ℕ → List ℕ
insert_sorted x [] = x ∷ []
insert_sorted x (y ∷ ys) = if leb x y then x ∷ (y ∷ ys) else y ∷ insert_sorted x ys

pub sort : List ℕ → List ℕ
unfolding insert_sorted
sort [] = []
sort (x ∷ xs) = insert_sorted x (sort xs)

pub select_nth : List ℕ → ℕ → Option ℕ
unfolding sort
select_nth xs n = get_elem? (sort xs) n

pub with_median : BlockStatistics → Option BlockStatistics
unfolding select_nth
with_median s =
    Option.map
      (λ median. record s {
        median_descendants_chain_length_to_meet_threshold = if ltb 0 median then median else 1;
      })
      (select_nth s.stats (length s.stats / 2))

pub and_median : Option BlockStatistics → Option BlockStatistics
unfolding with_median
and_median none = none
and_median (some s) = with_median s

pub next : List ℕ → Option ℕ → BlockStatistics → Option BlockStatistics
unfolding resized record_distances and_median
next distances new_window_size s =
    and_median (record_distances distances (resized new_window_size s))
