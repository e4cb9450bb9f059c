-- ===== src/Statistics/Examples.antt =====
use ackinacki.Statistics.{BlockStatistics, resized, next}
use ackinacki.Statistics.Median.{below, at_most}
use ackinacki.Statistics.Window.{recent, next-median}
use ackinacki.Common.Ring.{last}
use ackinacki.Common.{
  ◌⊎◌, ◌/◌, ◌≤◌, ◌++◌, length, ◌<◌, refl, arith, ◌≡◌, some, none, ◌∷◌, [], nat_eq,
}

-- The statistics of node/src/node/services/statistics at concrete inputs.

abbrev stats : BlockStatistics
stats = record {
  stats = 3 ∷ 4 ∷ 5 ∷ [];
  cursor = 1;
  median_descendants_chain_length_to_meet_threshold = 4;
}

next_stats :
    next (7 ∷ 9 ∷ 1 ∷ []) none stats
    ≡ some (record {
      stats = 1 ∷ 7 ∷ 9 ∷ [];
      cursor = 1;
      median_descendants_chain_length_to_meet_threshold = 7;
    })
unfolding next
next_stats = refl

next-median_example :
    let before = resized (some 4) stats in
    (t : BlockStatistics) × (next (7 ∷ 9 ∷ []) (some 4) stats ≡ some t)
    × (t.cursor < length t.stats)
    × (recent t ≡ last (length before.stats) (recent before ++ (7 ∷ 9 ∷ [])))
    × (0 < t.median_descendants_chain_length_to_meet_threshold)
    × ((below t.median_descendants_chain_length_to_meet_threshold t.stats ≤ length t.stats / 2)
          × (length t.stats / 2
              < at_most t.median_descendants_chain_length_to_meet_threshold t.stats)
        ⊎ (t.median_descendants_chain_length_to_meet_threshold ≡ 1)
          × (length t.stats / 2 < at_most 0 t.stats))
next-median_example = next-median (7 ∷ 9 ∷ []) (some 4) stats (omega arith)
