-- ===== src/LoadBalancing/Accounts/Split.antt =====
use ackinacki.LoadBalancing.Accounts.Checked.{
  ones_of, distance_between-apart, i64_sub-ones_of, apart,
}
use ackinacki.Routing.Address.{bits_of_routing, AccountRouting}
use ackinacki.LoadBalancing.Accounts.{
  keep_nearer, scan_outer, scan_inner, consider, can_split, InThreadAccountsLoad,
}
use ackinacki.Common.{
  nat_eq, ◌&&◌, ◌==◌, if◌then◌else◌, not, ◌^◌, refl, sym, ltb→ge, ltb→lt, subst, ltb, Bool-cases,
  sym, ◌∙◌, ◌+◌, ◌%◌, inr, ap, ◌*◌, ◌⊎◌, ◌/◌, inl, ◌≤◌, ◌<◌, suc, zero, arith, ◌≡◌, ℕ, Option, Bool,
  false, true, some, none,
}

-- The bit that best_split proposes, in in_thread_accounts_load.rs.

-- Counters of a load that are far from an overflow of an i64.
pub record IsCounted (load : InThreadAccountsLoad) : Type 0 where
  pub total_fits : load.total_transactions_count < 2 ^ 63
  pub counters_fit : (outer inner : ℕ) → load.zero_bits_count outer inner < 2 ^ 32

module _ (load : InThreadAccountsLoad) (meaningful : AccountRouting) where
  -- The messages with a zero at a bit; the bits are in one row, the dapp's before the account's.
  abbrev pub without : ℕ → ℕ
  without k = load.zero_bits_count (k / 256) (k % 256)

  -- A bit that some messages have and others have not, and that the mask does not look at.
  abbrev pub splits : ℕ → Bool
  splits k =
      not (without k == 0)
      && not (without k == load.total_transactions_count)
      && not (bits_of_routing meaningful (k / 256) (k % 256))

  -- The distance between the messages without a bit and the others.
  abbrev pub distance : ℕ → ℕ
  distance k = apart load.total_transactions_count (without k)

  -- The first bit of the least distance among the first `n` that can split.
  abbrev pub IsBest : ℕ → Option (ℕ × ℕ) → Type 0
  IsBest n none = (k : ℕ) → k < n → splits k ≡ false
  IsBest n (some (index, d)) =
      (index < n)
      × (splits index ≡ true)
      × (d ≡ distance index)
      × ((k : ℕ) → k < n → splits k ≡ true → (d ≤ distance k) × (k < index → d < distance k))

  last_or_before : (k n : ℕ) → k < suc n → (k ≡ n) ⊎ (k < n)
  last_or_before k n h = ground arith

  at_index :
      (outer inner : ℕ)
      → inner < 256
      → ((outer * 256 + inner) / 256 ≡ outer) × ((outer * 256 + inner) % 256 ≡ inner)
  at_index outer inner h = omega arith

  -- One bit that can split, against the best of those before it.
  IsBest-better :
      (n index d : ℕ)
      → IsBest n (some (index, d))
      → splits n ≡ true
      → distance n < d
      → IsBest (suc n) (some (n, distance n))
  IsBest-better n index d (lt, s, e, least) now nearer = (
    omega arith,
    now,
    refl,
    λ k below can. elim (last_or_before k n below) [
      | inl same ↦ (omega (arith, ap distance same), λ h. absurd (omega arith))
      | inr before ↦ ground (arith, least k before can)
    ],
  )

  IsBest-kept :
      (n index d : ℕ)
      → IsBest n (some (index, d))
      → (splits n ≡ true → d ≤ distance n)
      → IsBest (suc n) (some (index, d))
  IsBest-kept n index d (lt, s, e, least) farther = (
    omega arith,
    s,
    e,
    λ k below can. elim (last_or_before k n below) [
      | inl same ↦ (
        omega (arith, ap distance same, farther (sym (ap splits same) ∙ can)),
        λ h. absurd (omega arith),
      )
      | inr before ↦ least k before can
    ],
  )

  IsBest-first : (n : ℕ) → IsBest n none → splits n ≡ true → IsBest (suc n) (some (n, distance n))
  IsBest-first n no_one now = (
    omega arith,
    now,
    refl,
    λ k below can. elim (last_or_before k n below) [
      | inl same ↦ (omega (arith, ap distance same), λ h. absurd (omega arith))
      | inr before ↦ cc (no_one k before, can)
    ],
  )

  IsBest-none : (n : ℕ) → IsBest n none → splits n ≡ false → IsBest (suc n) none
  IsBest-none n no_one now k below = elim (last_or_before k n below) [
    | inl same ↦ ap splits same ∙ now
    | inr before ↦ no_one k before
  ]

  IsBest-keep_nearer :
      (n : ℕ) (best : Option (ℕ × ℕ))
      → IsBest n best
      → splits n ≡ true
      → IsBest (suc n) (keep_nearer n (distance n) best)
  unfolding keep_nearer
  IsBest-keep_nearer n none h now = IsBest-first n h now
  IsBest-keep_nearer n (some (index, d)) h now = elim (Bool-cases (ltb (distance n) d)) [
    | inl nearer ↦ rw nearer (IsBest-better n index d h now (ltb→lt _ _ nearer))
    | inr farther ↦ rw farther (IsBest-kept n index d h (λ _. ltb→ge _ _ farther))
  ]

  IsBest-passed_over :
      (n : ℕ) (best : Option (ℕ × ℕ)) → IsBest n best → splits n ≡ false → IsBest (suc n) best
  IsBest-passed_over n none h out = IsBest-none n h out
  IsBest-passed_over n (some (index, d)) h out = IsBest-kept n index d h (λ now. cc (now, out))

  -- What a bit at the row `r` and the column `c` leaves of the best so far.
  abbrev chosen : ℕ → Option (ℕ × ℕ) → ℕ → ℕ → Option (ℕ × ℕ)
  chosen n best r c =
      if not (load.zero_bits_count r c == 0)
        && not (load.zero_bits_count r c == load.total_transactions_count)
        && not (bits_of_routing meaningful r c)
      then keep_nearer n (apart load.total_transactions_count (load.zero_bits_count r c)) best
      else best

  consider_at :
      (outer inner : ℕ) (best : Option (ℕ × ℕ))
      → IsCounted load
      → consider load meaningful outer inner best
        ≡ some (chosen (outer * 256 + inner) best outer inner)
  unfolding consider can_split
  consider_at outer inner best h =
      let count = load.zero_bits_count outer inner in
      let total = load.total_transactions_count in
      let some_ones = i64_sub-ones_of total count h.total_fits (h.counters_fit outer inner) in
      let far = distance_between-apart total count h.total_fits (h.counters_fit outer inner) in
      let used : (ones_of total count == 0) ≡ (count == total) =
        ground (arith, h.total_fits, h.counters_fit outer inner) in
      rw (some_ones, consider) (ground (arith, used, far))

  consider-lem :
      (outer inner : ℕ) (best : Option (ℕ × ℕ))
      → inner < 256
      → IsCounted load
      → consider load meaningful outer inner best
        ≡ some (
            if splits (outer * 256 + inner)
            then keep_nearer (outer * 256 + inner) (distance (outer * 256 + inner)) best
            else best)
  consider-lem outer inner best lt h =
      let (row, column) = at_index outer inner lt in
      let n = outer * 256 + inner in
      consider_at outer inner best h
      ∙ ap (λ r. some (chosen n best r inner)) (sym row)
      ∙ ap (λ c. some (chosen n best (n / 256) c)) (sym column)

  IsBest-consider :
      (outer inner : ℕ) (best : Option (ℕ × ℕ))
      → inner < 256
      → IsCounted load
      → IsBest (outer * 256 + inner) best
      → (next : Option (ℕ × ℕ)) × (consider load meaningful outer inner best ≡ some next)
        × IsBest (suc (outer * 256 + inner)) next
  IsBest-consider outer inner best lt fits h =
      let n = outer * 256 + inner in
      let made = consider-lem outer inner best lt fits in
      elim (Bool-cases (splits n)) [
        | inl now ↦
            (keep_nearer n (distance n) best, made ∙ rw now refl, IsBest-keep_nearer n best h now)
        | inr out ↦ (best, made ∙ rw out refl, IsBest-passed_over n best h out)
      ]

  module _ (fits : IsCounted load) where
    scan_inner-IsBest :
        (outer inner : ℕ) (best : Option (ℕ × ℕ))
        → inner ≤ 256
        → IsBest (outer * 256) best
        → (next : Option (ℕ × ℕ)) × (scan_inner load meaningful outer inner best ≡ some next)
          × IsBest (outer * 256 + inner) next
    unfolding scan_inner
    scan_inner-IsBest outer zero best le h =
        let e : outer * 256 ≡ outer * 256 + 0 = omega arith in
        (best, refl, subst (λ n. IsBest n best) e h)
    scan_inner-IsBest outer (suc inner) best le h =
        let e : suc (outer * 256 + inner) ≡ outer * 256 + suc inner = omega arith in
        let (before, made, is_best) = scan_inner-IsBest outer inner best (omega arith) h in
        let (next, after, best_now) =
          IsBest-consider outer inner before (omega arith) fits is_best in
        (next, rw made after, subst (λ n. IsBest n next) e best_now)

    IsBest-start : IsBest 0 none
    IsBest-start k h = absurd (omega arith)

    pub scan_outer-IsBest :
        (parts : ℕ)
        → (found : Option (ℕ × ℕ)) × (scan_outer load meaningful parts ≡ some found)
          × IsBest (parts * 256) found
    unfolding scan_outer
    scan_outer-IsBest zero = (none, refl, IsBest-start)
    scan_outer-IsBest (suc parts) =
        let e : parts * 256 + 256 ≡ suc parts * 256 = omega arith in
        let (before, made, is_best) = scan_outer-IsBest parts in
        let (found, after, best_now) = scan_inner-IsBest parts 256 before (omega arith) is_best in
        (found, rw made after, subst (λ n. IsBest n found) e best_now)
