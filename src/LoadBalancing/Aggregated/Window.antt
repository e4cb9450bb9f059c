-- ===== src/LoadBalancing/Aggregated/Window.antt =====
use ackinacki.LoadBalancing.Accounts.{no_load}
use ackinacki.LoadBalancing.Aggregated.Sums.{
  IsSum-IsModest, IsModest, zeros, transactions, queued, sum_of-zero, IsSum-of_from_place, Fits-set,
  IsSum-slide, IsSum-from_place, IsSum, Fits, Entry,
}
use ackinacki.Common.{
  ◌^◌, set, ◌≤◌, length-replicate, replicate, refl, ◌∙◌, length-set, subst, get_elem?-lt, ◌+◌, ◌++◌,
  get_elem?, All, leb, ◌<◌, ◌||◌, length, if◌then◌else◌, suc, zero, arith, ◌≡◌, ℕ, List, some, ◌∷◌,
  [],
}
use ackinacki.Common.Ring.{from_place, tail, from_place-set, length-from_place}
use ackinacki.LoadBalancing.Aggregated.{
  slide_value, fill_entry, AggregatedLoad, BlockLoad, new_load, move_cursor, replace_entry,
  entry_of, append_from,
}

-- The window of aggregated_thread_load.rs as the queue of its entries.

abbrev next_place : AggregatedLoad → ℕ
next_place l = if leb l.window_size (l.cursor + 1) then 0 else l.cursor + 1

-- The entries of the window, from the oldest to the newest.
abbrev pub recent : AggregatedLoad → List Entry
recent l = from_place (next_place l) l.window

pub record IsWindow (l : AggregatedLoad) : Type 0 where
  pub size : length l.window ≡ l.window_size
  pub some_size : 0 < l.window_size
  pub few : l.window_size ≤ 2 ^ 10
  pub in_window : l.cursor < l.window_size
  pub all_fit : All Fits l.window
  pub is_sum : IsSum l.aggregated_value l.window

abbrev slid : AggregatedLoad → Entry → Entry → AggregatedLoad
slid l value entry = record l {
  is_filled = l.is_filled || leb l.window_size (l.cursor + 1);
  cursor = next_place l;
  window = set l.window (next_place l) entry;
  aggregated_value = value;
}

move_cursor-next_place :
    (l : AggregatedLoad)
    → move_cursor l ≡ record l {
      is_filled = l.is_filled || leb l.window_size (l.cursor + 1);
      cursor = next_place l;
    }
unfolding move_cursor
move_cursor-next_place l = ground arith

next_place-lt : (l : AggregatedLoad) → IsWindow l → next_place l < length l.window
next_place-lt l h = ground arith

append_from-slid :
    (l : AggregatedLoad) (b : BlockLoad) (prev entry value : Entry)
    → get_elem? l.window (next_place l) ≡ some prev
    → entry_of b ≡ some entry
    → slide_value l.aggregated_value prev entry ≡ some value
    → append_from l b ≡ some (slid l value entry)
unfolding append_from fill_entry replace_entry
append_from-slid l b prev entry value at enters slides =
    rw (move_cursor-next_place l) (rw (at, enters, fill_entry) (rw slides refl))

module _ (l : AggregatedLoad) (prev entry value : Entry) (h : IsWindow l)
    (at : get_elem? l.window (next_place l) ≡ some prev) where
  sides :
      (recent l ≡ prev ∷ tail (recent l))
      × (recent (slid l value entry) ≡ tail (recent l) ++ (entry ∷ []))
  sides =
      let (front, moved) =
        from_place-set l.window (next_place l) prev entry at (next_place-lt l h) in
      (front, rw h.size at moved)

  slid-IsWindow :
      Fits entry → IsSum value (tail (recent l) ++ (entry ∷ [])) → IsWindow (slid l value entry)
  slid-IsWindow fits sum = record {
    size = length-set l.window (next_place l) entry ∙ h.size;
    some_size = h.some_size;
    few = h.few;
    in_window = omega (arith, next_place-lt l h, h.size);
    all_fit = Fits-set l.window (next_place l) entry h.all_fit fits;
    is_sum =
        IsSum-of_from_place (next_place (slid l value entry)) (slid l value entry).window
          (slid l value entry).aggregated_value (rw sides.1 sum);
  }

pub window-IsModest : (l : AggregatedLoad) → IsWindow l → IsModest l.aggregated_value
window-IsModest l h =
    IsSum-IsModest l.aggregated_value l.window h.all_fit (omega (arith, h.size, h.few)) h.is_sum

slides :
    (l : AggregatedLoad) (prev entry : Entry)
    → IsWindow l
    → get_elem? l.window (next_place l) ≡ some prev
    → Fits entry
    → (value : Entry) × (slide_value l.aggregated_value prev entry ≡ some value)
      × IsSum value (tail (recent l) ++ (entry ∷ []))
slides l prev entry h at fits =
    let front = (sides l prev entry entry h at).0 in
    IsSum-slide l.aggregated_value prev entry (tail (recent l)) (window-IsModest l h) fits (
      subst (IsSum l.aggregated_value) front
        (IsSum-from_place (next_place l) l.window l.aggregated_value h.is_sum))

-- What one block leaves: the window is the entries of before without the oldest, and its own.
pub append_from-tail :
    (l : AggregatedLoad) (b : BlockLoad) (entry : Entry)
    → IsWindow l
    → entry_of b ≡ some entry
    → Fits entry
    → (next : AggregatedLoad) × (append_from l b ≡ some next)
      × IsWindow next
      × ((oldest : Entry) × (recent l ≡ oldest ∷ tail (recent l)))
      × (recent next ≡ tail (recent l) ++ (entry ∷ []))
      × (next.window_size ≡ l.window_size)
      × (next.is_filled ≡ (l.is_filled || leb l.window_size (l.cursor + 1)))
      × (next.cursor ≡ next_place l)
append_from-tail l b entry h enters fits =
    let (prev, at) = get_elem?-lt l.window (next_place l) (next_place-lt l h) in
    let (value, slides_to, sum) = slides l prev entry h at fits in
    let (front, after) = sides l prev entry value h at in
    (
      slid l value entry,
      append_from-slid l b prev entry value at enters slides_to,
      slid-IsWindow l prev entry value h at fits sum,
      (prev, front),
      after,
      refl,
      refl,
      refl,
    )

pub recent-IsSum : (l : AggregatedLoad) → IsWindow l → IsSum l.aggregated_value (recent l)
recent-IsSum l h = IsSum-from_place (next_place l) l.window l.aggregated_value h.is_sum

pub length-recent : (l : AggregatedLoad) → IsWindow l → length (recent l) ≡ l.window_size
length-recent l h = length-from_place (next_place l) l.window ∙ h.size

Fits-replicate : (n : ℕ) (x : Entry) → Fits x → All Fits (replicate n x)
Fits-replicate zero x h = tt
Fits-replicate (suc n) x h = (h, Fits-replicate n x h)

no_entry : Fits (0, no_load)
no_entry = record {
  queue_fits = omega arith;
  transactions_fit = omega arith;
  zeros_fit = λ outer inner. omega arith;
}

pub new_load-IsWindow :
    (window_size : ℕ) → 0 < window_size → window_size ≤ 2 ^ 10 → IsWindow (new_load window_size)
unfolding new_load
new_load-IsWindow n h few = record {
  size = length-replicate n (0, no_load);
  some_size = h;
  few = few;
  in_window = h;
  all_fit = Fits-replicate n (0, no_load) no_entry;
  is_sum = record {
    queue_sum = omega (arith, sum_of-zero queued n (0, no_load) refl);
    transactions_sum = omega (arith, sum_of-zero transactions n (0, no_load) refl);
    zeros_sum = λ outer inner. omega (arith, sum_of-zero (zeros outer inner) n (0, no_load) refl);
  };
}
