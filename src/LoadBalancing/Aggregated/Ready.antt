-- ===== src/LoadBalancing/Aggregated/Ready.antt =====
use ackinacki.Common.{
  ◌≤◌, map, ◌+◌, leb, ◌||◌, ◌^◌, length, All, ◌++◌, ◌∙◌, ap, refl, suc, arith, ◌≡◌, Option, List,
  some, none, ◌∷◌, [],
}
use mathlib.Core.List.{append-nil}
use ackinacki.Common.Ring.{last, tail_shift, last-append}
use ackinacki.LoadBalancing.Accounts.Counts.{
  routes, without_bit-length, new_from-routes, length-routes,
}
use ackinacki.LoadBalancing.Aggregated.Sums.{Entry, Fits, IsSum}
use ackinacki.LoadBalancing.Aggregated.Window.{
  recent-IsSum, length-recent, recent, IsWindow, append_from-tail,
}
use ackinacki.LoadBalancing.Aggregated.{
  AggregatedLoad, BlockLoad, is_ready, reset, entry_of, append_from,
}

-- When the load of aggregated_thread_load.rs is ready, and over which blocks it is summed.

-- The blocks of a thread, one after another.
pub appends : AggregatedLoad → List BlockLoad → Option AggregatedLoad
appends l [] = some l
appends l (b ∷ bs) = elim (append_from l b) [ none ↦ none | some next ↦ appends next bs ]

-- A block whose queue and messages are few enough for sums over 2 ^ 10 blocks.
abbrev pub HasQueue : BlockLoad → Type 0
HasQueue b = (b.queue_length ≤ 2 ^ 52) × (length b.in_messages ≤ 2 ^ 20)

pub entry_of-Fits :
    (b : BlockLoad) → HasQueue b → (entry : Entry) × (entry_of b ≡ some entry) × Fits entry
unfolding entry_of
entry_of-Fits b (queue, messages) =
    let fewer = length-routes b.dapp_id_table b.in_messages in
    let (load, made, total, zero_bits) =
      new_from-routes b.dapp_id_table b.in_messages (omega arith) in
    (
      (b.queue_length, load),
      rw made refl,
      record {
        queue_fits = queue;
        transactions_fit = omega arith;
        zeros_fit = λ outer inner. omega (
          arith,
          zero_bits outer inner,
          without_bit-length outer inner (routes b.dapp_id_table b.in_messages),
        );
      },
    )

appends-recent :
    (l : AggregatedLoad) (bs : List BlockLoad)
    → IsWindow l
    → All HasQueue bs
    → (next : AggregatedLoad) × (appends l bs ≡ some next)
      × IsWindow next
      × (next.window_size ≡ l.window_size)
      × (next.is_filled ≡ (l.is_filled || leb l.window_size (l.cursor + length bs)))
      × ((entries : List Entry) × (map entry_of bs ≡ map some entries)
          × ((dropped : List Entry) × (recent l ++ entries ≡ dropped ++ recent next)
              × (length dropped ≡ length bs)))
unfolding appends
appends-recent l [] h all =
    (l, refl, h, refl, ground arith, ([], refl, ([], append-nil (recent l), refl)))
appends-recent l (b ∷ bs) h all =
    let (entry, enters, fits) = entry_of-Fits b all.0 in
    let (next, made, valid, oldest, after, size, filled, cursor) =
      append_from-tail l b entry h enters fits in
    let (
      end,
      ends,
      end_valid,
      end_size,
      end_filled,
      (entries, of_blocks, (dropped, split, count)),
    ) =
      appends-recent next bs valid all.1 in
    (
      end,
      rw (made, appends) ends,
      end_valid,
      end_size ∙ size,
      ground (arith, cursor, size, filled, end_filled),
      (
        entry ∷ entries,
        rw (enters, of_blocks) refl,
        (
          oldest.0 ∷ dropped,
          tail_shift (recent l) (recent next) entries dropped (recent end) oldest.0 entry oldest.1
              after split,
          ap suc count,
        ),
      ),
    )

pub reset-IsWindow : (l : AggregatedLoad) → IsWindow l → IsWindow (reset l)
unfolding reset
reset-IsWindow l h = record {
  size = h.size;
  some_size = h.some_size;
  few = h.few;
  in_window = h.some_size;
  all_fit = h.all_fit;
  is_sum = h.is_sum;
}

-- After a reset of a window of at most 2 ^ 10 entries with its sum, each within the same bounds, blocks with at most 2 ^ 52 messages in the queue
-- and 2 ^ 20 inbound messages are appended without a panic. The load is ready exactly from the block on
-- that fills the window, and what it sums, the length of the queue and each counter, are the last entries
-- of the window and of the blocks, as many as the window holds.
pub appends-reset :
    (l : AggregatedLoad) (bs : List BlockLoad)
    → IsWindow l
    → All HasQueue bs
    → (next : AggregatedLoad) × (appends (reset l) bs ≡ some next)
      × IsWindow next
      × (is_ready next ≡ leb l.window_size (length bs))
      × ((entries : List Entry) × (map entry_of bs ≡ map some entries)
          × IsSum next.aggregated_value (last l.window_size (recent (reset l) ++ entries)))
unfolding is_ready reset
appends-reset l bs h all =
    let (next, made, valid, size, filled, (entries, of_blocks, (dropped, split, count))) =
      appends-recent (reset l) bs (reset-IsWindow l h) all in
    let newest : last l.window_size (recent (reset l) ++ entries) ≡ recent next =
      ap (last l.window_size) split
      ∙ last-append l.window_size dropped (recent next) (length-recent next valid ∙ size) in
    (
      next,
      made,
      valid,
      ground (arith, filled),
      (entries, of_blocks, rw newest (recent-IsSum next valid)),
    )
