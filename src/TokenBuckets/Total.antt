-- ===== src/TokenBuckets/Total.antt =====
-- The bars together show what the requests report.
use relay_local.Prelude.{
  ℕ, ◌+◌, ◌<◌, ◌≡◌, refl, sym, ◌∙◌, true, false, Option, none, some, List, [], ◌∷◌, length, is_some,
  sum_by, All, ◌==◌, get_elem?, lt_of_get_elem?, ==_iff, arith,
}
use relay_local.Prelude.Int.{ℤ}
use relay_local.Number.{Number}
use relay_local.LocalTime.{LocalTime, IsCalendar}
use relay_local.Api.{HistoryEvent, Prices, or_zero}
use relay_local.Api.Server.{LiveUsage}
use relay_local.Stats.Events.{events_since}
use relay_local.Stats.Buckets.{Range, buckets_for}
use relay_local.Stats.Series.{series}
use relay_local.Stats.Series.Lengths.{series-lengths}
use relay_local.Stats.Series.Cells.{reported_input, reported_output}
use relay_local.Stats.Series.Conservation.{total, series-conserves}
use relay_local.TokenBuckets.{live_tokens, values_from, bar_values}

-- The live estimate stands in one bar, if there is one.
abbrev pub at_end : ℕ → List ℕ → ℕ
at_end live [] = 0
at_end live (x ∷ xs) = live

pub at_end-nonempty : (live : ℕ) (xs : List ℕ) → 0 < length xs → at_end live xs ≡ live
at_end-nonempty live [] h = absurd (omega arith)
at_end-nonempty live (x ∷ xs) h = refl

pub last_bar : (i count : ℕ) → i + 1 ≡ count → (i + 1 == count) ≡ true
last_bar i count h = (==_iff (i + 1) count).1 h

values_from-total :
    (count live i : ℕ) (inputs outputs : List ℕ)
    → length inputs ≡ length outputs
    → i + length inputs ≡ count
    → All (λ v. is_some v ≡ true) (values_from count live i inputs outputs)
      × (sum_by or_zero (values_from count live i inputs outputs)
          ≡ total inputs + total outputs + at_end live inputs)
unfolding values_from
values_from-total count live i [] [] h k = (tt, omega arith)
values_from-total count live i [] (y ∷ ys) h k = ground arith
values_from-total count live i (x ∷ xs) [] h k = ground arith
values_from-total count live i (x ∷ []) (y ∷ []) h k =
    rw (last_bar i count k) ((refl, tt), omega arith)
values_from-total count live i (x ∷ []) (y ∷ y' ∷ ys) h k = ground arith
values_from-total count live i (x ∷ x' ∷ xs) (y ∷ ys) h k =
    let (all, sum) =
      values_from-total count live (i + 1) (x' ∷ xs) ys (omega arith) (omega arith) in
    let middle : (i + 1 == count) ≡ false = ground arith in
    ((refl, all), rw middle (omega (arith, sum)))

module _ (F : Type 0) ⦃number : Number F⦄ (calendar : LocalTime) (events : List HistoryEvent)
    (prices : Prices) where
  -- For every range that has a bucket: each bar of a series has a value, and all bars together show
  -- the input and output tokens that the events from the start of the first bucket on report, plus
  -- the live estimate, once. The calendar is one in which later dates do not begin earlier and no
  -- instant is before its own hour, day and month.
  pub bar_values-total :
      IsCalendar calendar
      → (range : Range) (now : ℤ) (live : Option LiveUsage) {b : ℤ}
      → get_elem? (buckets_for calendar range now) 0 ≡ some b
      → let own = events_since calendar events b none in
        let values = bar_values (series {F = F} calendar events prices range now) live in
        All (λ v. is_some v ≡ true) values
        × (sum_by or_zero values
            ≡ sum_by reported_input own + sum_by reported_output own + live_tokens live)
  unfolding bar_values
  bar_values-total laws range now live at_0 =
      let s = series {F = F} calendar events prices range now in
      let (t, i, o) = series-lengths F calendar events prices range now in
      let (_, input, output) = series-conserves F calendar events prices laws range now at_0 in
      let n = lt_of_get_elem? (buckets_for calendar range now) 0 at_0 in
      let (all, sum) =
        values_from-total (length s.tokens) (live_tokens live) 0 s.input_tokens s.output_tokens
          (i ∙ sym o) (omega (arith, t, i)) in
      (
        all,
        omega (
          arith,
          sum,
          input,
          output,
          at_end-nonempty (live_tokens live) s.input_tokens (omega (arith, i, n)),
        ),
      )
