-- ===== src/TokenBuckets/Bars/Parts.antt =====
-- The parts of the bars of frontend/src/views/TokenBuckets.tsx together, and when nothing is drawn.
use mathlib.Core.Option
use relay_local.Prelude.{
  ℕ, suc, ◌+◌, ◌≡◌, refl, sym, ap, ◌∙◌, ◌↔◌, max, true, false, Option, none, some, List, [], ◌∷◌,
  String, length, is_some, sum_by, All, ◌==◌, get_elem?, lt_of_get_elem?, ==_iff, arith,
}
use relay_local.Prelude.Int.{ℤ}
use relay_local.Number.{Number}
use relay_local.LocalTime.{LocalTime, IsCalendar}
use relay_local.Api.{HistoryEvent, Prices, or_zero}
use relay_local.Api.Server.{LiveUsage}
use relay_local.Stats.Events.{events_since}
use relay_local.Stats.Buckets.{Range, buckets_for}
use relay_local.Stats.Labels.{BucketSize}
use relay_local.Stats.Series.{series}
use relay_local.Stats.Series.Lengths.{series-lengths}
use relay_local.Stats.Series.Cells.{reported_input, reported_output}
use relay_local.Stats.Series.Conservation.{total, series-conserves}
use relay_local.TokenBuckets.{live_tokens, values_from, bar_values}
use relay_local.TokenBuckets.Total.{at_end, at_end-nonempty, last_bar, bar_values-total}
use relay_local.TokenBuckets.Bars.{Bar, tail, max_value, bars_from, bars, is_zero, is_empty}

-- A bar is as high as its parts.
abbrev pub IsWhole : Bar → Type 0
IsWhole b = b.value ≡ some (b.input + b.output + b.live)

record Parts (own : ℕ) (inputs outputs : List ℕ) (bs : List Bar) : Type 0 where
  pub count : length bs ≡ length inputs
  pub whole : All IsWhole bs
  pub input : sum_by (λ (b : Bar). b.input) bs ≡ total inputs
  pub output : sum_by (λ (b : Bar). b.output) bs ≡ total outputs
  pub live : sum_by (λ (b : Bar). b.live) bs ≡ at_end own inputs

bars_from-Parts :
    (size : BucketSize) (live count i : ℕ) (xs ys : List ℕ) (labels : List String)
    → length xs ≡ length ys
    → i + length xs ≡ count
    → Parts live xs ys (bars_from size live count i (values_from count live i xs ys) xs ys labels)
unfolding bars_from values_from
bars_from-Parts size live count i [] [] labels h k = record {
  count = refl;
  whole = tt;
  input = refl;
  output = refl;
  live = refl;
}
bars_from-Parts size live count i [] (y ∷ ys) labels h k = ground arith
bars_from-Parts size live count i (x ∷ xs) [] labels h k = ground arith
bars_from-Parts size live count i (x ∷ []) (y ∷ []) labels h k =
    rw (last_bar i count k)
      (record { count = refl; whole = (refl, tt); input = refl; output = refl; live = omega arith })
bars_from-Parts size live count i (x ∷ []) (y ∷ y' ∷ ys) labels h k = ground arith
bars_from-Parts size live count i (x ∷ x' ∷ xs) (y ∷ ys) labels h k =
    let rest =
      bars_from-Parts size live count (i + 1) (x' ∷ xs) ys (tail labels) (omega arith)
        (omega arith) in
    let middle : (i + 1 == count) ≡ false = ground arith in
    rw middle (record {
      count = ap suc rest.count;
      whole = (refl, rest.whole);
      input = ap (λ n. x + n) rest.input;
      output = ap (λ n. y + n) rest.output;
      live = let l = rest.live in omega arith;
    })

length-values_from :
    (count live i : ℕ) (xs ys : List ℕ) → length (values_from count live i xs ys) ≡ length xs
unfolding values_from
length-values_from count live i [] ys = refl
length-values_from count live i (x ∷ xs) [] = ap suc (length-values_from count live (i + 1) xs [])
length-values_from count live i (x ∷ xs) (y ∷ ys) =
    ap suc (length-values_from count live (i + 1) xs ys)

max_value_lem :
    (vs : List (Option ℕ))
    → All (λ v. is_some v ≡ true) vs
    → (m : ℕ) × (max_value vs ≡ some m) × ((m ≡ 0) ↔ (sum_by or_zero vs ≡ 0))
unfolding max_value
max_value_lem [] all = (0, refl, (λ h. refl, λ h. refl))
max_value_lem (none ∷ vs) all = ground arith
max_value_lem (some v ∷ vs) all =
    let (m, at, (f, g)) = max_value_lem vs all.1 in
    (
      max v m,
      ap (Option.map (max v)) at,
      (λ h. let z = f (omega arith) in omega arith, λ h. let z = g (omega arith) in omega arith),
    )

is_zero-max_value :
    (vs : List (Option ℕ))
    → All (λ v. is_some v ≡ true) vs
    → (is_zero (max_value vs) ≡ true) ↔ (sum_by or_zero vs ≡ 0)
is_zero-max_value vs all =
    let (m, at, (f, g)) = max_value_lem vs all in
    rw at (λ h. f ((==_iff m 0).0 h), λ h. (==_iff m 0).1 (g h))

module _ (F : Type 0) ⦃number : Number F⦄ (calendar : LocalTime) (events : List HistoryEvent)
    (prices : Prices) where
  -- For every range that has a bucket, whatever the labels: the chart has one bar for each bucket; the
  -- height of each bar is the sum of its parts; over all bars, the input and the output parts are the
  -- tokens that the events from the start of the first bucket on report, and the live part is the live
  -- estimate; and the message of an empty chart is shown exactly if all of these are 0. The calendar is
  -- one in which later dates do not begin earlier and no instant is before its own hour, day and month.
  pub bars-total :
      IsCalendar calendar
      → (range : Range) (now : ℤ) (size : BucketSize) (labels : List String)
        (live : Option LiveUsage) {b : ℤ}
      → get_elem? (buckets_for calendar range now) 0 ≡ some b
      → let own = events_since calendar events b none in
        let s = series {F = F} calendar events prices range now in
        let bs = bars size labels s live in
        let input = sum_by reported_input own in
        let output = sum_by reported_output own in
        (length bs ≡ length (buckets_for calendar range now))
        × All IsWhole bs
        × (sum_by (λ (b : Bar). b.input) bs ≡ input)
        × (sum_by (λ (b : Bar). b.output) bs ≡ output)
        × (sum_by (λ (b : Bar). b.live) bs ≡ live_tokens live)
        × ((is_empty s live ≡ true) ↔ (input + output + live_tokens live ≡ 0))
  unfolding bars bar_values is_empty
  bars-total laws range now size labels live at_0 =
      let s = series {F = F} calendar events prices range now in
      let l = live_tokens live in
      let (t, i, o) = series-lengths F calendar events prices range now in
      let (_, input, output) = series-conserves F calendar events prices laws range now at_0 in
      let n = lt_of_get_elem? (buckets_for calendar range now) 0 at_0 in
      let (all, sum) = bar_values-total F calendar events prices laws range now live at_0 in
      let (f, g) = is_zero-max_value (bar_values s live) all in
      let same : length (bar_values s live) ≡ length s.tokens =
        length-values_from (length s.tokens) l 0 s.input_tokens s.output_tokens ∙ (i ∙ sym t) in
      let parts : Parts l s.input_tokens s.output_tokens (bars size labels s live) = rw same (
        bars_from-Parts size l (length s.tokens) 0 s.input_tokens s.output_tokens labels (i ∙ sym o)
          (omega (arith, t, i))) in
      (
        parts.count ∙ i,
        parts.whole,
        parts.input ∙ input,
        parts.output ∙ output,
        parts.live ∙ at_end-nonempty l s.input_tokens (omega (arith, i, n)),
        (λ h. sym sum ∙ f h, λ h. g (sum ∙ h)),
      )
