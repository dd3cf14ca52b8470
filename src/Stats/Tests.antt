-- ===== src/Stats/Tests.antt =====
-- Runs of the figures on a small history, and each theorem at a concrete input.
use relay_local.Prelude.{
  ℕ, ◌*◌, ◌≤◌, ◌<◌, ◌≡◌, refl, inl, not, some, List, [], ◌∷◌, arith, get_elem?, leb, sum_by, All,
}
use relay_local.Prelude.Int.{pos, negsuc, ◌-ℤ◌, ◌*ℤ◌, ◌+ℤ◌}
use relay_local.Prelude.Sort.{count_by, IsOrder, sort}
use relay_local.Samples.{
  millionths, plain, plain-IsCalendar, plain-strict, history, prices, fifth_day,
}
use relay_local.Api.{lookup}
use relay_local.Stats.Events.{start_of_day, events_since, tokens_of}
use relay_local.Stats.Price.{is_blank, parse_price, is_priced, revenue_of, earned, sum_revenue}
use relay_local.Stats.Buckets.{week, floor_div, buckets_for, find_bucket}
use relay_local.Stats.Series.{Series, series}
use relay_local.Stats.Series.Cells.{series-window}
use relay_local.Stats.Series.Conservation.{total, series-conserves}
use relay_local.Stats.Percentile.{percentile, ceil_percent, round, spacing}
use relay_local.Stats.Percentile.Rank.{percentile_rank}
use relay_local.Stats.Days.{tokens_per_day}
use relay_local.Stats.Days.Daily.{tokens_per_day-figures}
use relay_local.Stats.Labels.{Locale}
use relay_local.Stats.PerModel.{per_model}
use relay_local.Stats.PerModel.Groups.{events_of_model}
use relay_local.Stats.PerModel.Rows.{Describes, HasDistinctModels, per_model-partition}

week_buckets :
    buckets_for plain week fifth_day
    ≡ (negsuc 172799999)
      ∷ (negsuc 86399999)
      ∷ (pos 0)
      ∷ (pos 86400000)
      ∷ (pos 172800000)
      ∷ (pos 259200000)
      ∷ (pos 345600000)
      ∷ []
unfolding buckets_for start_of_day floor_div ◌-ℤ◌ ◌*ℤ◌ ◌+ℤ◌
week_buckets = refl

abbrev week_series : Series ℕ
week_series = series {F = ℕ} plain history prices week fifth_day

-- The first day has the two first requests, one of a model with no price.
first_day : get_elem? week_series.revenue 2 ≡ some 900
unfolding series buckets_for start_of_day floor_div ◌-ℤ◌ ◌*ℤ◌ ◌+ℤ◌ find_bucket revenue_of earned
    is_priced parse_price is_blank lookup
first_day = refl

series-window_example :
    let s = week_series in
    (get_elem? s.revenue 2 ≡ some 900)
    × (get_elem? s.tokens 2 ≡ some 460)
    × (get_elem? s.input_tokens 2 ≡ some 400)
    × (get_elem? s.output_tokens 2 ≡ some 60)
    × (get_elem? s.throughput 2 ≡ some 10000000)
unfolding first_day events_since sum_revenue tokens_of
series-window_example =
    series-window {F = ℕ} plain history prices plain-IsCalendar week fifth_day 2 {b = pos 0} refl

series-conserves_example :
    let s = week_series in
    (total s.tokens ≡ 527) × (total s.input_tokens ≡ 457) × (total s.output_tokens ≡ 70)
unfolding first_day events_since tokens_of
series-conserves_example =
    series-conserves ℕ plain history prices plain-IsCalendar week fifth_day {b = negsuc 172799999}
      refl

leb-IsOrder : IsOrder leb
leb-IsOrder = record { total = λ x y. ground arith; trans = λ x y z h k. ground arith }

abbrev durations : List ℕ
durations = 40 ∷ 10 ∷ 30 ∷ 20 ∷ 10 ∷ []

-- The product of the doubles is above 7.
test-ceil : ceil_percent 7 100 ≡ 8
unfolding ceil_percent round spacing
test-ceil = refl

median : percentile leb durations 50 ≡ some 20
unfolding percentile ceil_percent round spacing sort
median = refl

percentile_rank_example :
    (50 * 5 ≤ 100 * count_by (λ x. leb x 20) durations)
    × (100 * count_by (λ x. not (leb 20 x)) durations < 50 * 5)
percentile_rank_example = percentile_rank leb-IsOrder durations 50 (inl refl) (omega arith) median

p95 : percentile leb durations 95 ≡ some 40
unfolding percentile ceil_percent round spacing sort
p95 = refl

per_model-partition_example :
    let rows = per_model {F = ℕ} history prices in
    All (λ row. Describes {F = ℕ} prices (events_of_model history row.model) row) rows
    × HasDistinctModels rows
    × (sum_by (λ row. row.requests) rows ≡ 4)
per_model-partition_example = per_model-partition ℕ history prices

tokens_per_day-figures_example :
    tokens_per_day plain history 5 fifth_day
    ≡ record { date = pos 0; input = 400; output = 60 }
      ∷ record { date = pos 86400000; input = 50; output = 10 }
      ∷ record { date = pos 172800000; input = 0; output = 0 }
      ∷ record { date = pos 259200000; input = 0; output = 0 }
      ∷ record { date = pos 345600000; input = 7; output = 0 }
      ∷ []
unfolding start_of_day floor_div ◌-ℤ◌ ◌*ℤ◌ ◌+ℤ◌
tokens_per_day-figures_example = tokens_per_day-figures plain plain-strict 5 fifth_day history

abbrev locale : Locale
locale = record {
  month_name = λ t. "may";
  day_name = λ t. "may 5";
  minutes = λ t. 0;
  digits = λ n. "4";
}
