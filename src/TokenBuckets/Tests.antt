-- ===== src/TokenBuckets/Tests.antt =====
-- The bars of a week, with an estimate.
use relay_local.Prelude.{ℕ, ◌+◌, ◌≡◌, ◌↔◌, refl, true, some, [], ◌∷◌, All, length, sum_by}
use relay_local.Prelude.Int.{negsuc}
use relay_local.Api.Server.{LiveUsage}
use relay_local.Samples.{millionths, plain, plain-IsCalendar, history, prices, fifth_day}
use relay_local.Stats.Events.{events_since, start_of_day}
use relay_local.Stats.Buckets.{week, buckets_for, floor_div}
use relay_local.Stats.Series.{series}
use relay_local.Prelude.Int.{◌+ℤ◌, ◌-ℤ◌, ◌*ℤ◌}
use relay_local.Stats.Labels.{day}
use relay_local.TokenBuckets.Bars.{Bar, bars, is_empty}
use relay_local.TokenBuckets.Bars.Parts.{IsWhole, bars-total}

abbrev live : LiveUsage
live = record { requests = 1; bytes = 900; output_tokens_estimate = 25 }

bars-total_example :
    let s = series {F = ℕ} plain history prices week fifth_day in
    let bs = bars day ("mon" ∷ []) s (some live) in
    (length bs ≡ 7)
    × All IsWhole bs
    × (sum_by (λ (b : Bar). b.input) bs ≡ 457)
    × (sum_by (λ (b : Bar). b.output) bs ≡ 70)
    × (sum_by (λ (b : Bar). b.live) bs ≡ 25)
    × ((is_empty s (some live) ≡ true) ↔ (457 + 70 + 25 ≡ 0))
unfolding buckets_for start_of_day floor_div ◌-ℤ◌ ◌*ℤ◌ ◌+ℤ◌ events_since
bars-total_example =
    bars-total ℕ plain history prices plain-IsCalendar week fifth_day day ("mon" ∷ []) (some live)
      {b = negsuc 172799999} refl
