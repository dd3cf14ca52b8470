-- ===== src/Performance.antt =====
-- The figures of frontend/src/views/Performance.tsx.
pub mod Bars
mod Tests
use relay_local.Prelude.{
  ℕ, ◌-◌, max, Bool, false, Option, none, some, List, [], ◌∷◌, map, length, filter, ltb, leb,
  is_some, if◌then◌else◌,
}
use relay_local.Prelude.Sort.{sort}
use relay_local.Number.{Number}
use relay_local.Api.{HistoryEvent, Prices, or_zero}
use relay_local.Stats.Events.{request_events, completed}
use relay_local.Stats.Price.{throughput_of}
use relay_local.Stats.Percentile.{percentile}
use relay_local.Stats.PerModel.{ModelStats, per_model, durations_of, somes}

-- `value ?? other`, of a value that is shown only where one of the two is there.
abbrev pub first_of : Option ℕ → Option ℕ → ℕ
first_of none other = or_zero other
first_of (some n) other = n

-- `Math.max(...values, 0)`
unfoldable pub max_of : List ℕ → ℕ
max_of [] = 0
max_of (n ∷ ns) = max n (max_of ns)

unfoldable pub failed_requests : List HistoryEvent → ℕ
failed_requests events = length events - length (completed events)

unfoldable pub duration_percentile : List HistoryEvent → ℕ → Option ℕ
duration_percentile events p = percentile leb (durations_of (completed events)) p

module _ {F : Type 0} ⦃number : Number F⦄ where
  open number use {of_ℕ, mul, div, le}

  unfoldable pub ok_rate : List HistoryEvent → Option F
  ok_rate events =
      if ltb 0 (length events)
      then some (mul (div (of_ℕ (length (completed events))) (of_ℕ (length events))) (of_ℕ 100))
      else none

  unfoldable pub throughput_p50 : List HistoryEvent → Option F
  throughput_p50 events = percentile le (somes (map throughput_of events)) 50

  -- `(a, b) => b - a` and `(a, b) => a - b`, as tests that `a` may stand before `b`.
  abbrev pub is_faster : ModelStats F → ModelStats F → Bool
  is_faster a b = elim a.throughput_p50 [
    | none ↦ false
    | some s ↦ elim b.throughput_p50 [ none ↦ false | some t ↦ le t s ]
  ]

  unfoldable pub by_throughput : List (ModelStats F) → List (ModelStats F)
  by_throughput models = sort is_faster (filter (λ m. is_some m.throughput_p50) models)

module _ {F : Type 0} where
  abbrev pub is_shorter : ModelStats F → ModelStats F → Bool
  is_shorter a b = leb (or_zero a.duration_p50) (or_zero b.duration_p50)

  unfoldable pub by_duration : List (ModelStats F) → List (ModelStats F)
  by_duration models = sort is_shorter (filter (λ m. is_some m.duration_p50) models)

  unfoldable pub max_duration : List (ModelStats F) → ℕ
  max_duration rows = max_of (map (λ m. first_of m.duration_p95 m.duration_p50) rows)
