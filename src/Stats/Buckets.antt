-- ===== src/Stats/Buckets.antt =====
-- The time buckets of the charts: `Range` and `bucketsFor` of frontend/src/stats.ts.
pub mod Order
pub mod Current
pub mod Windows
use relay_local.Prelude.{
  ℕ, suc, ◌+◌, ◌-◌, ◌*◌, ◌/◌, Option, none, some, List, [], ◌∷◌, get_elem?, array_from,
  if◌then◌else◌,
}
use relay_local.Prelude.Int.{ℤ, pos, negsuc, ◌-ℤ◌, ◌*ℤ◌}
use relay_local.LocalTime.{LocalTime}
use relay_local.Stats.Events.{start_of_day, within}
use mathlib.Core.Option

pub data Range : Type 0 where
  quarter_hours day_hours week month_days year : Range

-- `Math.floor(a / d)`, for a divisor that is not zero.
unfoldable pub floor_div : ℤ → ℕ → ℤ
floor_div (pos n) d = pos (n / d)
floor_div (negsuc n) d = negsuc (n / d)

abbrev pub quarter_ms : ℕ
quarter_ms = 900000

abbrev pub hour_ms : ℕ
hour_ms = 3600000

-- `i`-th of equal steps of `ms` that end, after `last` of them, at `current`.
abbrev pub steps_to : ℤ → ℕ → ℕ → ℕ → ℤ
steps_to current last ms i = current -ℤ pos ((last - i) * ms)

abbrev pub quarter_start : ℤ → ℤ
quarter_start now = floor_div now quarter_ms *ℤ pos quarter_ms

module _ (calendar : LocalTime) where
  open calendar use {full_year, month, date, hours, day_start, hour_start}

  abbrev pub current_hour : ℤ → ℤ
  current_hour now = hour_start (full_year now) (month now) (date now) (hours now)

  abbrev pub days_to : ℤ → ℕ → ℕ → ℤ
  days_to now last i = start_of_day calendar now (last - i)

  abbrev pub first_of_month : ℤ → ℕ → ℤ
  first_of_month now i = day_start (full_year now) i (pos 1)

  unfoldable pub buckets_for : Range → ℤ → List ℤ
  buckets_for quarter_hours now = array_from 8 (steps_to (quarter_start now) 7 quarter_ms)
  buckets_for day_hours now = array_from 24 (steps_to (current_hour now) 23 hour_ms)
  buckets_for week now = array_from 7 (days_to now 6)
  buckets_for month_days now = array_from 30 (days_to now 29)
  buckets_for year now = array_from (month now + 1) (first_of_month now)

-- `findIndex`: the first bucket whose window, up to the next bucket, holds the instant.
unfoldable pub find_bucket : Option ℤ → List ℤ → Option ℕ
find_bucket t [] = none
find_bucket t (b ∷ bs) =
    let later = Option.map suc (find_bucket t bs) in
    if within t b (get_elem? bs 0) then some 0 else later
