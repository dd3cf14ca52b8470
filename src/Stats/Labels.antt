-- ===== src/Stats/Labels.antt =====
-- The labels of a series: `axisLabels`, `timeLabel` and `pad` of frontend/src/stats.ts, and the labels
-- of its buckets. The texts of dates are the locale's, so they are parameters.
pub mod Defined
use Prim.Native.String
use relay_local.Prelude.{
  ℕ, ◌/◌, Bool, Option, none, some, List, [], ◌∷◌, String, map, length, get_elem?, ltb,
  if◌then◌else◌,
}
use relay_local.Prelude.Int.{ℤ}
use relay_local.LocalTime.{LocalTime}
use relay_local.Stats.Buckets.{Range, quarter_hours, day_hours, week, month_days, year}

-- `toLocaleDateString` with a month, or a month and a day, in small letters; `getMinutes`; and
-- `String(n)`.
pub record Locale : Type 0 where
  pub month_name : ℤ → String
  pub day_name : ℤ → String
  pub minutes : ℤ → ℕ
  pub digits : ℕ → String

pub data BucketSize : Type 0 where
  quarter hour day month : BucketSize

unfoldable pub size_of : Range → BucketSize
size_of quarter_hours = quarter
size_of day_hours = hour
size_of year = month
size_of week = day
size_of month_days = day

-- `text.padStart(2, '0')`
unfoldable pub pad_start : String → String
pad_start String.[] = "00"
pad_start (String.◌∷◌ c String.[]) = String.◌++◌ "0" (String.◌∷◌ c String.[])
pad_start (String.◌∷◌ c (String.◌∷◌ d s)) = String.◌∷◌ c (String.◌∷◌ d s)

module _ (calendar : LocalTime) (locale : Locale) where
  abbrev pub pad : ℕ → String
  pad n = pad_start (locale.digits n)

  unfoldable pub time_label : ℤ → String
  time_label t = String.◌++◌ (pad (calendar.hours t)) (String.◌++◌ ":" (pad (locale.minutes t)))

  unfoldable pub bucket_label : BucketSize → ℤ → String
  bucket_label month t = locale.month_name t
  bucket_label day t = locale.day_name t
  bucket_label hour t = time_label t
  bucket_label quarter t = time_label t

  unfoldable pub bucket_labels : Range → List ℤ → List String
  bucket_labels range buckets = map (bucket_label (size_of range)) buckets

  abbrev pub hour_label : ℤ → String
  hour_label t = String.◌++◌ (pad (calendar.hours t)) ":00"

  -- The labels at the start and in the middle, for the first bucket and the middle one.
  unfoldable pub labels_at : Range → ℕ → ℤ → ℤ → String × String
  labels_at quarter_hours n first mid = (time_label first, time_label mid)
  labels_at day_hours n first mid = (hour_label first, hour_label mid)
  labels_at year n first mid =
      (locale.month_name first, if ltb 2 n then locale.month_name mid else "")
  labels_at week n first mid = (locale.day_name first, locale.day_name mid)
  labels_at month_days n first mid = (locale.day_name first, locale.day_name mid)

  -- A bucket that is not there is `undefined`, and asking it for its time throws: `none`. (The middle
  -- of at most two months is not asked, but it is there if the first is.)
  abbrev pub labels_of : Range → ℕ → Option ℤ → Option ℤ → Option (String × String)
  labels_of range n (some first) (some mid) = some (labels_at range n first mid)
  labels_of range n _ _ = none

  unfoldable pub axis_labels : Range → List ℤ → Option (String × String)
  axis_labels range buckets =
      let n = length buckets in labels_of range n (get_elem? buckets 0) (get_elem? buckets (n / 2))
