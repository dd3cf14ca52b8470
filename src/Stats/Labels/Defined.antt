-- ===== src/Stats/Labels/Defined.antt =====
-- The axis of every series has its labels.
use relay_local.Prelude.{
  ℕ, ◌+◌, ◌/◌, ◌<◌, ◌≡◌, refl, ◌∙◌, Option, some, length, length-map, length-from_index, get_elem?,
  get_elem?-lt, arith,
}
use relay_local.Prelude.Int.{ℤ}
use relay_local.LocalTime.{LocalTime}
use relay_local.Stats.Buckets.{
  Range, quarter_hours, day_hours, week, month_days, year, buckets_for, first_of_month,
}
use relay_local.Stats.Labels.{
  Locale, bucket_label, size_of, bucket_labels, labels_of, axis_labels, labels_at,
}

-- How many buckets a range has.
abbrev pub bucket_count : LocalTime → Range → ℤ → ℕ
bucket_count calendar quarter_hours now = 8
bucket_count calendar day_hours now = 24
bucket_count calendar week now = 7
bucket_count calendar month_days now = 30
bucket_count calendar year now = calendar.month now + 1

length-buckets_for :
    (calendar : LocalTime) (range : Range) (now : ℤ)
    → length (buckets_for calendar range now) ≡ bucket_count calendar range now
unfolding buckets_for
length-buckets_for calendar quarter_hours now = refl
length-buckets_for calendar day_hours now = refl
length-buckets_for calendar week now = refl
length-buckets_for calendar month_days now = refl
length-buckets_for calendar year now =
    length-from_index (calendar.month now + 1) 0 (first_of_month calendar now)

bucket_count_pos :
    (calendar : LocalTime) (range : Range) (now : ℤ) → 0 < bucket_count calendar range now
bucket_count_pos calendar quarter_hours now = omega arith
bucket_count_pos calendar day_hours now = omega arith
bucket_count_pos calendar week now = omega arith
bucket_count_pos calendar month_days now = omega arith
bucket_count_pos calendar year now = omega arith

labels_of-some :
    (calendar : LocalTime) (locale : Locale) (range : Range) (n : ℕ) (o p : Option ℤ)
    {first mid : ℤ}
    → o ≡ some first
    → p ≡ some mid
    → labels_of calendar locale range n o p ≡ some (labels_at calendar locale range n first mid)
labels_of-some calendar locale range n o p h k = rw (h, k) refl

-- For every range and moment, there is one label for each of the 8, 24, 7 or 30 buckets, or for each
-- month of the year up to this one, and the axis has its two labels: those of the first bucket and
-- of the middle one, both of which are there.
pub labels-defined :
    (calendar : LocalTime) (locale : Locale) (range : Range) (now : ℤ)
    → let buckets = buckets_for calendar range now in
      (length (bucket_labels calendar locale range buckets) ≡ bucket_count calendar range now)
      × (first : ℤ) × (mid : ℤ) × (get_elem? buckets 0 ≡ some first)
      × (get_elem? buckets (length buckets / 2) ≡ some mid)
      × (axis_labels calendar locale range buckets
          ≡ some (labels_at calendar locale range (length buckets) first mid))
unfolding bucket_labels axis_labels
labels-defined calendar locale range now =
    let buckets = buckets_for calendar range now in
    let n = length-buckets_for calendar range now in
    let pos = bucket_count_pos calendar range now in
    let (first, at_first) = get_elem?-lt buckets 0 (omega (arith, n, pos)) in
    let (mid, at_mid) = get_elem?-lt buckets (length buckets / 2) (omega (arith, n, pos)) in
    (
      length-map (bucket_label calendar locale (size_of range)) buckets ∙ n,
      first,
      mid,
      at_first,
      at_mid,
      labels_of-some calendar locale range (length buckets) (get_elem? buckets 0)
          (get_elem? buckets (length buckets / 2)) at_first at_mid,
    )
