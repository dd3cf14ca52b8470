-- ===== src/Stats/Buckets/Current.antt =====
-- The present falls into the last bucket of every range.
use relay_local.Prelude.{
  ℕ, suc, ◌+◌, ◌*◌, ◌≤◌, ◌<◌, ◌≡◌, refl, subst, ◌∙◌, true, Option, none, some, arith, get_elem?,
  array_from, get_elem?-array_from, get_elem?-past, length-from_index,
}
use relay_local.Prelude.Int.{
  ℤ, pos, negsuc, pos_part, neg_part, ◌-ℤ◌, ◌≤ℤ◌, leb_ℤ, eq_of_parts, int_laws, *ℤ_pos_parts,
}
use relay_local.LocalTime.{LocalTime, IsCalendar}
use relay_local.Stats.Events.{start_of_day, within}
use relay_local.Stats.Buckets.{
  Range, quarter_hours, day_hours, week, month_days, year, floor_div, quarter_ms, hour_ms, steps_to,
  quarter_start, current_hour, days_to, first_of_month, buckets_for, find_bucket,
}
use relay_local.Stats.Buckets.Order.{buckets_for-IsAscending}
use relay_local.Stats.Buckets.Windows.{is_at, is_at-find_bucket}

-- How many buckets a range has after the first.
abbrev pub last_index : LocalTime → Range → ℤ → ℕ
last_index calendar quarter_hours now = 7
last_index calendar day_hours now = 23
last_index calendar week now = 6
last_index calendar month_days now = 29
last_index calendar year now = calendar.month now

-- A quarter of an hour begins at most 15 minutes before the present.
floor_div_bounds :
    (t : ℤ)
    → (pos_part (floor_div t quarter_ms) * quarter_ms + neg_part t
        ≤ pos_part t + neg_part (floor_div t quarter_ms) * quarter_ms)
      × (pos_part t + neg_part (floor_div t quarter_ms) * quarter_ms
          < pos_part (floor_div t quarter_ms) * quarter_ms + neg_part t + quarter_ms)
unfolding floor_div
floor_div_bounds (pos n) = omega arith
floor_div_bounds (negsuc n) = omega arith

leb_ℤ_of_le : (a b : ℤ) → a ≤ℤ b → leb_ℤ a b ≡ true
leb_ℤ_of_le a b h = ground arith

eq_of_is_at : (o : Option ℕ) (j : ℕ) → is_at o j ≡ true → o ≡ some j
eq_of_is_at none j h = cc
eq_of_is_at (some i) j h = ground arith

module _ {calendar : LocalTime} (laws : IsCalendar calendar) where
  start_of_day-le : (now : ℤ) → start_of_day calendar now 0 ≤ℤ now
  unfolding start_of_day
  start_of_day-le now =
      let date = pos (calendar.date now) in
      subst (λ d. calendar.day_start (calendar.full_year now) (calendar.month now) d ≤ℤ now)
        (eq_of_parts date (date -ℤ pos 0) (omega int_laws)) (laws.day_start_le now)

  -- The last bucket begins at the present or before.
  last_bucket :
      (range : Range) (now : ℤ)
      → (b : ℤ) × (get_elem? (buckets_for calendar range now) (last_index calendar range now)
          ≡ some b)
        × (get_elem? (buckets_for calendar range now) (suc (last_index calendar range now)) ≡ none)
        × (b ≤ℤ now)
  unfolding buckets_for
  last_bucket quarter_hours now = (
    steps_to (quarter_start now) 7 quarter_ms 7,
    refl,
    refl,
    omega (int_laws, *ℤ_pos_parts (floor_div now quarter_ms) quarter_ms, floor_div_bounds now),
  )
  last_bucket day_hours now = (
    steps_to (current_hour calendar now) 23 hour_ms 23,
    refl,
    refl,
    omega (int_laws, laws.hour_start_le now),
  )
  last_bucket week now = (days_to calendar now 6 6, refl, refl, start_of_day-le now)
  last_bucket month_days now = (days_to calendar now 29 29, refl, refl, start_of_day-le now)
  last_bucket year now = (
    first_of_month calendar now (calendar.month now),
    get_elem?-array_from (calendar.month now + 1) (calendar.month now) (first_of_month calendar now)
        (omega arith),
    get_elem?-past (array_from (calendar.month now + 1) (first_of_month calendar now))
        (suc (calendar.month now))
        (omega (arith, length-from_index (calendar.month now + 1) 0 (first_of_month calendar now))),
    laws.month_start_le now,
  )

  -- For every range, an event of this moment is put into the last bucket, where later dates do not
  -- begin earlier and no instant is before its own hour, day and month.
  pub find_bucket-now :
      (range : Range) (now : ℤ)
      → find_bucket (some now) (buckets_for calendar range now)
        ≡ some (last_index calendar range now)
  find_bucket-now range now =
      let buckets = buckets_for calendar range now in
      let last = last_index calendar range now in
      let (b, at_last, end, begun) = last_bucket range now in
      let own =
        is_at-find_bucket (some now) buckets last (buckets_for-IsAscending laws range now)
          at_last in
      let held : within (some now) b (get_elem? buckets (suc last)) ≡ true =
        rw end (leb_ℤ_of_le b now begun) in
      eq_of_is_at (find_bucket (some now) buckets) last (own ∙ held)
