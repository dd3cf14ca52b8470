-- ===== src/Stats/Buckets/Order.antt =====
-- The buckets of every range stand in order of time.
use relay_local.Prelude.{ℕ, zero, suc, ◌+◌, ◌-◌, ◌*◌, ◌≤◌, List, [], ◌∷◌, arith, from_index, All}
use relay_local.Prelude.Int.{ℤ, pos, ◌-ℤ◌, ◌≤ℤ◌, int_laws}
use relay_local.LocalTime.{LocalTime, IsCalendar}
use relay_local.Stats.Events.{start_of_day}
use relay_local.Stats.Buckets.{
  Range, quarter_hours, day_hours, week, month_days, year, quarter_ms, hour_ms, steps_to,
  quarter_start, current_hour, days_to, first_of_month, buckets_for,
}

-- No bucket begins before an earlier one.
abbrev pub IsAscending : List ℤ → Type 0
IsAscending [] = Unit
IsAscending (b ∷ bs) = All (λ c. b ≤ℤ c) bs × IsAscending bs

abbrev IsMonotone : (ℕ → ℤ) → Type 0
IsMonotone f = (i j : ℕ) → i ≤ j → f i ≤ℤ f j

All-from_index :
    (f : ℕ → ℤ) (n i k : ℕ) → IsMonotone f → k ≤ i → All (λ c. f k ≤ℤ c) (from_index n i f)
All-from_index f zero i k mono h = tt
All-from_index f (suc n) i k mono h = (mono k i h, All-from_index f n (i + 1) k mono (omega arith))

from_index-IsAscending : (f : ℕ → ℤ) (n i : ℕ) → IsMonotone f → IsAscending (from_index n i f)
from_index-IsAscending f zero i mono = tt
from_index-IsAscending f (suc n) i mono =
    (All-from_index f n (i + 1) i mono (omega arith), from_index-IsAscending f n (i + 1) mono)

steps_to-IsMonotone : (t : ℤ) (last ms : ℕ) → IsMonotone (steps_to t last ms)
steps_to-IsMonotone t last ms i j h = steps ((last - i) * ms) ((last - j) * ms) (grind arith)
  where
    steps : (m n : ℕ) → n ≤ m → t -ℤ pos m ≤ℤ t -ℤ pos n
    steps m n h = omega int_laws

module _ {calendar : LocalTime} (laws : IsCalendar calendar) where
  days_to-IsMonotone : (now : ℤ) (last : ℕ) → IsMonotone (days_to calendar now last)
  unfolding start_of_day
  days_to-IsMonotone now last i j h =
      laws.day_mono (calendar.full_year now) (calendar.month now) _ _ (omega int_laws)

  -- No bucket of any range begins before an earlier one, where later dates do not begin earlier.
  pub buckets_for-IsAscending :
      (range : Range) (now : ℤ) → IsAscending (buckets_for calendar range now)
  unfolding buckets_for
  buckets_for-IsAscending quarter_hours now =
      from_index-IsAscending (steps_to (quarter_start now) 7 quarter_ms) 8 0
        (steps_to-IsMonotone (quarter_start now) 7 quarter_ms)
  buckets_for-IsAscending day_hours now =
      from_index-IsAscending (steps_to (current_hour calendar now) 23 hour_ms) 24 0
        (steps_to-IsMonotone (current_hour calendar now) 23 hour_ms)
  buckets_for-IsAscending week now =
      from_index-IsAscending (days_to calendar now 6) 7 0 (days_to-IsMonotone now 6)
  buckets_for-IsAscending month_days now =
      from_index-IsAscending (days_to calendar now 29) 30 0 (days_to-IsMonotone now 29)
  buckets_for-IsAscending year now =
      from_index-IsAscending (first_of_month calendar now) (calendar.month now + 1) 0
        (laws.month_mono (calendar.full_year now))
