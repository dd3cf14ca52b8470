-- ===== src/LocalTime.antt =====
-- What the code asks of `Date`: parsing a time stamp, and the calendar of the local time zone. Both
-- depend on the machine, so they are parameters. An instant is the milliseconds of `getTime()`.
use relay_local.Prelude.{ℕ, ◌≤◌, String, Option}
use relay_local.Prelude.Int.{ℤ, pos, ◌≤ℤ◌}

pub record LocalTime : Type 0 where
  pub parse : String → Option ℤ  -- `new Date(text).getTime()`; `none` is NaN
  pub full_year : ℤ → ℤ
  pub month : ℤ → ℕ
  pub date : ℤ → ℕ
  pub hours : ℤ → ℕ
  pub day_start : ℤ → ℕ → ℤ → ℤ  -- `new Date(year, month, date)`, any integer for the date
  pub hour_start : ℤ → ℕ → ℕ → ℕ → ℤ  -- `new Date(year, month, date, hours)`

-- What the constructors of `Date` promise: a later date or month does not begin earlier, and an
-- instant is not before the start of its own hour, day and month.
pub record IsCalendar (c : LocalTime) : Type 0 where
  pub day_mono : (y : ℤ) (m : ℕ) (d e : ℤ) → d ≤ℤ e → c.day_start y m d ≤ℤ c.day_start y m e
  pub month_mono : (y : ℤ) (m n : ℕ) → m ≤ n → c.day_start y m (pos 1) ≤ℤ c.day_start y n (pos 1)
  pub hour_start_le : (t : ℤ) → c.hour_start (c.full_year t) (c.month t) (c.date t) (c.hours t) ≤ℤ t
  pub day_start_le : (t : ℤ) → c.day_start (c.full_year t) (c.month t) (pos (c.date t)) ≤ℤ t
  pub month_start_le : (t : ℤ) → c.day_start (c.full_year t) (c.month t) (pos 1) ≤ℤ t
