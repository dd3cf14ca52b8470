-- ===== src/Schedule/Shape.antt =====
-- Every grid of the schedule has seven rows of 24 hours.
use relay_local.Prelude.{
  ℕ, suc, ◌+◌, ◌≡◌, refl, ap, ◌∙◌, String, replicate, array_from, true, Option, none, some, List,
  [], ◌∷◌, ◌==◌, ==_iff, length, All, Bool-cases, inl, inr,
}
use relay_local.Js.{
  Value, Values, undefined, null, bool, number, text, array, object, to_list, Json, Item,
  stored_value,
}
use relay_local.Schedule.{
  Grid, days, for_days, is_night_or_weekend, grid_or_default, nights_and_weekends, always_on,
  rows_of, grid_of, load_schedule, toggle_hour, toggle_from, toggle,
}

abbrev pub IsDay : List Value → Type 0
IsDay row = length row ≡ 24

pub record IsWeek (grid : Grid) : Type 0 where
  pub days : length grid ≡ 7
  pub hours : All IsDay grid

for_days-All :
    (d : ℕ) (names : List String) (f : ℕ → List Value)
    → ((day : ℕ) → IsDay (f day))
    → All IsDay (for_days d names f)
for_days-All d [] f h = tt
for_days-All d (name ∷ names) f h = (h d, for_days-All (d + 1) names f h)

pub nights_and_weekends-IsWeek : IsWeek nights_and_weekends
unfolding nights_and_weekends
nights_and_weekends-IsWeek = record {
  days = refl;
  hours =
      for_days-All 0 days (λ day. array_from 24 λ hour. bool (is_night_or_weekend day hour))
        λ day. refl;
}

pub always_on-IsWeek : IsWeek always_on
unfolding always_on
always_on-IsWeek = record {
  days = refl;
  hours = for_days-All 0 days (λ _. replicate 24 (bool true)) λ day. refl;
}

-- What the check lets through.
HasShape : List Value → Option Grid → Type 0
HasShape rows none = Unit
HasShape rows (some grid) = (length grid ≡ length rows) × All IsDay grid

HasShape-cons :
    (cells : Values) (rows : List Value) (o : Option Grid)
    → length (to_list cells) ≡ 24
    → HasShape rows o
    → HasShape
        (array cells ∷ rows)
        (elim o [ none ↦ none | some grid ↦ some (to_list cells ∷ grid) ])
unfolding HasShape
HasShape-cons cells rows none n h = tt
HasShape-cons cells rows (some grid) n (k, all) = (ap suc k, (n, all))

IsWeek-grid_or_default :
    (rows : List Value) (o : Option Grid)
    → length rows ≡ 7
    → HasShape rows o
    → IsWeek (grid_or_default o)
unfolding HasShape
IsWeek-grid_or_default rows none n h = nights_and_weekends-IsWeek
IsWeek-grid_or_default rows (some grid) n (k, all) = record { days = k ∙ n; hours = all }

rows_of-HasShape : (rows : List Value) → HasShape rows (rows_of rows)
unfolding rows_of HasShape
rows_of-HasShape [] = (refl, tt)
rows_of-HasShape (undefined ∷ rows) = tt
rows_of-HasShape (null ∷ rows) = tt
rows_of-HasShape (bool b ∷ rows) = tt
rows_of-HasShape (number n ∷ rows) = tt
rows_of-HasShape (text t ∷ rows) = tt
rows_of-HasShape (object ∷ rows) = tt
rows_of-HasShape (array cells ∷ rows) = elim (Bool-cases (length (to_list cells) == 24)) [
  | inl right ↦ rw right (
      HasShape-cons cells rows (rows_of rows) ((==_iff (length (to_list cells)) 24).0 right)
        (rows_of-HasShape rows))
  | inr wrong ↦ rw wrong tt
]

grid_of-IsWeek : (value : Option Value) → IsWeek (grid_of value)
unfolding grid_of
grid_of-IsWeek none = nights_and_weekends-IsWeek
grid_of-IsWeek (some undefined) = nights_and_weekends-IsWeek
grid_of-IsWeek (some null) = nights_and_weekends-IsWeek
grid_of-IsWeek (some (bool b)) = nights_and_weekends-IsWeek
grid_of-IsWeek (some (number n)) = nights_and_weekends-IsWeek
grid_of-IsWeek (some (text t)) = nights_and_weekends-IsWeek
grid_of-IsWeek (some object) = nights_and_weekends-IsWeek
grid_of-IsWeek (some (array rows)) = elim (Bool-cases (length (to_list rows) == 7)) [
  | inl right ↦ rw right (
      IsWeek-grid_or_default (to_list rows) (rows_of (to_list rows))
        ((==_iff (length (to_list rows)) 7).0 right) (rows_of-HasShape (to_list rows)))
  | inr wrong ↦ rw wrong nights_and_weekends-IsWeek
]

-- Whatever the storage holds or refuses, and however its text is parsed, the schedule that is loaded
-- has seven days of 24 hours.
pub load_schedule-IsWeek : (json : Json) (item : Item) → IsWeek (load_schedule json item)
unfolding load_schedule
load_schedule-IsWeek json item = grid_of-IsWeek (stored_value json item)

length-toggle_hour : (h hour : ℕ) (row : List Value) → length (toggle_hour h hour row) ≡ length row
unfolding toggle_hour
length-toggle_hour h hour [] = refl
length-toggle_hour h hour (on ∷ row) = ap suc (length-toggle_hour (h + 1) hour row)

length-toggle_from :
    (d day hour : ℕ) (grid : Grid) → length (toggle_from d day hour grid) ≡ length grid
unfolding toggle_from
length-toggle_from d day hour [] = refl
length-toggle_from d day hour (row ∷ grid) = ap suc (length-toggle_from (d + 1) day hour grid)

toggle_from-All :
    (d day hour : ℕ) (grid : Grid) → All IsDay grid → All IsDay (toggle_from d day hour grid)
unfolding toggle_from
toggle_from-All d day hour [] h = tt
toggle_from-All d day hour (row ∷ grid) (n, h) = (
  elim (Bool-cases (d == day)) [
    | inl same ↦ rw same (length-toggle_hour 0 hour row ∙ n)
    | inr other ↦ rw other n
  ],
  toggle_from-All (d + 1) day hour grid h,
)

pub toggle-IsWeek : (day hour : ℕ) (grid : Grid) → IsWeek grid → IsWeek (toggle day hour grid)
unfolding toggle
toggle-IsWeek day hour grid w = record {
  days = length-toggle_from 0 day hour grid ∙ w.days;
  hours = toggle_from-All 0 day hour grid w.hours;
}
