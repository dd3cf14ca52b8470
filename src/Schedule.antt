-- ===== src/Schedule.antt =====
-- The weekly grid of accepting hours: frontend/src/views/Schedule.tsx, with the presets at the end of
-- frontend/src/stats.ts. A stored grid is checked for its shape only, so its cells are any values.
pub mod Shape
pub mod Hours
pub mod Reload
mod Tests
use relay_local.Prelude.{
  ℕ, ◌+◌, Bool, true, false, not, ◌&&◌, ◌||◌, Option, none, some, List, [], ◌∷◌, ◌++◌, String, map,
  if◌then◌else◌, ◌==◌, ltb, leb, length, filter, replicate, array_from, from_index,
}
use relay_local.Js.{
  Value, Values, undefined, null, bool, number, text, array, object, to_list, from_list, is_true,
  Json, Item, found, stored_value,
}

abbrev pub Grid : Type 0
Grid = List (List Value)

abbrev pub days : List String
days = "Mon" ∷ "Tue" ∷ "Wed" ∷ "Thu" ∷ "Fri" ∷ "Sat" ∷ "Sun" ∷ []

-- `DAYS.map((_, day) => f(day))`, from day `d` on.
abbrev pub for_days {ℓ} : {A : Type ℓ} → ℕ → List String → (ℕ → A) → List A
for_days d [] f = []
for_days d (_ ∷ names) f = f d ∷ for_days (d + 1) names f

abbrev pub is_night_or_weekend : ℕ → ℕ → Bool
is_night_or_weekend day hour = leb 5 day || ltb hour 8 || leb 19 hour

unfoldable pub nights_and_weekends : Grid
nights_and_weekends =
    for_days 0 days λ day. array_from 24 λ hour. bool (is_night_or_weekend day hour)

unfoldable pub always_on : Grid
always_on = for_days 0 days λ _. replicate 24 (bool true)

-- The rows of a stored grid, if each is an array of 24 cells.
unfoldable pub rows_of : List Value → Option Grid
rows_of [] = some []
rows_of (array cells ∷ rows) =
    let rest = rows_of rows in
    if length (to_list cells) == 24
    then elim rest [ none ↦ none | some grid ↦ some (to_list cells ∷ grid) ]
    else none
rows_of (_ ∷ rows) = none

abbrev pub grid_or_default : Option Grid → Grid
grid_or_default none = nights_and_weekends
grid_or_default (some grid) = grid

unfoldable pub grid_of : Option Value → Grid
grid_of (some (array rows)) =
    if length (to_list rows) == 7
    then grid_or_default (rows_of (to_list rows))
    else nights_and_weekends
grid_of _ = nights_and_weekends

unfoldable pub load_schedule : Json → Item → Grid
load_schedule json item = grid_of (stored_value json item)

-- `JSON.stringify(grid)`, as the effect stores it after each change.
abbrev pub value_of : Grid → Value
value_of grid = array (from_list (map (λ row. array (from_list row)) grid))

abbrev pub save : Json → Grid → Item
save json grid = found (json.stringify (value_of grid))

-- `row.map((on, h) => h === hour ? !on : on)`, from hour `h` on.
unfoldable pub toggle_hour : ℕ → ℕ → List Value → List Value
toggle_hour h hour [] = []
toggle_hour h hour (on ∷ row) =
    (if h == hour then bool (not (is_true on)) else on) ∷ toggle_hour (h + 1) hour row

unfoldable pub toggle_from : ℕ → ℕ → ℕ → Grid → Grid
toggle_from d day hour [] = []
toggle_from d day hour (row ∷ grid) =
    (if d == day then toggle_hour 0 hour row else row) ∷ toggle_from (d + 1) day hour grid

unfoldable pub toggle : ℕ → ℕ → Grid → Grid
toggle day hour grid = toggle_from 0 day hour grid

abbrev pub flat {ℓ} : {A : Type ℓ} → List (List A) → List A
flat [] = []
flat (xs ∷ xss) = xs ++ flat xss

-- `grid.flat().filter(Boolean).length`
unfoldable pub hours_of : Grid → ℕ
hours_of grid = length (filter is_true (flat grid))
