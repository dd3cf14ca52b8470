-- ===== src/Schedule/Reload.antt =====
-- A stored schedule is loaded again as it was.
use relay_local.Prelude.{
  ◌≡◌, refl, ap, ◌∙◌, some, List, [], ◌∷◌, map, length, length-map, ==_iff, All,
}
use relay_local.Js.{Value, array, from_list, Json, IsJson, IsPlain, ArePlain}
use relay_local.Js.Storage.{to_list-from_list, stored_value-stringify}
use relay_local.Schedule.{Grid, rows_of, grid_of, load_schedule, save, value_of}
use relay_local.Schedule.Shape.{IsDay, IsWeek}

ArePlain-from_list : (vs : List Value) → All IsPlain vs → ArePlain (from_list vs)
unfolding ArePlain IsPlain
ArePlain-from_list [] h = tt
ArePlain-from_list (v ∷ vs) (p, h) = (p, ArePlain-from_list vs h)

abbrev pub array_of : List Value → Value
array_of row = array (from_list row)

array_of-IsPlain : (grid : Grid) → All (All IsPlain) grid → All IsPlain (map array_of grid)
unfolding IsPlain
array_of-IsPlain [] h = tt
array_of-IsPlain (row ∷ grid) (p, h) = (ArePlain-from_list row p, array_of-IsPlain grid h)

rows_of-map : (grid : Grid) → All IsDay grid → rows_of (map array_of grid) ≡ some grid
unfolding rows_of
rows_of-map [] h = refl
rows_of-map (row ∷ grid) (n, h) =
    rw (to_list-from_list row, (==_iff (length row) 24).1 n, rows_of-map grid h)
      (ap (λ r. some (r ∷ grid)) (to_list-from_list row))

grid_of-value_of : (grid : Grid) → IsWeek grid → grid_of (some (value_of grid)) ≡ grid
unfolding grid_of
grid_of-value_of grid w =
    rw
      (
        to_list-from_list (map array_of grid),
        length-map array_of grid,
        (==_iff (length grid) 7).1 w.days,
        rows_of-map grid w.hours,
      )
      refl

-- Seven days of 24 plain cells that were stored are what a later visit to the page loads. The JSON
-- functions read plain values back as they were written, as no empty text.
pub load_schedule-save :
    (json : Json)
    → IsJson json
    → (grid : Grid) → IsWeek grid
    → All (All IsPlain) grid
    → load_schedule json (save json grid) ≡ grid
unfolding load_schedule IsPlain ArePlain
load_schedule-save json laws grid w plain =
    ap grid_of (
      stored_value-stringify json laws (value_of grid)
        (ArePlain-from_list (map array_of grid) (array_of-IsPlain grid plain)))
    ∙ grid_of-value_of grid w
