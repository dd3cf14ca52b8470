-- ===== src/Schedule/Hours.antt =====
-- What a click on an hour changes: that cell, and the number of accepting hours.
use mathlib.Core.Option
use mathlib.Core.Option.{some_inj}
use relay_local.Prelude.{
  ℕ, zero, suc, ◌+◌, ◌<◌, ◌≡◌, refl, ap, subst, ◌∙◌, Bool, true, false, not, ◌&&◌, Option, none,
  some, List, [], ◌∷◌, if◌then◌else◌, ◌==◌, ==_iff, length, length-append, filter, filter-append,
  get_elem?, Bool-cases, inl, inr, arith,
}
use relay_local.Js.{Value, bool, is_true}
use relay_local.Schedule.{Grid, toggle_hour, toggle_from, toggle, flat, hours_of}

abbrev pub flip : Value → Value
flip v = bool (not (is_true v))

abbrev pub cell_of : Option (List Value) → ℕ → Option Value
cell_of none h = none
cell_of (some row) h = get_elem? row h

abbrev pub cell : Grid → ℕ → ℕ → Option Value
cell grid d h = cell_of (get_elem? grid d) h

get_elem?-toggle_hour :
    (h hour : ℕ) (row : List Value) (k : ℕ)
    → get_elem? (toggle_hour h hour row) k
      ≡ (if h + k == hour then Option.map flip (get_elem? row k) else get_elem? row k)
unfolding toggle_hour
get_elem?-toggle_hour h hour [] k = ground arith
get_elem?-toggle_hour h hour (on ∷ row) zero = ground arith
get_elem?-toggle_hour h hour (on ∷ row) (suc k) =
    ground (arith, get_elem?-toggle_hour (h + 1) hour row k)

cell-toggle_from :
    (d day hour : ℕ) (grid : Grid) (k h : ℕ)
    → cell (toggle_from d day hour grid) k h
      ≡ (if (d + k == day) && (h == hour) then Option.map flip (cell grid k h) else cell grid k h)
unfolding toggle_from
cell-toggle_from d day hour [] k h = ground arith
cell-toggle_from d day hour (row ∷ grid) zero h = ground (arith, get_elem?-toggle_hour 0 hour row h)
cell-toggle_from d day hour (row ∷ grid) (suc k) h =
    ground (arith, cell-toggle_from (d + 1) day hour grid k h)

toggle_hour-past : (h hour : ℕ) (row : List Value) → hour < h → toggle_hour h hour row ≡ row
unfolding toggle_hour
toggle_hour-past h hour [] p = refl
toggle_hour-past h hour (on ∷ row) p = ground (arith, toggle_hour-past (h + 1) hour row)

toggle_from-past : (d day hour : ℕ) (grid : Grid) → day < d → toggle_from d day hour grid ≡ grid
unfolding toggle_from
toggle_from-past d day hour [] p = refl
toggle_from-past d day hour (row ∷ grid) p = ground (arith, toggle_from-past (d + 1) day hour grid)

abbrev pub as_number : Bool → ℕ
as_number true = 1
as_number false = 0

abbrev pub on_hours : List Value → ℕ
on_hours row = length (filter is_true row)

on_hours-cons :
    (v : Value) (row : List Value) → on_hours (v ∷ row) ≡ as_number (is_true v) + on_hours row
on_hours-cons v row = ground arith

as_number-flip :
    (v : Value) (n : ℕ)
    → as_number (is_true (flip v)) + n + as_number (is_true v)
      ≡ as_number (is_true v) + n + as_number (not (is_true v))
as_number-flip v n = ground arith

on_hours-flip :
    (v : Value) (row : List Value)
    → on_hours (flip v ∷ row) + as_number (is_true v)
      ≡ on_hours (v ∷ row) + as_number (not (is_true v))
on_hours-flip v row =
    omega (arith, on_hours-cons (flip v) row, on_hours-cons v row, as_number-flip v (on_hours row))

on_hours-toggle_hour :
    (h hour : ℕ) (row : List Value) (k : ℕ) (v : Value)
    → h + k ≡ hour
    → get_elem? row k ≡ some v
    → on_hours (toggle_hour h hour row) + as_number (is_true v)
      ≡ on_hours row + as_number (not (is_true v))
unfolding toggle_hour
on_hours-toggle_hour h hour [] k v e f = ground arith
on_hours-toggle_hour h hour (on ∷ row) zero v e f =
    rw ((==_iff h hour).1 (omega arith), toggle_hour-past (h + 1) hour row (omega arith))
      (subst
        (λ v.
          on_hours (flip on ∷ row) + as_number (is_true v)
          ≡ on_hours (on ∷ row) + as_number (not (is_true v)))
        (some_inj.0 f) (on_hours-flip on row))
on_hours-toggle_hour h hour (on ∷ row) (suc k) v e f =
    let other : (h == hour) ≡ false = ground arith in
    rw other (
      omega (
        arith,
        on_hours-cons on (toggle_hour (h + 1) hour row),
        on_hours-cons on row,
        on_hours-toggle_hour (h + 1) hour row k v (omega arith) f,
      ))

zero_add : (n : ℕ) → 0 + n ≡ n
zero_add n = omega arith

hours_of-cons :
    (row : List Value) (grid : Grid) → hours_of (row ∷ grid) ≡ on_hours row + hours_of grid
unfolding hours_of
hours_of-cons row grid =
    ap length (filter-append is_true row (flat grid))
    ∙ length-append (filter is_true row) (filter is_true (flat grid))

hours_of-toggle_from :
    (d day hour : ℕ) (grid : Grid) (k : ℕ) (v : Value)
    → d + k ≡ day
    → cell grid k hour ≡ some v
    → hours_of (toggle_from d day hour grid) + as_number (is_true v)
      ≡ hours_of grid + as_number (not (is_true v))
unfolding toggle_from
hours_of-toggle_from d day hour [] k v e f = ground arith
hours_of-toggle_from d day hour (row ∷ grid) zero v e f =
    rw ((==_iff d day).1 (omega arith), toggle_from-past (d + 1) day hour grid (omega arith))
      (omega (
        arith,
        hours_of-cons (toggle_hour 0 hour row) grid,
        hours_of-cons row grid,
        on_hours-toggle_hour 0 hour row hour v (omega arith) f,
      ))
hours_of-toggle_from d day hour (row ∷ grid) (suc k) v e f =
    let other : (d == day) ≡ false = ground arith in
    rw other (
      omega (
        arith,
        hours_of-cons row (toggle_from (d + 1) day hour grid),
        hours_of-cons row grid,
        hours_of-toggle_from (d + 1) day hour grid k v (omega arith) f,
      ))

flip-cell :
    (day hour : ℕ) (grid : Grid) (d h : ℕ) (v : Value)
    → cell grid day hour ≡ some v
    → (if (d == day) && (h == hour) then Option.map flip (cell grid d h) else cell grid d h)
      ≡ (if (d == day) && (h == hour) then some (flip v) else cell grid d h)
flip-cell day hour grid d h v f = elim (Bool-cases ((d == day) && (h == hour))) [
  | inl hit ↦
      let (sd, sh) : (d ≡ day) × (h ≡ hour) = ground arith in
      let here : cell grid d h ≡ some v = rw (sd, sh) f in rw (hit, here) refl
  | inr other ↦ rw other refl
]

-- A click on an hour of the grid: that cell becomes `true` if it did not count as accepting, and
-- `false` if it did; every other cell stays; and the accepting hours, as the head of the page
-- counts them, become one more or one fewer.
pub toggle-changes :
    (day hour : ℕ) (grid : Grid) {v : Value} (d h : ℕ)
    → cell grid day hour ≡ some v
    → (cell (toggle day hour grid) d h
        ≡ (if (d == day) && (h == hour) then some (flip v) else cell grid d h))
      × (hours_of (toggle day hour grid) + as_number (is_true v)
          ≡ hours_of grid + as_number (not (is_true v)))
unfolding toggle
toggle-changes day hour grid {v} d h f = (
  cell-toggle_from 0 day hour grid d h
      ∙ ap
          (λ n.
            if (n == day) && (h == hour) then Option.map flip (cell grid d h) else cell grid d h)
          (zero_add d)
      ∙ flip-cell day hour grid d h v f,
  hours_of-toggle_from 0 day hour grid day v (omega arith) f,
)
