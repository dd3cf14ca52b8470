-- ===== src/Stats/Days/Daily.antt =====
-- Each day has the tokens of its own events.

use relay_local.Prelude.{
  ℕ, zero, suc, ◌+◌, ◌-◌, ◌≤◌, ◌<◌, ◌≡◌, refl, sym, ap, ◌∙◌, Bool, true, false, List, [], ◌∷◌, map,
  foldl, filter, from_index, array_from, sum_by, All, if◌then◌else◌, arith,
}
use relay_local.Prelude.Int.{ℤ, pos, ◌-ℤ◌, eq_ℤ, ltb_ℤ, ltb_ℤ_of_parts, int_laws}
use relay_local.LocalTime.{LocalTime}
use relay_local.Api.{HistoryEvent, or_zero}
use relay_local.Stats.Events.{start_of_day}
use relay_local.Stats.Series.Cells.{reported_input, reported_output}
use relay_local.Stats.Days.{DayTokens, add_on, day_of, no_tokens, tokens_per_day}
use relay_local.Stats.Days.Distinct.{
  is_on, absorb, Differs, HasDistinctDates, map-HasDistinctDates, reported-map, map-map, map-same,
}

zero_add : (n : ℕ) → 0 + n ≡ n
zero_add n = omega arith

abbrev day_with : ℤ → ℕ → ℕ → DayTokens
day_with date n m = record { date = date; input = n; output = m }

day_with-congr :
    (date : ℤ) {n n' m m' : ℕ} → n ≡ n' → m ≡ m' → day_with date n m ≡ day_with date n' m'
day_with-congr date h k = rw (h, k) refl

added :
    (own reported : Bool) (date : ℤ) (n m a b : ℕ)
    → (if reported
        then (if own then day_with date (n + a) (m + b) else day_with date n m)
        else day_with date n m)
      ≡ day_with date
          (n + (if own then (if reported then a else 0) else 0))
          (m + (if own then (if reported then b else 0) else 0))
added true true date n m a b = refl
added false true date n m a b = day_with-congr date (omega arith) (omega arith)
added true false date n m a b = day_with-congr date (omega arith) (omega arith)
added false false date n m a b = day_with-congr date (omega arith) (omega arith)

eq_ℤ_of_lt : (a b : ℤ) → ltb_ℤ a b ≡ true → eq_ℤ b a ≡ false
eq_ℤ_of_lt a b h = ground arith

sum_by-filter_cons :
    (f : HistoryEvent → ℕ) (p : HistoryEvent → Bool) (e : HistoryEvent) (es : List HistoryEvent)
    → sum_by f (filter p (e ∷ es)) ≡ (if p e then f e else 0) + sum_by f (filter p es)
sum_by-filter_cons f p e es = ground arith

module _ (calendar : LocalTime) where
  -- One event at one day.
  step : HistoryEvent → DayTokens → DayTokens
  step e d = if e.usage_reported then absorb (day_of calendar e) e d else d

  step-date : (e : HistoryEvent) (d : DayTokens) → (step e d).date ≡ d.date
  unfolding step
  step-date e d = ground arith

  abbrev body : List DayTokens → HistoryEvent → List DayTokens
  body ds e = if e.usage_reported then add_on (day_of calendar e) e ds else ds

  body-map :
      (e : HistoryEvent) (ds : List DayTokens) → HasDistinctDates ds → body ds e ≡ map (step e) ds
  unfolding step
  body-map e ds h = reported-map e.usage_reported (day_of calendar e) e ds h

  foldl-map :
      (events : List HistoryEvent) (ds : List DayTokens)
      → HasDistinctDates ds
      → foldl body ds events ≡ map (λ d. foldl (λ d e. step e d) d events) ds
  foldl-map [] ds h = sym (map-same ds)
  foldl-map (e ∷ events) ds h =
      ap (λ ds. foldl body ds events) (body-map e ds h)
      ∙ foldl-map events (map (step e) ds) (map-HasDistinctDates (step e) (step-date e) ds h)
      ∙ map-map (step e) (λ d. foldl (λ d e. step e d) d events) ds

  abbrev pub own_events : List HistoryEvent → ℤ → List HistoryEvent
  own_events events date = filter (λ e. is_on (day_of calendar e) date) events

  abbrev is_own : ℤ → HistoryEvent → Bool
  is_own date e = is_on (day_of calendar e) date

  step-day_with :
      (e : HistoryEvent) (date : ℤ) (n m : ℕ)
      → step e (day_with date n m)
        ≡ day_with date
            (n + (if is_own date e then reported_input e else 0))
            (m + (if is_own date e then reported_output e else 0))
  unfolding step
  step-day_with e date n m =
      added (is_own date e) e.usage_reported date n m (or_zero e.input_tokens)
        (or_zero e.output_tokens)

  foldl-step :
      (events : List HistoryEvent) (date : ℤ) (n m : ℕ)
      → foldl (λ d e. step e d) (day_with date n m) events
        ≡ day_with date
            (n + sum_by reported_input (own_events events date))
            (m + sum_by reported_output (own_events events date))
  foldl-step [] date n m = day_with-congr date (omega arith) (omega arith)
  foldl-step (e ∷ events) date n m =
      ap (λ d. foldl (λ d e. step e d) d events) (step-day_with e date n m)
      ∙ foldl-step events date _ _
      ∙ day_with-congr date
          (omega (arith, sum_by-filter_cons reported_input (is_own date) e events))
          (omega (arith, sum_by-filter_cons reported_output (is_own date) e events))

  -- A later day begins strictly later, as the constructor of `Date` has it.
  abbrev pub IsStrict : Type 0
  IsStrict =
      (y : ℤ) (m : ℕ) (d e : ℤ)
      → ltb_ℤ d e ≡ true
      → ltb_ℤ (calendar.day_start y m d) (calendar.day_start y m e) ≡ true

  module _ (strict : IsStrict) (days : ℕ) (now : ℤ) where
    differs-no_tokens :
        (i j : ℕ)
        → i < j
        → j < days
        → eq_ℤ (no_tokens calendar now days j).date (no_tokens calendar now days i).date ≡ false
    unfolding start_of_day
    differs-no_tokens i j h k =
        let first = pos (calendar.date now) -ℤ pos (days - 1 - i) in
        let second = pos (calendar.date now) -ℤ pos (days - 1 - j) in
        eq_ℤ_of_lt (start_of_day calendar now (days - 1 - i))
          (start_of_day calendar now (days - 1 - j))
          (strict (calendar.full_year now) (calendar.month now) first second
            (ltb_ℤ_of_parts first second (omega int_laws)))

    from_index-Differs :
        (n i k : ℕ)
        → k < i
        → n + i ≤ days
        → All
            (Differs (no_tokens calendar now days k).date)
            (from_index n i (no_tokens calendar now days))
    from_index-Differs zero i k h b = tt
    from_index-Differs (suc n) i k h b = (
      differs-no_tokens k i h (omega arith),
      from_index-Differs n (i + 1) k (omega arith) (omega arith),
    )

    from_index-HasDistinctDates :
        (n i : ℕ) → n + i ≤ days → HasDistinctDates (from_index n i (no_tokens calendar now days))
    unfolding HasDistinctDates
    from_index-HasDistinctDates zero i b = tt
    from_index-HasDistinctDates (suc n) i b = (
      from_index-Differs n (i + 1) i (omega arith) (omega arith),
      from_index-HasDistinctDates n (i + 1) (omega arith),
    )

    abbrev pub day_figures : List HistoryEvent → ℕ → DayTokens
    day_figures events i =
        let date = start_of_day calendar now (days - 1 - i) in
        record {
          date = date;
          input = sum_by reported_input (own_events events date);
          output = sum_by reported_output (own_events events date);
        }

    map-from_index :
        (events : List HistoryEvent) (n i : ℕ)
        → map (λ d. foldl (λ d e. step e d) d events) (from_index n i (no_tokens calendar now days))
          ≡ from_index n i (day_figures events)
    map-from_index events zero i = refl
    map-from_index events (suc n) i =
        let date = start_of_day calendar now (days - 1 - i) in
        rw
          (
            foldl-step events date 0 0 ∙ day_with-congr date (zero_add _) (zero_add _),
            map-from_index events n (i + 1),
          )
          refl

    -- The chart of tokens per day: where a later date begins strictly later, there are as many days
    -- as were asked for, the last one being today, and each has the input and output tokens of the
    -- requests that report them and whose own day it is. A request whose time does not parse, or is
    -- of another day, is in none.
    pub tokens_per_day-figures :
        (events : List HistoryEvent)
        → tokens_per_day calendar events days now ≡ array_from days (day_figures events)
    unfolding tokens_per_day
    tokens_per_day-figures events =
        foldl-map events (array_from days (no_tokens calendar now days))
          (from_index-HasDistinctDates days 0 (omega arith))
        ∙ map-from_index events days 0
