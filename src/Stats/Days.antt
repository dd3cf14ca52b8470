-- ===== src/Stats/Days.antt =====
-- `tokensPerDay` of frontend/src/stats.ts.
pub mod Distinct
pub mod Daily
use mathlib.Core.Option
use relay_local.Prelude.{
  ℕ, ◌+◌, ◌-◌, Option, none, some, List, [], ◌∷◌, foldl, array_from, if◌then◌else◌,
}
use relay_local.Prelude.Int.{ℤ, eq_ℤ}
use relay_local.LocalTime.{LocalTime}
use relay_local.Api.{HistoryEvent, or_zero}
use relay_local.Stats.Events.{start_of_day}

pub record DayTokens : Type 0 where
  pub date : ℤ
  pub input : ℕ
  pub output : ℕ

-- `bucket.input += …; bucket.output += …`
abbrev pub count_in : HistoryEvent → DayTokens → DayTokens
count_in e d = record d {
  input = d.input + or_zero e.input_tokens;
  output = d.output + or_zero e.output_tokens;
}

-- `result.find(r => r.date.getTime() === day)`, and the two sums in what it finds.
unfoldable pub add_to_day : ℤ → HistoryEvent → List DayTokens → List DayTokens
add_to_day day e [] = []
add_to_day day e (d ∷ ds) =
    let rest = add_to_day day e ds in if eq_ℤ d.date day then count_in e d ∷ ds else d ∷ rest

-- An event whose time does not parse has a day that is NaN, which no date equals.
unfoldable pub add_on : Option ℤ → HistoryEvent → List DayTokens → List DayTokens
add_on none e ds = ds
add_on (some day) e ds = add_to_day day e ds

module _ (calendar : LocalTime) where
  abbrev pub day_of : HistoryEvent → Option ℤ
  day_of e = Option.map (λ t. start_of_day calendar t 0) (calendar.parse e.time)

  abbrev pub no_tokens : ℤ → ℕ → ℕ → DayTokens
  no_tokens now days i = record {
    date = start_of_day calendar now (days - 1 - i);
    input = 0;
    output = 0;
  }

  unfoldable pub tokens_per_day : List HistoryEvent → ℕ → ℤ → List DayTokens
  tokens_per_day events days now =
      foldl (λ ds e. if e.usage_reported then add_on (day_of e) e ds else ds)
        (array_from days (no_tokens now days)) events
