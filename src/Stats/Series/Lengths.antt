-- ===== src/Stats/Series/Lengths.antt =====
-- The arrays of a series are as long as its buckets.
use relay_local.Prelude.{
  ℕ, ◌≡◌, ◌∙◌, Option, none, some, List, [], ◌∷◌, length, length-modify, length-replicate, foldl,
}
use relay_local.Prelude.Int.{ℤ}
use relay_local.Number.{Number}
use relay_local.LocalTime.{LocalTime}
use relay_local.Api.{HistoryEvent, Prices}
use relay_local.Stats.Buckets.{Range, buckets_for, find_bucket}
use relay_local.Stats.Series.{
  Totals, add_event, no_totals, collect, finish, series, add_tokens, add_input, add_output,
}

module _ (F : Type 0) ⦃number : Number F⦄ (calendar : LocalTime) where
  abbrev HasLengths : ℕ → Totals F → Type 0
  HasLengths n t =
      (length t.tokens ≡ n) × (length t.input_tokens ≡ n) × (length t.output_tokens ≡ n)

  add_event-HasLengths :
      (n : ℕ) (prices : Prices) (e : HistoryEvent) (i : Option ℕ) (t : Totals F)
      → HasLengths n t
      → HasLengths n (add_event prices e i t)
  unfolding add_event
  add_event-HasLengths n prices e none t h = h
  add_event-HasLengths n prices e (some i) t (a, b, c) = (
    length-modify t.tokens i (λ n. add_tokens n e) ∙ a,
    length-modify t.input_tokens i (λ n. add_input n e) ∙ b,
    length-modify t.output_tokens i (λ n. add_output n e) ∙ c,
  )

  foldl-HasLengths :
      (n : ℕ) (prices : Prices) (at : HistoryEvent → Option ℕ) (events : List HistoryEvent)
      (t : Totals F)
      → HasLengths n t
      → HasLengths n (foldl (λ t e. add_event prices e (at e) t) t events)
  foldl-HasLengths n prices at [] t h = h
  foldl-HasLengths n prices at (e ∷ events) t h =
      foldl-HasLengths n prices at events (add_event prices e (at e) t)
        (add_event-HasLengths n prices e (at e) t h)

  pub series-lengths :
      (events : List HistoryEvent) (prices : Prices) (range : Range) (now : ℤ)
      → let n = length (buckets_for calendar range now) in
        let s = series {F = F} calendar events prices range now in
        (length s.tokens ≡ n) × (length s.input_tokens ≡ n) × (length s.output_tokens ≡ n)
  unfolding series collect finish no_totals
  series-lengths events prices range now =
      let buckets = buckets_for calendar range now in
      let n = length buckets in
      foldl-HasLengths n prices (λ e. find_bucket (calendar.parse e.time) buckets) events
        (no_totals n) (length-replicate n 0, length-replicate n 0, length-replicate n 0)
