-- ===== src/Stats/Series/Cells.antt =====
-- Each cell of each array of `series` against the events of its own time window.
use relay_local.Prelude.{
  ℕ, zero, suc, ◌+◌, ◌≡◌, refl, ap, ◌∙◌, Option, none, some, List, [], ◌∷◌, arith, foldl, filter,
  get_elem?, length, sum_by, filter-congr, foldl-sum_by_zero, foldl-filter, get_elem?-replicate,
  lt_of_get_elem?, replicate, if◌then◌else◌,
}
use relay_local.Prelude.Int.{ℤ}
use relay_local.Number.{Number}
use relay_local.LocalTime.{LocalTime, IsCalendar}
use relay_local.Api.{HistoryEvent, Prices, or_zero}
use relay_local.Stats.Events.{events_since, tokens_of}
use relay_local.Stats.Price.{nought, sum_revenue}
use relay_local.Stats.Buckets.{Range, buckets_for, find_bucket}
use relay_local.Stats.Buckets.Order.{IsAscending, buckets_for-IsAscending}
use relay_local.Stats.Buckets.Windows.{is_at-find_bucket}
use relay_local.Stats.Series.{
  Totals, add_tokens, add_input, add_output, add_throughput, add_revenue, add_seconds,
  has_throughput, add_event, no_totals, rates, collect, series,
}
use relay_local.Stats.Series.Accumulate.{update, part-foldl, get_elem?-accumulate}

-- What a request reports, and nothing where it reports no usage.
abbrev pub reported_input : HistoryEvent → ℕ
reported_input e = if e.usage_reported then or_zero e.input_tokens else 0

abbrev pub reported_output : HistoryEvent → ℕ
reported_output e = if e.usage_reported then or_zero e.output_tokens else 0

-- The events between the start of a bucket and the next one's, or without end in the last bucket.
abbrev pub window : LocalTime → List HistoryEvent → List ℤ → ℕ → ℤ → List HistoryEvent
window calendar events buckets j b = events_since calendar events b (get_elem? buckets (suc j))

module _ {F : Type 0} ⦃number : Number F⦄ where
  open number use {of_ℕ, add, div, lt}

  -- The time that the requests took, in seconds, added up in order.
  abbrev pub sum_seconds : List HistoryEvent → F
  sum_seconds = foldl (λ x e. add x (div (of_ℕ (or_zero e.duration_ms)) (of_ℕ 1000))) nought

  -- Output tokens over seconds, of the requests that completed with both reported.
  abbrev pub overall_throughput : List HistoryEvent → F
  overall_throughput events =
      let timed = filter has_throughput events in
      if lt nought (sum_seconds timed)
      then div (of_ℕ (sum_by (λ e. or_zero e.output_tokens) timed)) (sum_seconds timed)
      else nought

  get_elem?-rates :
      (ns : List ℕ) (ss : List F) (j : ℕ) {n : ℕ} {s : F}
      → get_elem? ns j ≡ some n
      → get_elem? ss j ≡ some s
      → get_elem? (rates ns ss) j ≡ some (if lt nought s then div (of_ℕ n) s else nought)
  unfolding rates
  get_elem?-rates [] ss j p q = ground arith
  get_elem?-rates (n ∷ ns) [] j p q = ground arith
  get_elem?-rates (n ∷ ns) (s ∷ ss) zero p q = ground arith
  get_elem?-rates (n ∷ ns) (s ∷ ss) (suc j) p q = get_elem?-rates ns ss j p q

  module _ (calendar : LocalTime) (events : List HistoryEvent) (prices : Prices) where
    -- One cell of one array.
    get_elem?-part {ℓ} :
        {X : Type ℓ} (part : Totals F → List X) (f : X → HistoryEvent → X) (x : X)
        → ((e : HistoryEvent) (i : Option ℕ) (t : Totals F)
            → part (add_event prices e i t) ≡ update f i e (part t))
        → ((n : ℕ) → part (no_totals n) ≡ replicate n x)
        → (buckets : List ℤ) (j : ℕ) {b : ℤ} → IsAscending buckets
        → get_elem? buckets j ≡ some b
        → get_elem? (part (collect calendar events prices buckets)) j
          ≡ some (foldl f x (window calendar events buckets j b))
    unfolding collect events_since
    get_elem?-part part f x step start buckets j up at_j =
        let at : HistoryEvent → Option ℕ = λ e. find_bucket (calendar.parse e.time) buckets in
        let n : ℕ = length buckets in
        let from : get_elem? (part (no_totals n)) j ≡ some x =
          rw (start n) (get_elem?-replicate n j x (lt_of_get_elem? buckets j at_j)) in
        ap (λ xs. get_elem? xs j)
          (part-foldl part f at (λ t e. add_event prices e (at e) t) (λ t e. step e (at e) t) events
            (no_totals n))
        ∙ get_elem?-accumulate f at events (part (no_totals n)) j from
        ∙ ap (λ own. some (foldl f x own))
            (filter-congr _ _ (λ e. is_at-find_bucket (calendar.parse e.time) buckets j up at_j)
              events)

    -- The loop against sums over the window, all arrays at once.
    collect-cells :
        (buckets : List ℤ) (j : ℕ) {b : ℤ}
        → IsAscending buckets
        → get_elem? buckets j ≡ some b
        → let own = window calendar events buckets j b in
          let t = collect {F = F} calendar events prices buckets in
          (get_elem? t.revenue j ≡ some (sum_revenue own prices))
          × (get_elem? t.tokens j ≡ some (sum_by tokens_of own))
          × (get_elem? t.input_tokens j ≡ some (sum_by reported_input own))
          × (get_elem? t.output_tokens j ≡ some (sum_by reported_output own))
          × (get_elem? t.throughput_tokens j
              ≡ some (sum_by (λ e. or_zero e.output_tokens) (filter has_throughput own)))
          × (get_elem? t.seconds j ≡ some (sum_seconds (filter has_throughput own)))
    unfolding add_event no_totals sum_revenue
    collect-cells buckets j {b} up at_j =
        let own = window calendar events buckets j b in
        (
          get_elem?-part (λ t. t.revenue) (add_revenue prices) nought
              (λ e. elim [ none ↦ λ t. refl | some i ↦ λ t. refl ]) (λ n. refl) buckets j up at_j,
          get_elem?-part (λ t. t.tokens) add_tokens 0
                (λ e. elim [ none ↦ λ t. refl | some i ↦ λ t. refl ]) (λ n. refl) buckets j up at_j
              ∙ ap some (foldl-sum_by_zero add_tokens tokens_of (λ n e. refl) own),
          get_elem?-part (λ t. t.input_tokens) add_input 0
                (λ e. elim [ none ↦ λ t. refl | some i ↦ λ t. refl ]) (λ n. refl) buckets j up at_j
              ∙ ap some (foldl-sum_by_zero add_input reported_input (λ n e. ground arith) own),
          get_elem?-part (λ t. t.output_tokens) add_output 0
                (λ e. elim [ none ↦ λ t. refl | some i ↦ λ t. refl ]) (λ n. refl) buckets j up at_j
              ∙ ap some (foldl-sum_by_zero add_output reported_output (λ n e. ground arith) own),
          get_elem?-part (λ t. t.throughput_tokens) add_throughput 0
                (λ e. elim [ none ↦ λ t. refl | some i ↦ λ t. refl ]) (λ n. refl) buckets j up at_j
              ∙ ap some (
                  foldl-filter has_throughput (λ n e. n + or_zero e.output_tokens) own 0
                  ∙ foldl-sum_by_zero (λ n e. n + or_zero e.output_tokens)
                      (λ e. or_zero e.output_tokens) (λ n e. refl) (filter has_throughput own)),
          get_elem?-part (λ t. t.seconds) add_seconds nought
                (λ e. elim [ none ↦ λ t. refl | some i ↦ λ t. refl ]) (λ n. refl) buckets j up at_j
              ∙ ap some (
                  foldl-filter has_throughput
                    (λ x e. add x (div (of_ℕ (or_zero e.duration_ms)) (of_ℕ 1000))) own nought),
        )

    -- For every range, and every bucket of it that begins at `b`: the revenue of the bucket is the
    -- revenue that `sumRevenue` finds in the events from `b` up to the next bucket (or without end,
    -- in the last one), added in the same order; its token counts are those of the same events; and
    -- its throughput is their output tokens over their seconds. This assumes no law of floating-point
    -- arithmetic, only that later dates do not begin earlier.
    pub series-window :
        IsCalendar calendar
        → (range : Range) (now : ℤ) (j : ℕ) {b : ℤ}
        → get_elem? (buckets_for calendar range now) j ≡ some b
        → let own = window calendar events (buckets_for calendar range now) j b in
          let s = series {F = F} calendar events prices range now in
          (get_elem? s.revenue j ≡ some (sum_revenue own prices))
          × (get_elem? s.tokens j ≡ some (sum_by tokens_of own))
          × (get_elem? s.input_tokens j ≡ some (sum_by reported_input own))
          × (get_elem? s.output_tokens j ≡ some (sum_by reported_output own))
          × (get_elem? s.throughput j ≡ some (overall_throughput own))
    unfolding series
    series-window laws range now j at_j =
        let buckets = buckets_for calendar range now in
        let (revenue, tokens, input, output, counts, seconds) =
          collect-cells buckets j (buckets_for-IsAscending laws range now) at_j in
        let t = collect {F = F} calendar events prices buckets in
        (
          revenue,
          tokens,
          input,
          output,
          get_elem?-rates t.throughput_tokens t.seconds j counts seconds,
        )
