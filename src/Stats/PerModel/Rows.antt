-- ===== src/Stats/PerModel/Rows.antt =====
-- The rows of `perModel` against the history.
use relay_local.Prelude.{
  ◌+◌, ◌<◌, ◌≡◌, refl, subst, ◌∙◌, false, not, List, [], ◌∷◌, String, arith, map, filter, length,
  All, All-imp, All-map, leb, str_eq, sum_by, foldl-sum_by_zero,
}
use relay_local.Number.{Number}
use relay_local.Api.{HistoryEvent, Prices}
use relay_local.Stats.Events.{completed, is_completed, tokens_of, has_text}
use relay_local.Stats.Price.{sum_revenue, throughput_of}
use relay_local.Stats.Percentile.{percentile}
use relay_local.Stats.Series.Cells.{reported_input, reported_output}
use relay_local.Stats.PerModel.{
  ModelStats, Groups, groups_of, durations_of, somes, model_stats, per_model,
}
use relay_local.Stats.PerModel.Groups.{
  events_of_model, HasDistinctKeys, IsGroupOf, groups_of-IsGroupOf, groups_of-HasDistinctKeys,
  total-groups_of,
}

completed-split :
    (events : List HistoryEvent)
    → length (filter (λ e. not (is_completed e)) events) + length (completed events) ≡ length events
unfolding completed
completed-split [] = refl
completed-split (e ∷ events) = ground (arith, completed-split events)

module _ {F : Type 0} ⦃number : Number F⦄ (prices : Prices) where
  -- What a row says of the events of its model.
  pub record Describes (own : List HistoryEvent) (row : ModelStats F) : Type 0 where
    pub some_requests : 0 < row.requests
    pub requests : row.requests ≡ length own
    pub outcomes : row.failed + length (completed own) ≡ row.requests
    pub tokens : row.tokens ≡ sum_by tokens_of own
    pub input : row.input_tokens ≡ sum_by reported_input own
    pub output : row.output_tokens ≡ sum_by reported_output own
    pub revenue : row.revenue ≡ sum_revenue own prices
    pub throughput : row.throughput_p50 ≡ percentile number.le (somes (map throughput_of own)) 50
    pub p50 : row.duration_p50 ≡ percentile leb (durations_of (completed own)) 50
    pub p95 : row.duration_p95 ≡ percentile leb (durations_of (completed own)) 95

  model_stats-Describes_self :
      (model : String) (group : List HistoryEvent)
      → 0 < length group
      → Describes group (model_stats prices (model, group))
  unfolding model_stats
  model_stats-Describes_self model group pos = record {
    some_requests = pos;
    requests = refl;
    outcomes = completed-split group;
    tokens = foldl-sum_by_zero (λ n e. n + tokens_of e) tokens_of (λ n e. refl) group;
    input = foldl-sum_by_zero (λ n e. n + reported_input e) reported_input (λ n e. refl) group;
    output = foldl-sum_by_zero (λ n e. n + reported_output e) reported_output (λ n e. refl) group;
    revenue = refl;
    throughput = refl;
    p50 = refl;
    p95 = refl;
  }

  model_stats-Describes :
      (events : List HistoryEvent) (g : String × List HistoryEvent)
      → IsGroupOf events g
      → Describes (events_of_model events g.0) (model_stats prices g)
  model_stats-Describes events (model, group) (same, pos) =
      subst (λ own. Describes own (model_stats prices (model, group))) same
        (model_stats-Describes_self model group pos)

-- No two rows are of one model.
abbrev pub HasDistinctModels : {F : Type 0} → List (ModelStats F) → Type 0
HasDistinctModels [] = Unit
HasDistinctModels (row ∷ rows) =
    All (λ r. str_eq r.model row.model ≡ false) rows × HasDistinctModels rows

module _ (F : Type 0) ⦃number : Number F⦄ (events : List HistoryEvent) (prices : Prices) where
  map-HasDistinctModels :
      (groups : Groups)
      → HasDistinctKeys groups
      → HasDistinctModels (map (model_stats {F = F} prices) groups)
  unfolding model_stats
  map-HasDistinctModels [] d = tt
  map-HasDistinctModels ((k, l) ∷ groups) (n, d) = (
    All-map (λ r. str_eq r.model k ≡ false) (model_stats {F = F} prices) groups n,
    map-HasDistinctModels groups d,
  )

  total-map :
      (groups : Groups)
      → sum_by (λ row. row.requests) (map (model_stats {F = F} prices) groups)
        ≡ sum_by (λ g. length g.1) groups
  unfolding model_stats
  total-map [] = refl
  total-map (g ∷ groups) = omega (arith, total-map groups)

  -- Every row has a model of its own and at least one request, and describes exactly the events of
  -- that model: their number, the completed and the others adding up to it, their tokens, input and
  -- output, their revenue, and the percentiles of their throughputs and of the durations of the
  -- completed ones. The requests of all rows together are the events that name a model.
  pub per_model-partition :
      let rows = per_model {F = F} events prices in
      All (λ row. Describes {F = F} prices (events_of_model events row.model) row) rows
      × HasDistinctModels rows
      × (sum_by (λ row. row.requests) rows ≡ length (filter (λ e. has_text e.model) events))
  unfolding per_model model_stats
  per_model-partition = (
    All-map (λ row. Describes {F = F} prices (events_of_model events row.model) row)
        (model_stats {F = F} prices) (groups_of events)
        (All-imp _ (model_stats-Describes {F = F} prices events) (groups_of events)
          (groups_of-IsGroupOf events)),
    map-HasDistinctModels (groups_of events) (groups_of-HasDistinctKeys events),
    total-map (groups_of events) ∙ total-groups_of events,
  )
