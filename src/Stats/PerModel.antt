-- ===== src/Stats/PerModel.antt =====
-- `perModel` of frontend/src/stats.ts: the history, grouped by model.
pub mod Groups
pub mod Rows
use relay_local.Prelude.{
  ℕ, ◌+◌, Bool, not, Option, none, some, List, [], ◌∷◌, ◌++◌, String, foldl, map, filter, length,
  ltb, leb, str_eq, if◌then◌else◌, sum_by,
}
use mathlib.Core.List.{filter_map}
use relay_local.Number.{Number}
use relay_local.Api.{HistoryEvent, Prices, lookup, or_zero}
use relay_local.Stats.Events.{completed, is_completed, tokens_of, has_text}
use relay_local.Stats.Price.{sum_revenue, throughput_of}
use relay_local.Stats.Percentile.{percentile}
use relay_local.Stats.Series.{add_input, add_output}

pub record ModelStats (F : Type 0) : Type 0 where
  pub model : String
  pub requests : ℕ
  pub failed : ℕ
  pub tokens : ℕ
  pub input_tokens : ℕ
  pub output_tokens : ℕ
  pub revenue : F
  pub throughput_p50 : Option F
  pub duration_p50 : Option ℕ
  pub duration_p95 : Option ℕ

-- A `Map` keeps its keys in the order of their first insertion.
abbrev pub Groups : Type 0
Groups = List (String × List HistoryEvent)

-- `groups.set(model, [...(groups.get(model) || []), event])`
unfoldable pub add_to_group : String → HistoryEvent → Groups → Groups
add_to_group model e [] = (model, e ∷ []) ∷ []
add_to_group model e ((name, group) ∷ groups) =
    let rest = add_to_group model e groups in
    if str_eq name model then (name, group ++ (e ∷ [])) ∷ groups else (name, group) ∷ rest

-- The body of the loop: an event with no model is passed over.
unfoldable pub group_event : Option String → HistoryEvent → Groups → Groups
unfolding add_to_group
group_event none e groups = groups
group_event (some model) e groups =
    if has_text (some model) then add_to_group model e groups else groups

unfoldable pub groups_of : List HistoryEvent → Groups
unfolding group_event
groups_of = foldl (λ groups e. group_event e.model e groups) []

-- `.map(e => e.duration_ms || 0).filter(d => d > 0)`
abbrev pub durations_of : List HistoryEvent → List ℕ
durations_of events = filter (ltb 0) (map (λ e. or_zero e.duration_ms) events)

-- `.map(throughputOf).filter(v => v !== null)`
abbrev pub somes {ℓ} : {A : Type ℓ} → List (Option A) → List A
somes [] = []
somes (none ∷ os) = somes os
somes (some a ∷ os) = a ∷ somes os

module _ {F : Type 0} ⦃number : Number F⦄ where
  model_stats : Prices → String × List HistoryEvent → ModelStats F
  model_stats prices (model, list) =
      let durations = durations_of (completed list) in
      record {
        model = model;
        requests = length list;
        failed = length (filter (λ e. not (is_completed e)) list);
        tokens = foldl (λ n e. n + tokens_of e) 0 list;
        input_tokens =
            foldl (λ n e. n + (if e.usage_reported then or_zero e.input_tokens else 0)) 0 list;
        output_tokens =
            foldl (λ n e. n + (if e.usage_reported then or_zero e.output_tokens else 0)) 0 list;
        revenue = sum_revenue list prices;
        throughput_p50 = percentile number.le (somes (map throughput_of list)) 50;
        duration_p50 = percentile leb durations 50;
        duration_p95 = percentile leb durations 95;
      }

  unfoldable pub per_model : List HistoryEvent → Prices → List (ModelStats F)
  unfolding model_stats
  per_model events prices = map (model_stats prices) (groups_of events)
