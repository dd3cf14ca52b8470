-- ===== src/Stats/Series.antt =====
-- `series` of frontend/src/stats.ts: history summed into the buckets of a chart.
pub mod Accumulate
pub mod Cells
pub mod Conservation
pub mod Lengths
use relay_local.Prelude.{
  ℕ, ◌+◌, Bool, false, ◌&&◌, ◌||◌, Option, none, some, List, [], ◌∷◌, foldl, ltb, length, modify,
  replicate, if◌then◌else◌,
}
use relay_local.Prelude.Int.{ℤ}
use relay_local.Number.{Number}
use relay_local.LocalTime.{LocalTime}
use relay_local.Api.{HistoryEvent, Prices, or_zero}
use relay_local.Stats.Events.{tokens_of, is_completed}
use relay_local.Stats.Price.{nought, revenue_of, is_positive}
use relay_local.Stats.Buckets.{Range, buckets_for, find_bucket}

-- The arrays that the loop fills.
pub record Totals (F : Type 0) : Type 0 where
  pub revenue : List F
  pub tokens : List ℕ
  pub input_tokens : List ℕ
  pub output_tokens : List ℕ
  pub throughput_tokens : List ℕ
  pub seconds : List F

-- The labels, which depend on the buckets and the locale only, are in Stats/Labels.antt.
pub record Series (F : Type 0) : Type 0 where
  pub revenue : List F
  pub throughput : List F
  pub tokens : List ℕ
  pub input_tokens : List ℕ
  pub output_tokens : List ℕ
  pub has_data : Bool

abbrev pub any {ℓ} : {A : Type ℓ} → (A → Bool) → List A → Bool
any p [] = false
any p (x ∷ xs) = p x || any p xs

-- What one event adds to each array, at its bucket.
abbrev pub has_throughput : HistoryEvent → Bool
has_throughput e = is_completed e && is_positive e.output_tokens && is_positive e.duration_ms

abbrev pub add_tokens : ℕ → HistoryEvent → ℕ
add_tokens n e = n + tokens_of e

abbrev pub add_input : ℕ → HistoryEvent → ℕ
add_input n e = if e.usage_reported then n + or_zero e.input_tokens else n

abbrev pub add_output : ℕ → HistoryEvent → ℕ
add_output n e = if e.usage_reported then n + or_zero e.output_tokens else n

abbrev pub add_throughput : ℕ → HistoryEvent → ℕ
add_throughput n e = if has_throughput e then n + or_zero e.output_tokens else n

module _ {F : Type 0} ⦃number : Number F⦄ where
  open number use {of_ℕ, add, div, lt}

  abbrev pub add_revenue : Prices → F → HistoryEvent → F
  add_revenue prices x e = add x (revenue_of prices e)

  abbrev pub add_seconds : F → HistoryEvent → F
  add_seconds x e =
      if has_throughput e then add x (div (of_ℕ (or_zero e.duration_ms)) (of_ℕ 1000)) else x

  -- The body of the loop, once the bucket is known; `none` is `continue`.
  add_event : Prices → HistoryEvent → Option ℕ → Totals F → Totals F
  add_event prices e none t = t
  add_event prices e (some i) t = record {
    revenue = modify t.revenue i λ x. add_revenue prices x e;
    tokens = modify t.tokens i λ n. add_tokens n e;
    input_tokens = modify t.input_tokens i λ n. add_input n e;
    output_tokens = modify t.output_tokens i λ n. add_output n e;
    throughput_tokens = modify t.throughput_tokens i λ n. add_throughput n e;
    seconds = modify t.seconds i λ x. add_seconds x e;
  }

  no_totals : ℕ → Totals F
  no_totals n = record {
    revenue = replicate n nought;
    tokens = replicate n 0;
    input_tokens = replicate n 0;
    output_tokens = replicate n 0;
    throughput_tokens = replicate n 0;
    seconds = replicate n nought;
  }

  -- Tokens per second of each bucket, zero where no time was measured.
  unfoldable pub rates : List ℕ → List F → List F
  rates (n ∷ ns) (s ∷ ss) = (if lt nought s then div (of_ℕ n) s else nought) ∷ rates ns ss
  rates _ _ = []

  finish : Totals F → Series F
  finish t =
      let throughput = rates t.throughput_tokens t.seconds in
      record {
        revenue = t.revenue;
        throughput = throughput;
        tokens = t.tokens;
        input_tokens = t.input_tokens;
        output_tokens = t.output_tokens;
        has_data =
            any (lt nought) t.revenue
            || any (lt nought) throughput
            || any (ltb 0) t.tokens
            || any (ltb 0) t.input_tokens
            || any (ltb 0) t.output_tokens;
      }

  module _ (calendar : LocalTime) where
    collect : List HistoryEvent → Prices → List ℤ → Totals F
    unfolding add_event no_totals
    collect events prices buckets =
        foldl (λ t e. add_event prices e (find_bucket (calendar.parse e.time) buckets) t)
          (no_totals (length buckets)) events

    unfoldable pub series : List HistoryEvent → Prices → Range → ℤ → Series F
    unfolding collect finish
    series events prices range now = finish (collect events prices (buckets_for calendar range now))
