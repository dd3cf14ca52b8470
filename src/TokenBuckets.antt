-- ===== src/TokenBuckets.antt =====
-- The bars of frontend/src/views/TokenBuckets.tsx, which the overview and the usage view share.
pub mod Total
pub mod Bars
mod Tests
use relay_local.Prelude.{
  ℕ, ◌+◌, Bool, false, Option, none, some, List, [], ◌∷◌, length, ltb, if◌then◌else◌, ◌==◌,
}
use relay_local.Api.Server.{LiveUsage}
use relay_local.Stats.Series.{Series}

-- `live?.output_tokens_estimate || 0` and `(live?.requests || 0) > 0`.
abbrev pub live_tokens : Option LiveUsage → ℕ
live_tokens none = 0
live_tokens (some live) = live.output_tokens_estimate

abbrev pub is_live : Option LiveUsage → Bool
is_live none = false
is_live (some live) = ltb 0 live.requests

-- The values of the bars from the bucket `i` of `count` on; `none` is NaN, where an output is missing.
unfoldable pub values_from : ℕ → ℕ → ℕ → List ℕ → List ℕ → List (Option ℕ)
values_from count live i [] outputs = []
values_from count live i (input ∷ inputs) [] = none ∷ values_from count live (i + 1) inputs []
values_from count live i (input ∷ inputs) (output ∷ outputs) =
    some (input + output + (if i + 1 == count then live else 0))
    ∷ values_from count live (i + 1) inputs outputs

unfoldable pub bar_values : {F : Type 0} → Series F → Option LiveUsage → List (Option ℕ)
bar_values chart live =
    values_from (length chart.tokens) (live_tokens live) 0 chart.input_tokens chart.output_tokens
