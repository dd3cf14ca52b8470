-- ===== src/Usage.antt =====
-- The figures of frontend/src/views/Usage.tsx, before their formats.
pub mod Rows
use relay_local.Prelude.{ℕ, Bool, Option, none, some, List, leb, if◌then◌else◌}
use relay_local.Prelude.Sort.{sort}
use relay_local.Number.{Number}
use relay_local.Api.{HistoryEvent, Prices}
use relay_local.Api.Server.{UsageSummary, LiveUsage}
use relay_local.Stats.Events.{request_events}
use relay_local.Stats.PerModel.{ModelStats, per_model}

-- A figure of a summary, or a dash where no usage was reported.
abbrev pub reported : UsageSummary → ℕ → Option ℕ
reported s n = if s.usage_reported then some n else none

unfoldable pub summary_tokens : UsageSummary → Option ℕ
summary_tokens s = reported s s.total_tokens

-- `live?.output_tokens_estimate || 0` and `live?.requests || 0`
abbrev pub live_figures : Option LiveUsage → ℕ × ℕ
live_figures none = (0, 0)
live_figures (some l) = (l.output_tokens_estimate, l.requests)

module _ {F : Type 0} where
  -- `(a, b) => b.tokens - a.tokens`, as a test that `a` may stand before `b`.
  abbrev pub uses_more : ModelStats F → ModelStats F → Bool
  uses_more a b = leb b.tokens a.tokens

-- The rows of the table.
unfoldable pub usage_rows :
    {F : Type 0} ⦃number : Number F⦄ → List HistoryEvent → Prices → List (ModelStats F)
usage_rows events prices = sort uses_more (per_model (request_events events) prices)
