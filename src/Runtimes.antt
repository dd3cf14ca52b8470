-- ===== src/Runtimes.antt =====
-- The figures of each runtime in frontend/src/views/Runtimes.tsx, before their formats. The rows of the
-- runtimes in frontend/src/views/Overview.tsx have the same slots.
mod Tests
use relay_local.Prelude.{
  ℕ, ◌-◌, Bool, false, Option, none, some, List, String, map, filter, leb, length, if◌then◌else◌,
}
use relay_local.Prelude.Int.{ℤ, sub_ℕ}
use relay_local.Number.{Number}
use relay_local.Api.{HistoryEvent}
use relay_local.Api.Server.{Backend, AgentConfig}
use relay_local.Api.Names.{configured_in}
use relay_local.Stats.Events.{completed, request_events}
use relay_local.Stats.Price.{throughput_of}
use relay_local.Stats.Percentile.{percentile}
use relay_local.Stats.PerModel.{durations_of, somes}
use text.Mathlib.Text.{starts_with}
use Prim.Native.String.{◌++◌ as append}

-- `e.model?.startsWith(b.id + '/')`
abbrev pub is_of : Backend → Option String → Bool
is_of b none = false
is_of b (some model) = starts_with model (append b.id "/")

unfoldable pub own_events : List HistoryEvent → Backend → List HistoryEvent
own_events events b = filter (λ e. is_of b e.model) (request_events events)

unfoldable pub median_duration : List HistoryEvent → Backend → Option ℕ
median_duration events b = percentile leb (durations_of (completed (own_events events b))) 50

module _ {F : Type 0} ⦃number : Number F⦄ where
  open number use {le}

  unfoldable pub median_throughput : List HistoryEvent → Backend → Option F
  median_throughput events b = percentile le (somes (map throughput_of (own_events events b))) 50

-- `b.capacity - b.available`
unfoldable pub slots_used : Backend → ℤ
slots_used b = sub_ℕ b.capacity b.available
