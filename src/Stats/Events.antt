-- ===== src/Stats/Events.antt =====
-- Per-event figures and the filters of frontend/src/stats.ts.
use relay_local.Prelude.{
  ℕ, ◌+◌, Bool, false, not, ◌&&◌, Option, none, some, List, String, str_eq, filter, if◌then◌else◌,
}
use relay_local.Prelude.Int.{ℤ, pos, ◌-ℤ◌, ltb_ℤ, leb_ℤ}
use relay_local.LocalTime.{LocalTime}
use relay_local.Api.{HistoryEvent, or_zero, is_text}

unfoldable pub request_events : List HistoryEvent → List HistoryEvent
request_events = filter λ e. str_eq e.kind "request"

abbrev pub is_completed : HistoryEvent → Bool
is_completed e = is_text e.status "completed"

unfoldable pub completed : List HistoryEvent → List HistoryEvent
completed = filter is_completed

-- `event.model`, read as a condition: neither missing nor empty.
abbrev pub has_text : Option String → Bool
has_text none = false
has_text (some s) = not (str_eq s "")

unfoldable pub tokens_of : HistoryEvent → ℕ
tokens_of e =
    if e.usage_reported
    then (if e.total_reported
        then or_zero e.total_tokens
        else or_zero e.input_tokens + or_zero e.output_tokens)
    else 0

-- `t >= since && (!until || t < until)`; NaN passes no comparison.
abbrev pub within : Option ℤ → ℤ → Option ℤ → Bool
within none since until = false
within (some t) since none = leb_ℤ since t
within (some t) since (some until) = leb_ℤ since t && ltb_ℤ t until

module _ (calendar : LocalTime) where
  unfoldable pub events_since : List HistoryEvent → ℤ → Option ℤ → List HistoryEvent
  events_since events since until = filter (λ e. within (calendar.parse e.time) since until) events

  -- `new Date(date.getFullYear(), date.getMonth(), date.getDate() - daysAgo)`
  unfoldable pub start_of_day : ℤ → ℕ → ℤ
  start_of_day now days_ago =
      calendar.day_start (calendar.full_year now) (calendar.month now)
        (pos (calendar.date now) -ℤ pos days_ago)
