-- ===== src/History/Tests.antt =====
-- A history of three requests, and the theorems there.
use relay_local.Prelude.{
  ◌+◌, ◌≡◌, refl, true, false, some, none, Option, [], ◌∷◌, String, map, length, filter, sum_by,
  List, if◌then◌else◌,
}
use relay_local.Prelude.Int.{ℤ, pos, leb_ℤ}
use relay_local.Api.{lookup}
use relay_local.Stats.Events
use relay_local.Stats.Events.{request_events, completed}
use relay_local.History.{Event, is_skipped, add_outcome, add_usage, summary}
use relay_local.History.Agreement.{sent, decoded, summary-agrees}
use relay_local.History.Recorder.{AttemptEvent, Managed, event_of, record_attempt, live_usage}
use relay_local.History.Recorder.Tracks.{
  follow_all, is_of, record_all, recorded, entry, entry_after, record_all-Tracks,
}

abbrev first : Event
first = record {
  time = pos 1000;
  kind = "request";
  model = "gpu/llama";
  status = "completed";
  duration_ms = 900;
  input_tokens = 12;
  output_tokens = 30;
  total_tokens = 50;
  usage_reported = true;
  usage_complete = true;
  total_reported = true;
}

abbrev entries : List (Option Event)
entries =
    some first
    ∷ none
    ∷ some (record first { time = pos 3000; status = "failed"; total_reported = false })
    ∷ some (record first { kind = "start" })
    ∷ []

test-summary : (summary (some (pos 2000)) entries).total_tokens ≡ 42
unfolding summary is_skipped add_outcome add_usage
test-summary = refl

summary-agrees_example :
    let s = summary none entries in
    let es = request_events (map (sent λ _. "") (decoded entries)) in
    (s.requests ≡ length es)
    × (s.successful ≡ length (completed es))
    × (s.successful + s.failed ≡ s.requests)
    × (s.total_tokens ≡ sum_by Events.tokens_of es)
summary-agrees_example = summary-agrees (λ _. "") entries

abbrev attempt : String → AttemptEvent
attempt kind = record {
  attempt_id = "a1";
  backend_id = "gpu";
  model = "llama";
  kind = kind;
  code = "";
  duration_ms = 900;
  usage = ("prompt_tokens", 12) ∷ ("completion_tokens", 30) ∷ [];
  bytes = 40;
  text_bytes = 9;
}

abbrev events : List (ℤ × AttemptEvent)
events =
    (pos 1, attempt "response_start")
    ∷ (pos 2, record (attempt "response_start") { attempt_id = "a2" })
    ∷ (pos 3, attempt "response_chunk")
    ∷ (pos 4, record (attempt "error") { attempt_id = "a2" })
    ∷ (pos 5, attempt "response_chunk")
    ∷ []

abbrev idle : Managed
idle = record { active = []; history = some [] }

-- A clock that shows but the digits below.
abbrev print : ℤ → String
print t = if leb_ℤ t (pos 4) then "0" else "5"

test-live : (live_usage (record_all print events idle)).output_tokens_estimate ≡ 4
unfolding live_usage record_attempt event_of lookup
test-live = refl

record_all-Tracks_example :
    ((id : String)
      → lookup (record_all print events idle).active id
        ≡ follow_all (filter (is_of id) events) (lookup idle.active id))
    × ((key : String)
        → entry key (record_all print events idle).history
          ≡ entry_after print key (recorded events) idle.history)
record_all-Tracks_example = record_all-Tracks print events idle
