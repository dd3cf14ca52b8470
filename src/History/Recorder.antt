-- ===== src/History/Recorder.antt =====
-- Where the history comes from: `recordAttempt` of internal/dashboard/dashboard.go, with the live
-- figures of `usage`. The time that the store sets is an input, as is
-- how it prints a time.
pub mod Tracks
use relay_local.Prelude.{
  ℕ, ◌+◌, ◌/◌, Bool, true, false, not, ◌&&◌, ◌||◌, Option, none, some, List, [], ◌∷◌, ◌++◌, String,
  length, foldl, sum_by, filter, if◌then◌else◌, str_eq, is_some,
}
use relay_local.Prelude.Int.{ℤ}
use relay_local.Api.{lookup, or_zero}
use relay_local.Api.Server.{LiveUsage}
use relay_local.History.{Event, record_event}
use Prim.Native.String.{◌++◌ as append}

-- `usage` are the entries of the usage that the backend reported, none where it does not decode.
pub record AttemptEvent : Type 0 where
  pub attempt_id : String
  pub backend_id : String
  pub model : String
  pub kind : String
  pub code : String
  pub duration_ms : ℕ
  pub usage : List (String × ℕ)
  pub bytes : ℕ
  pub text_bytes : ℕ

pub record LiveAttempt : Type 0 where
  pub model : String
  pub bytes : ℕ
  pub text_bytes : ℕ

-- The map `active`, with a key once at most, and the store, or none where it could not be opened.
pub record Managed : Type 0 where
  pub active : List (String × LiveAttempt)
  pub history : Option (List (String × Event))

abbrev pub delete : String → List (String × LiveAttempt) → List (String × LiveAttempt)
delete id = filter λ a. not (str_eq a.0 id)

-- An assignment to an element of the map.
abbrev pub put : String → LiveAttempt → List (String × LiveAttempt) → List (String × LiveAttempt)
put id a active = (id, a) ∷ delete id active

abbrev pub grow : AttemptEvent → LiveAttempt → LiveAttempt
grow e a = record a { bytes = a.bytes + e.bytes; text_bytes = a.text_bytes + e.text_bytes }

abbrev pub grow_found :
    AttemptEvent → Option LiveAttempt → List (String × LiveAttempt) → List (String × LiveAttempt)
grow_found e none active = active
grow_found e (some a) active = put e.attempt_id (grow e a) active

abbrev pub model_key : AttemptEvent → String
model_key e = append e.backend_id (append "/" e.model)

unfoldable pub event_of : ℤ → AttemptEvent → Event
event_of now e =
    let input = lookup e.usage "prompt_tokens" in
    let output = lookup e.usage "completion_tokens" in
    let total = lookup e.usage "total_tokens" in
    record {
      time = now;
      kind = "request";
      model = model_key e;
      status = if str_eq e.kind "response_end" && str_eq e.code "" then "completed" else "failed";
      duration_ms = e.duration_ms;
      input_tokens = or_zero input;
      output_tokens = or_zero output;
      total_tokens = or_zero total;
      usage_reported = is_some input || (is_some output || is_some total);
      usage_complete = is_some input && is_some output;
      total_reported = is_some total;
    }

abbrev pub record_in :
    (ℤ → String) → Event → Option (List (String × Event)) → Option (List (String × Event))
record_in print e none = none
record_in print e (some entries) = some (record_event print e entries)

unfoldable pub record_attempt : (ℤ → String) → ℤ → AttemptEvent → Managed → Managed
unfolding event_of
record_attempt print now e m =
    if str_eq e.kind "response_start"
    then record m {
      active =
          put e.attempt_id (record { model = model_key e; bytes = 0; text_bytes = 0 }) m.active;
    }
    else if str_eq e.kind "response_chunk"
    then record m { active = grow_found e (lookup m.active e.attempt_id) m.active }
    else record m {
      active = delete e.attempt_id m.active;
      history = record_in print (event_of now e) m.history;
    }

-- The live part of the answer of `usage`.
unfoldable pub live_usage : Managed → LiveUsage
live_usage m = record {
  requests = length m.active;
  bytes = sum_by (λ (a : String × LiveAttempt). a.1.bytes) m.active;
  output_tokens_estimate = sum_by (λ (a : String × LiveAttempt). a.1.text_bytes) m.active / 4;
}
