-- ===== src/History.antt =====
-- The figures that an agent keeps of its requests: `Event`, `Summary`, `Store.Record` and
-- `Store.Summary` of internal/history/store.go. The database is a list: for `Summary` of its values,
-- `none` where one does not decode; for `Record` of keys with their values, each key once at most.
pub mod Figures
pub mod Agreement
pub mod Recorder
mod Tests
use relay_local.Prelude.{
  ℕ, ◌+◌, Bool, true, false, not, ◌&&◌, ◌||◌, Option, none, some, List, [], ◌∷◌, String, foldl,
  if◌then◌else◌, str_eq,
}
use relay_local.Prelude.Int.{ℤ, ltb_ℤ}
use Prim.Native.String.{◌++◌ as append}

-- Counts are never negative: the observer of the agent takes no others.
pub record Event : Type 0 where
  pub time : ℤ
  pub kind : String
  pub model : String
  pub status : String
  pub duration_ms : ℕ
  pub input_tokens : ℕ
  pub output_tokens : ℕ
  pub total_tokens : ℕ
  pub usage_reported : Bool
  pub usage_complete : Bool
  pub total_reported : Bool

-- The key of an event, with the time as `time.RFC3339Nano` prints it.
abbrev pub key_of : (ℤ → String) → Event → String
key_of print e = append (print e.time) (append "/" e.kind)

-- `Put`: an entry of the same key is overwritten.
abbrev pub put_entry : String → Event → List (String × Event) → List (String × Event)
put_entry key e [] = (key, e) ∷ []
put_entry key e ((k, old) ∷ entries) =
    let rest = put_entry key e entries in if str_eq k key then (k, e) ∷ entries else (k, old) ∷ rest

-- `Store.Record`, where the write succeeds.
unfoldable pub record_event : (ℤ → String) → Event → List (String × Event) → List (String × Event)
record_event print e entries = put_entry (key_of print e) e entries

pub record Summary : Type 0 where
  pub requests : ℕ
  pub successful : ℕ
  pub failed : ℕ
  pub input_tokens : ℕ
  pub output_tokens : ℕ
  pub total_tokens : ℕ
  pub usage_reported : Bool
  pub complete : Bool

-- `Summary{Complete: true}`
abbrev pub no_requests : Summary
no_requests = record {
  requests = 0;
  successful = 0;
  failed = 0;
  input_tokens = 0;
  output_tokens = 0;
  total_tokens = 0;
  usage_reported = false;
  complete = true;
}

-- `!since.IsZero() && event.Time.Before(since)`, where the zero time is none.
abbrev pub is_before : Option ℤ → ℤ → Bool
is_before none time = false
is_before (some since) time = ltb_ℤ time since

unfoldable pub is_skipped : Option ℤ → Event → Bool
is_skipped since e = not (str_eq e.kind "request") || is_before since e.time

abbrev pub is_completed : Event → Bool
is_completed e = str_eq e.status "completed"

unfoldable pub add_outcome : Event → Summary → Summary
add_outcome e s =
    if is_completed e
    then record s {
      successful = s.successful + 1;
      complete = if not e.usage_complete then false else s.complete;
    }
    else record s { failed = s.failed + 1 }

abbrev pub tokens_of : Event → ℕ
tokens_of e = if e.total_reported then e.total_tokens else e.input_tokens + e.output_tokens

unfoldable pub add_usage : Event → Summary → Summary
add_usage e s =
    if e.usage_reported
    then record s {
      usage_reported = true;
      input_tokens = s.input_tokens + e.input_tokens;
      output_tokens = s.output_tokens + e.output_tokens;
      total_tokens = s.total_tokens + tokens_of e;
    }
    else s

-- One pass over the entries.
abbrev pub add_entry : Option ℤ → Summary → Option Event → Summary
add_entry since s none = s
add_entry since s (some e) =
    if is_skipped since e
    then s
    else add_usage e (add_outcome e (record s { requests = s.requests + 1 }))

-- `Store.Summary` on an open store.
unfoldable pub summary : Option ℤ → List (Option Event) → Summary
summary since entries = foldl (add_entry since) no_requests entries
