-- ===== src/Agent.antt =====
-- What an agent sends for a request: `execute` of internal/agent/agent.go. The attempt's events for the
-- page and the log are left out.
pub mod Terminal
pub mod Slots
pub mod Response
pub mod Attempt
pub mod Session
pub mod Life
pub mod Promises
mod Tests
use relay_local.Prelude.{
  ℕ, ◌+◌, Bool, true, false, not, ◌&&◌, ◌||◌, Option, none, some, List, [], ◌∷◌, ◌++◌, String,
  length, if◌then◌else◌, ltb, str_eq,
}
use relay_local.Prelude.Int.{ℤ, pos, ltb_ℤ, leb_ℤ}
use relay_local.Protocol.{
  Kind, Kind.response_start, Kind.response_chunk, Kind.response_end, Kind.error, Message,
  protocol_version,
}

-- `ctx.Err()` when the function returns.
pub data Ended : Type 0 where
  live deadline_exceeded canceled : Ended

pub data ReadError : Type 0 where
  eof broken : ReadError

-- One `Read` of the body: its bytes, its error, and whether the chunk is sent.
pub record Read : Type 0 where
  pub bytes : List ℕ
  pub err : Option ReadError
  pub sent : Bool

-- What the function meets: whether the start timer fired, whether `Chat` failed, its answer with the
-- media type of the header, whether the start is sent, the reads, and what the observer of the body
-- found in it.
pub record Exchange : Type 0 where
  pub start_expired : Bool
  pub chat_fails : Bool
  pub status : ℤ
  pub content_type : String
  pub start_sent : Bool
  pub reads : List Read
  pub ended : Ended
  pub usage : List ℕ
  pub done : Bool
  pub failed : Bool

-- `protocol.Message{Type: kind, AttemptID: id}`, with the version that `Peer.Send` sets.
abbrev pub blank : Kind → String → Message
blank kind id = record {
  version = protocol_version;
  kind = kind;
  host_id = "";
  agent_version = "";
  os = "";
  arch = "";
  backends = [];
  heartbeat_id = 0;
  request_id = "";
  attempt_id = id;
  backend_id = "";
  model = "";
  timeout_ms = pos 0;
  start_timeout_ms = pos 0;
  body = [];
  status = pos 0;
  content_type = "";
  seq = 0;
  bytes = [];
  code = "";
  retryable = false;
  usage = [];
}

abbrev pub start_of : String → ℤ → String → Message
start_of id status content_type = record (blank response_start id) {
  status = status;
  content_type = content_type;
}

abbrev pub chunk_of : String → ℕ → List ℕ → Message
chunk_of id seq bytes = record (blank response_chunk id) { seq = seq; bytes = bytes }

-- The named result before the deferred function: an error with a code, or the end.
abbrev pub failure : String → String → Bool → List ℕ → Message
failure id code retryable usage = record (blank error id) {
  code = code;
  retryable = retryable;
  usage = usage;
}

abbrev pub success : String → List ℕ → Message
success id usage = record (blank response_end id) { usage = usage }

-- The deferred function.
unfoldable pub concluded : Ended → Message → Message
concluded live m = m
concluded canceled m = record m { kind = error; code = "cancelled"; retryable = false }
concluded deadline_exceeded m = record m {
  kind = error;
  code = "deadline_exceeded";
  retryable = true;
}

-- The messages sent, without the last, and the last, which `session` sends.
pub record Sent : Type 0 where
  pub before : List Message
  pub terminal : Message

unfoldable pub at_end : String → Exchange → ReadError → Message
at_end id x broken = failure id "stream_interrupted" true x.usage
at_end id x eof =
    if str_eq x.content_type "text/event-stream"
      && (ltb_ℤ x.status (pos 300) && (not x.done || x.failed))
    then failure id "stream_interrupted" true x.usage
    else success id x.usage

abbrev pub prepend : Message → Option (List Message × Message) → Option (List Message × Message)
prepend m none = none
prepend m (some (ms, t)) = some (m ∷ ms, t)

abbrev pub after_read :
    String
    → Exchange
    → Option ReadError
    → Option (List Message × Message)
    → Option (List Message × Message)
after_read id x none rest = rest
after_read id x (some err) rest = some ([], at_end id x err)

-- The loop, with the number of chunks so far; none where no read ends the body.
unfoldable pub body_of : String → Exchange → ℕ → List Read → Option (List Message × Message)
body_of id x seq [] = none
body_of id x seq (r ∷ rs) =
    let more = body_of id x (seq + 1) rs in
    let same = body_of id x seq rs in
    if ltb 0 (length r.bytes)
    then if r.sent
      then prepend (chunk_of id (seq + 1) r.bytes) (after_read id x r.err more)
      else some ([], failure id "backend_failed" true [])
    else after_read id x r.err same

abbrev pub conclude : Ended → Option (List Message × Message) → Option Sent
conclude ended none = none
conclude ended (some (ms, t)) = some (record { before = ms; terminal = concluded ended t })

unfoldable pub answer_of : String → Exchange → Option (List Message × Message)
answer_of id x =
    if x.start_expired
    then some ([], failure id "start_timeout" true [])
    else if x.chat_fails
    then some ([], failure id "backend_failed" true [])
    else if leb_ℤ (pos 400) x.status
    then if x.start_sent
      then some (start_of id x.status "application/json" ∷ [], success id [])
      else some ([], failure id "backend_failed" true [])
    else if not (str_eq x.content_type "text/event-stream")
        && not (str_eq x.content_type "application/json")
    then some ([], failure id "invalid_backend_response" true [])
    else if ltb_ℤ x.status (pos 200) || ltb_ℤ (pos 599) x.status
    then some ([], failure id "invalid_backend_response" true [])
    else if x.start_sent
    then prepend (start_of id x.status x.content_type) (body_of id x 0 x.reads)
    else some ([], failure id "backend_failed" true [])

unfoldable pub execute : String → Exchange → Option Sent
execute id x = conclude x.ended (answer_of id x)
