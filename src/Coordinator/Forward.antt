-- ===== src/Coordinator/Forward.antt =====
-- The answer to a client from one attempt: `forward` of internal/coordinator/chat.go. A run is a list
-- of what its `select` receives, one event for each round of the loop.
pub mod Reply
mod Messages
mod Events
pub mod Rounds
use relay_local.Prelude.{
  ℕ, ◌+◌, Bool, true, false, not, ◌&&◌, ◌||◌, Option, none, some, List, [], ◌∷◌, ◌++◌, String,
  length, if◌then◌else◌, str_eq,
}
use relay_local.Prelude.Int.{ℤ, pos, leb_ℤ, eq_ℤ}
use relay_local.Protocol.{
  Kind, Kind.response_start, Kind.response_chunk, Kind.response_end, Kind.error, Message, any,
}

-- `ctx.Err()`: nil, `context.DeadlineExceeded` or `context.Canceled`.
pub data Context : Type 0 where
  live deadline_exceeded canceled : Context

-- Each event has the state of the context in its round; `arrives` has whether `Write` and `Flush`
-- return no error, where they are called.
pub data Event : Type 0 where
  done : Context → Event
  start_expires : Context → Event
  fails : String → Context → Event
  arrives : Message → Bool → Context → Event

-- The calls on the client's `http.ResponseWriter`. `api_error` stands for the three of `apiError`,
-- `interrupted` for the text that ends a stream early.
pub data Write : Type 0 where
  api_error : ℤ → String → Write
  header : ℤ → String → Write
  body : List ℕ → Write
  interrupted : Write

-- What `forward` returns, or its panic with `http.ErrAbortHandler`.
pub data Outcome : Type 0 where
  returned : Bool → Outcome
  aborted : Outcome

-- The local variables, with the calls so far. `armed` says that `startExpired` is not nil.
pub record Forward : Type 0 where
  pub status : ℤ
  pub content_type : String
  pub committed : Bool
  pub armed : Bool
  pub writes : List Write

-- The variable `result` is "completed" or "failed".
pub record Finish : Type 0 where
  pub outcome : Outcome
  pub completed : Bool
  pub writes : List Write

pub data Round : Type 0 where
  goes_on : Forward → Round
  finished : Finish → Round

unfoldable pub transient : ℤ → Bool
transient status = any (
    eq_ℤ status (pos 408)
    ∷ eq_ℤ status (pos 429)
    ∷ eq_ℤ status (pos 500)
    ∷ eq_ℤ status (pos 502)
    ∷ eq_ℤ status (pos 503)
    ∷ eq_ℤ status (pos 504)
    ∷ [])

abbrev pub is_live : Context → Bool
is_live live = true
is_live _ = false

abbrev pub is_canceled : Context → Bool
is_canceled canceled = true
is_canceled _ = false

unfoldable pub stop : Outcome → List Write → Round
stop outcome writes = finished (record { outcome = outcome; completed = false; writes = writes })

abbrev pub gateway_status : String → ℤ
gateway_status code =
    if str_eq code "deadline_exceeded" || str_eq code "start_timeout" then pos 504 else pos 502

unfoldable pub fail : Bool → Bool → String → Bool → Context → Forward → Round
fail stream can_retry code retryable ctx s =
    if not s.committed
    then if can_retry && (retryable && is_live ctx)
      then stop (returned true) (s.writes)
      else if not (is_canceled ctx)
      then stop (returned false) (s.writes ++ (api_error (gateway_status code) code ∷ []))
      else stop (returned false) (s.writes)
    else if stream
    then stop (returned false) (s.writes ++ (interrupted ∷ []))
    else stop aborted (s.writes)

-- The codes that a client may see.
abbrev pub known_codes : List String
known_codes =
    "busy" ∷ "backend_unavailable" ∷ "model_not_allowed" ∷ "invalid_request" ∷ "start_timeout"
    ∷ "deadline_exceeded" ∷ "cancelled" ∷ "stream_interrupted" ∷ "invalid_backend_response" ∷ []

abbrev pub has_text : List String → String → Bool
has_text [] s = false
has_text (t ∷ ts) s = str_eq s t || has_text ts s

unfoldable pub observable_code : String → String
observable_code code = if has_text known_codes code then code else "backend_failed"

abbrev pub is_wrong : Bool → Message → Bool
is_wrong stream m = any (
    leb_ℤ (pos 300) m.status
    ∷ (stream && not (str_eq m.content_type "text/event-stream"))
    ∷ (not stream && not (str_eq m.content_type "application/json"))
    ∷ [])

abbrev pub headed : Message → Forward → Forward
headed m s = record s { status = m.status; content_type = m.content_type; armed = false }

unfoldable pub on_start : Bool → Bool → Message → Context → Forward → Round
on_start stream can_retry m ctx s =
    let started = record s { status = m.status } in
    if transient m.status && can_retry
    then stop (returned true) (s.writes)
    else if leb_ℤ (pos 400) m.status
    then stop (returned false) (s.writes ++ (api_error m.status "backend_rejected" ∷ []))
    else if is_wrong stream m
    then fail stream can_retry "invalid_backend_response" true ctx started
    else goes_on (headed m s)

unfoldable pub on_chunk : Bool → Bool → Message → Bool → Context → Forward → Round
on_chunk stream can_retry m sent ctx s =
    let head = if s.committed then [] else header s.status s.content_type ∷ [] in
    let writes = s.writes ++ (head ++ (body m.bytes ∷ [])) in
    if eq_ℤ s.status (pos 0)
    then fail stream can_retry "invalid_backend_response" false ctx s
    else if sent
    then goes_on (record s { committed = true; writes = writes })
    else stop (returned false) writes

unfoldable pub on_end : Bool → Bool → Context → Forward → Round
on_end stream can_retry ctx s =
    if not s.committed
    then fail stream can_retry "empty_backend_response" true ctx s
    else finished (record { outcome = returned false; completed = true; writes = s.writes })

-- The switch on the type of a message; other types fall through it.
unfoldable pub on_message : Kind → Bool → Bool → Message → Bool → Context → Forward → Round
on_message response_start stream can_retry m sent ctx s = on_start stream can_retry m ctx s
on_message response_chunk stream can_retry m sent ctx s = on_chunk stream can_retry m sent ctx s
on_message response_end stream can_retry m sent ctx s = on_end stream can_retry ctx s
on_message error stream can_retry m sent ctx s =
    fail stream can_retry (observable_code m.code) m.retryable ctx s
on_message _ stream can_retry m sent ctx s = goes_on s

-- A timer that was stopped is never received from.
unfoldable pub on_event : Bool → Bool → Event → Forward → Round
on_event stream can_retry (done ctx) s = fail stream can_retry "deadline_exceeded" false ctx s
on_event stream can_retry (start_expires ctx) s =
    if s.armed then fail stream can_retry "start_timeout" true ctx s else goes_on s
on_event stream can_retry (fails code ctx) s = fail stream can_retry code true ctx s
on_event stream can_retry (arrives m sent ctx) s = on_message m.kind stream can_retry m sent ctx s

-- The rounds of the loop, with the events that are left; none where they run out before the end.
unfoldable pub rounds : Bool → Bool → List Event → Round → Option (Finish × List Event)
rounds stream can_retry es (finished f) = some (f, es)
rounds stream can_retry [] (goes_on s) = none
rounds stream can_retry (e ∷ es) (goes_on s) =
    rounds stream can_retry es (on_event stream can_retry e s)

unfoldable pub begin : Forward
begin = record { status = pos 0; content_type = ""; committed = false; armed = true; writes = [] }

unfoldable pub forward : Bool → Bool → List Event → Option (Finish × List Event)
forward stream can_retry events = rounds stream can_retry events (goes_on begin)
