-- ===== src/Agent/Session.antt =====
-- One connection of an agent to the coordinator: `session` of internal/agent/agent.go. Its goroutines
-- take turns in any order: the loop that reads, the two tickers, and one task for each request, which
-- ends in three steps.
pub mod Tasks
pub mod Ledger
pub mod Invariant
pub mod Runs
mod Tests
use relay_local.Prelude.{
  ℕ, suc, ◌+◌, Bool, true, false, not, ◌&&◌, ◌||◌, Option, none, some, List, [], ◌∷◌, ◌++◌, String,
  foldl, length, get_elem?, modify, filter, if◌then◌else◌, ltb, leb, str_eq,
}
use relay_local.Prelude.Counts.{remove_at}
use relay_local.Protocol.{Kind, Message, has_key}
use relay_local.Discovery.{Listings, Reply}
use relay_local.Agent.{Exchange, Sent, blank, execute}
use relay_local.Agent.Slots.{Slot, Reserved, refused, taken, refresh, reserve, occupy, release}

-- Where the goroutine of a request stands, with the message that `execute` returned.
pub data Phase : Type 0 where
  executing : Phase
  released : Message → Phase
  deleted : Message → Phase

pub record Task : Type 0 where
  pub id : String
  pub slot : ℕ
  pub phase : Phase

-- `active` and `seen` are the keys of the two maps; `answers` are the messages that ended attempts, as
-- they were handed to the connection; `stopped` are the attempts whose context was canceled; `over` is
-- the error that the session returned.
pub record Session : Type 0 where
  pub slots : List Slot
  pub active : List String
  pub seen : List String
  pub tasks : List Task
  pub sent : ℕ
  pub acked : ℕ
  pub answers : List Message
  pub stopped : List String
  pub over : Option String

unfoldable pub begin : List Slot → Session
begin slots = record {
  slots = slots;
  active = [];
  seen = [];
  tasks = [];
  sent = 0;
  acked = 0;
  answers = [];
  stopped = [];
  over = none;
}

abbrev pub session_limit : ℕ
session_limit = 100000

abbrev pub is_retryable : String → Bool
is_retryable code = str_eq code "busy" || str_eq code "backend_unavailable"

abbrev pub rejection : String → String → Message
rejection id code = record (blank Kind.error id) { code = code; retryable = is_retryable code }

-- What follows the reservation; `delivered` says whether the connection takes the refusal.
unfoldable pub after_reserve : Message → Bool → Reserved → Session → Session
after_reserve m delivered (refused code) s = record s {
  answers = s.answers ++ (rejection m.attempt_id code ∷ []);
  over = if delivered then s.over else some "connection lost";
}
after_reserve m delivered (taken i name) s = record s {
  slots = occupy i s.slots;
  active = m.attempt_id ∷ s.active;
  tasks = s.tasks ++ (record { id = m.attempt_id; slot = i; phase = executing } ∷ []);
}

unfoldable pub request : (List ℕ → Bool) → Message → Bool → Session → Session
request is_object m delivered s =
    if has_key s.seen m.attempt_id || leb session_limit (length s.seen)
    then record s { over = some "duplicate attempt or session limit" }
    else after_reserve m delivered (reserve is_object m s.slots)
        (record s { seen = m.attempt_id ∷ s.seen })

-- The switch of the loop that reads.
unfoldable pub on_message : (List ℕ → Bool) → Message → Bool → Kind → Session → Session
on_message is_object m delivered Kind.heartbeat_ack s =
    if ltb s.acked m.heartbeat_id && leb m.heartbeat_id s.sent
    then record s { acked = m.heartbeat_id }
    else s
on_message is_object m delivered Kind.cancel s =
    if has_key s.active m.attempt_id
    then record s { stopped = s.stopped ++ (m.attempt_id ∷ []) }
    else s
on_message is_object m delivered Kind.request s = request is_object m delivered s
on_message is_object m delivered _ s = record s { over = some "unexpected coordinator message" }

abbrev pub reads : Option String → (Session → Session) → Session → Session
reads none f s = f s
reads (some e) f s = s

-- The steps of a task: `execute` returns and the slot is free, the id is deleted, and the last message
-- is handed to the connection.
abbrev pub returned : ℕ → Task → Option Sent → Session → Session
returned k t none s = s
returned k t (some r) s = record s {
  slots = release t.slot s.slots;
  tasks = modify s.tasks k λ (t : Task). record t { phase = released r.terminal };
}

unfoldable pub proceed_at : ℕ → Exchange → Task → Phase → Session → Session
proceed_at k x t executing s = returned k t (execute t.id x) s
proceed_at k x t (released m) s = record s {
  active = filter (λ id. not (str_eq id t.id)) s.active;
  tasks = modify s.tasks k λ (t : Task). record t { phase = deleted m };
}
proceed_at k x t (deleted m) s = record s {
  answers = s.answers ++ (m ∷ []);
  tasks = remove_at s.tasks k;
}

abbrev pub proceed_with : ℕ → Exchange → Option Task → Session → Session
proceed_with k x none s = s
proceed_with k x (some t) s = proceed_at k x t t.phase s

unfoldable pub proceed : ℕ → Exchange → Session → Session
proceed k x s = proceed_with k x (get_elem? s.tasks k) s

pub data Event : Type 0 where
  receives : Message → Bool → Event
  breaks : String → Event
  proceeds : ℕ → Exchange → Event
  beats : Event
  discovers : ℕ → Reply → Event

unfoldable pub step : (List ℕ → Bool) → Listings → Session → Event → Session
step is_object json s (receives m delivered) =
    reads s.over (on_message is_object m delivered m.kind) s
step is_object json s (breaks e) = reads s.over (λ s. record s { over = some e }) s
step is_object json s (proceeds k x) = proceed k x s
step is_object json s beats = record s { sent = s.sent + 1 }
step is_object json s (discovers i reply) = record s {
  slots = modify s.slots i (refresh json reply);
}

unfoldable pub run : (List ℕ → Bool) → Listings → List Event → Session → Session
run is_object json xs s = foldl (step is_object json) s xs
