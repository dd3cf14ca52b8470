-- ===== src/Coordinator/Attempt.antt =====
-- One attempt between the goroutine that reads from its host and the one that answers the client:
-- `deliver`, `abandon` and `remove` of internal/coordinator/coordinator.go, and what `forward` of
-- internal/coordinator/chat.go does to the job. A run is a list of actions, each a part of these
-- functions that touches what both goroutines use at most once, or under the lock that both take.
pub mod Response
pub mod Invariant
mod Checks
pub mod Runs
use relay_local.Prelude.{
  ℕ, ◌+◌, ◌-◌, ◌%◌, ◌^◌, Bool, true, false, not, ◌&&◌, ◌||◌, Option, none, some, List, [], ◌∷◌,
  ◌++◌, String, length, foldl, if◌then◌else◌, ltb, leb, ◌==◌, str_eq, is_some,
}
use relay_local.Protocol.{
  Kind, Kind.catalog, Kind.heartbeat, Kind.response_start, Kind.response_chunk, Kind.response_end,
  Kind.error, Message, Json, validate, queue_bytes,
}
use relay_local.Coordinator.Job.{Job, event_slots}

-- Where the reading goroutine is in `deliver`: `found` past the lookup of the job, `ordered` past the
-- checks, `examined` past the deletion, `passed` past the second test of `dropping`, `counted` past
-- `queued.Add` with the sum that came back; `refused` where the message found no room, `full` past
-- taking its bytes back, `abandoning` and `cancelling` before and after the swap of `abandon`; and
-- `stopped` where `connect` has returned.
pub data Reader : Type 0 where
  idle : Reader
  found : Message → Reader
  ordered : Message → Reader
  examined : Message → Reader
  passed : Message → Reader
  counted : Message → ℕ → Reader
  refused : Message → Reader
  full abandoning cancelling stopped : Reader

-- Where `forward` is: at its `select`, or with a message whose bytes it still counts, or on its way
-- out with a failure, or past the swap of its `abandon`, or gone.
pub data Answerer : Type 0 where
  ready : Answerer
  holding : Message → Answerer
  failing quitting left : Answerer

-- `pending` says whether the job is in its host's `jobs`, and `cancels` counts the messages that
-- `abandon` sends. `accepted` and `consumed` are what went into and came out of the channel `events`
-- so far.
pub record Attempt : Type 0 where
  pub job : Job
  pub pending : Bool
  pub reader : Reader
  pub answerer : Answerer
  pub cancels : ℕ
  pub accepted : List Message
  pub consumed : List Message

abbrev pub is_terminal : Kind → Bool
is_terminal response_end = true
is_terminal error = true
is_terminal _ = false

-- The switch of `deliver`, or none where it returns false.
unfoldable pub check_order : Kind → Message → Job → Option Job
check_order response_start m j = if j.started then none else some (record j { started = true })
check_order response_chunk m j =
    if not j.started || not (m.seq == (j.seq + 1) % 2 ^ 64)
    then none
    else some (record j { seq = m.seq })
check_order response_end m j = if not j.started then none else some j
check_order _ m j = some j

-- The checks, which an attempt that is being dropped does not get.
unfoldable pub check : Message → Job → Option Job
unfolding check_order
check m j = if j.dropping then some j else check_order m.kind m j

unfoldable pub ordered_as : Message → Option Job → Attempt → Attempt
ordered_as m none a = record a { reader = stopped }
ordered_as m (some j) a = record a { job = j; reader = ordered m }

-- `j.started` and `j.seq` belong to the reading goroutine.
unfoldable pub inspect : Message → Attempt → Attempt
unfolding ordered_as check
inspect m a = ordered_as m (check m a.job) a

unfoldable pub look : Message → Attempt → Attempt
look m a = if a.pending && str_eq m.attempt_id a.job.id then record a { reader = found m } else a

unfoldable pub drop_job : Message → Attempt → Attempt
drop_job m a = record a { pending = a.pending && not (is_terminal m.kind); reader = examined m }

-- A message read by `connect`: `Peer.Read` validates it, and the loop stops at a type it does not
-- know. A heartbeat and a catalogue do not touch the job.
unfoldable pub dispatch : Kind → Message → Attempt → Attempt
dispatch response_start m a = look m a
dispatch response_chunk m a = look m a
dispatch response_end m a = look m a
dispatch error m a = look m a
dispatch heartbeat m a = a
dispatch catalog m a = a
dispatch _ m a = record a { reader = stopped }

unfoldable pub receive : Json → Message → Attempt → Attempt
unfolding dispatch
receive json m a =
    if is_some (validate json m) then record a { reader = stopped } else dispatch m.kind m a

unfoldable pub admit : Message → Attempt → Attempt
admit m a = if a.job.dropping then record a { reader = idle } else record a { reader = passed m }

unfoldable pub count : Message → Attempt → Attempt
count m a =
    let queued = a.job.queued + length m.bytes in
    record a { job = record (a.job) { queued = queued }; reader = counted m queued }

unfoldable pub enqueue : Message → ℕ → Attempt → Attempt
enqueue m queued a =
    if leb queued queue_bytes && ltb (length a.job.events) event_slots
    then record a {
      job = record (a.job) { events = a.job.events ++ (m ∷ []) };
      reader = idle;
      accepted = a.accepted ++ (m ∷ []);
    }
    else record a { reader = refused m }

-- A send to `failure` that gives up where the channel is full.
abbrev pub offer : String → Option String → Option String
offer code none = some code
offer code (some old) = some old

unfoldable pub uncount : Message → Attempt → Attempt
uncount m a = record a {
  job = record (a.job) { queued = a.job.queued - length m.bytes };
  reader = full;
}

unfoldable pub overflow : Attempt → Attempt
overflow a = record a {
  job = record (a.job) { failure = offer "slow_consumer" a.job.failure };
  reader = abandoning;
}

-- `abandon` of the reading goroutine: the swap, and the lookup with the message that cancels.
unfoldable pub abandon : Attempt → Attempt
abandon a =
    if a.job.dropping
    then record a { reader = idle }
    else record a { job = record (a.job) { dropping = true }; reader = cancelling }

abbrev pub if_pending : Attempt → ℕ
if_pending a = if a.pending then 1 else 0

unfoldable pub cancel : Attempt → Attempt
cancel a = record a { cancels = a.cancels + if_pending a; reader = idle }

-- `m := <-j.events`
unfoldable pub consume_from : List Message → Attempt → Attempt
consume_from [] a = a
consume_from (m ∷ rest) a = record a {
  job = record (a.job) { events = rest };
  answerer = holding m;
  consumed = a.consumed ++ (m ∷ []);
}

unfoldable pub consume : Answerer → Attempt → Attempt
unfolding consume_from
consume ready a = consume_from a.job.events a
consume _ a = a

-- `code := <-j.failure`, after which `forward` returns.
unfoldable pub take_from : Option String → Attempt → Attempt
take_from none a = a
take_from (some code) a = record a { job = record (a.job) { failure = none }; answerer = failing }

unfoldable pub take_failure : Answerer → Attempt → Attempt
unfolding take_from
take_failure ready a = take_from a.job.failure a
take_failure _ a = a

-- The deferred `abandon` of `forward`: the swap.
abbrev pub quit : Attempt → Attempt
quit a =
    if a.job.dropping
    then record a { answerer = left }
    else record a { job = record (a.job) { dropping = true }; answerer = quitting }

unfoldable pub leave : Answerer → Attempt → Attempt
leave ready a = quit a
leave failing a = quit a
leave _ a = a

-- The next part of `forward`: `queued.Add` after a message, or the lookup of its `abandon`.
unfoldable pub proceed : Answerer → Attempt → Attempt
proceed (holding m) a = record a {
  job = record (a.job) { queued = a.job.queued - length m.bytes };
  answerer = ready;
}
proceed quitting a = record a { cancels = a.cancels + if_pending a; answerer = left }
proceed _ a = a

unfoldable pub remove : Attempt → Attempt
remove a = record a {
  job = record (a.job) {
    failure = if a.pending then offer "host_disconnected" a.job.failure else a.job.failure;
  };
  reader = stopped;
}

pub data Action : Type 0 where
  reads : Message → Action
  goes_on consumes proceeds takes_failure leaves removes : Action

-- The next part of `deliver`.
unfoldable pub go_on : Reader → Attempt → Attempt
go_on (found m) a = inspect m a
go_on (ordered m) a = drop_job m a
go_on (examined m) a = admit m a
go_on (passed m) a = count m a
go_on (counted m queued) a = enqueue m queued a
go_on (refused m) a = uncount m a
go_on full a = overflow a
go_on abandoning a = abandon a
go_on cancelling a = cancel a
go_on idle a = a
go_on stopped a = a

abbrev pub is_idle : Reader → Bool
is_idle idle = true
is_idle _ = false

abbrev pub is_done : Reader → Bool
is_done idle = true
is_done stopped = true
is_done _ = false

-- An action that is not possible changes nothing.
unfoldable pub step : Json → Action → Attempt → Attempt
step json (reads m) a = if is_idle a.reader then receive json m a else a
step json goes_on a = go_on a.reader a
step json consumes a = consume a.answerer a
step json proceeds a = proceed a.answerer a
step json takes_failure a = take_failure a.answerer a
step json leaves a = leave a.answerer a
step json removes a = if is_done a.reader then remove a else a

unfoldable pub begin : Job → Attempt
begin j = record {
  job = j;
  pending = true;
  reader = idle;
  answerer = ready;
  cancels = 0;
  accepted = [];
  consumed = [];
}

unfoldable pub run : Json → List Action → Attempt → Attempt
unfolding step
run json [] a = a
run json (x ∷ xs) a = run json xs (step json x a)
