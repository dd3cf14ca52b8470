-- ===== src/Coordinator/Tests.antt =====
-- A request through the coordinator, and each theorem at a concrete input.
use relay_local.Prelude.{
  ◌≡◌, refl, sym, ◌^◌, true, false, none, some, List, [], ◌∷◌, ◌++◌, if◌then◌else◌, str_eq,
}
use relay_local.Prelude.Int.{pos}
use relay_local.Prelude.Sort.{sort, insert}
use relay_local.Protocol.{
  Message, validate, valid_usage, kind_error, attempt_error, validate_catalog, validate_backends,
  validate_models, backend_error, source_error, model_error,
}
use relay_local.Samples.Hosts.{llama, gpu, lax, start, first_chunk, finish}
use relay_local.Coordinator.Job.{new_job}
use relay_local.Coordinator.Attempt.{
  Attempt, Action, reads, goes_on, consumes, proceeds, leaves, check_order, check, ordered_as,
  inspect, look, drop_job, dispatch, receive, admit, count, enqueue, consume, consume_from, leave,
  proceed, go_on, step, run, begin as begin_attempt,
}
use relay_local.Coordinator.Forward.{
  Event, done, arrives, live, deadline_exceeded, header, body, Finish, returned, forward, rounds,
  on_event, on_message, on_start, on_chunk, on_end, transient, fail, stop, begin,
}
use relay_local.Coordinator.Forward.Reply.{Reply, ending}
use relay_local.Coordinator.Forward.Rounds.{losses_of}
use relay_local.Coordinator.Delivery.{IsDelivered, forward-IsDelivered}
use relay_local.Coordinator.Select.{
  Coordinator, new_host, register, select_job, candidates, host_candidates, backend_candidates,
  model_candidates, active, pick, taken, take_job,
}
use relay_local.Coordinator.Select.Found.{IsSelection, select_job_lem}
use relay_local.Coordinator.Select.Capacity.{IsWithin}
use relay_local.Coordinator.Select.Overbooking.{
  registers, selects, starts, goes_on as steps_on, Reach-IsWithin,
}
use relay_local.Coordinator.Chat.{
  World, Decoder, chat, answer, attempts, attempt_with, after_forward, ended, has_messages,
}
use relay_local.Coordinator.Chat.Answers.{IsServing, Answers, chat-Answers}

abbrev deliver : Message → List Action
deliver m = reads m ∷ goes_on ∷ goes_on ∷ goes_on ∷ goes_on ∷ goes_on ∷ []

-- The host answers at once and the goroutines take turns: the first message is still counted while the
-- second is delivered.
abbrev turns : List Action
turns =
    deliver start
    ++ (consumes ∷ deliver first_chunk)
    ++ (proceeds ∷ consumes ∷ proceeds ∷ deliver finish)
    ++ (consumes ∷ proceeds ∷ leaves ∷ proceeds ∷ [])

abbrev attempt : Attempt
attempt = run lax turns (begin_attempt (new_job "a1" "host" gpu llama))

test-turns : attempt.consumed ≡ start ∷ first_chunk ∷ finish ∷ []
unfolding run step receive dispatch look inspect check check_order ordered_as drop_job admit count
    enqueue consume consume_from leave proceed go_on validate valid_usage kind_error attempt_error
    new_job begin_attempt
test-turns = refl

abbrev served : List Event
served = arrives start true live ∷ arrives first_chunk true live ∷ arrives finish true live ∷ []

served-IsDelivered : IsDelivered served
served-IsDelivered = record {
  json = lax;
  actions = turns;
  id = "a1";
  host = "host";
  backend = gpu;
  model = llama;
  consumed = sym test-turns;
}

abbrev whole_reply : Finish
whole_reply =
    ending (returned false) true (header (pos 200) "application/json" ∷ body (123 ∷ 125 ∷ []) ∷ [])

test-forward : forward false true served ≡ some (whole_reply, [])
unfolding forward rounds on_event on_message on_start on_chunk on_end transient fail stop begin
test-forward = refl

forward-IsDelivered_example :
    Reply false true (losses_of served) ((123 ∷ 125 ∷ []) ∷ []) whole_reply
forward-IsDelivered_example =
    forward-IsDelivered false true served whole_reply served-IsDelivered test-forward

-- One host with room for one job.
abbrev one_host : Coordinator
one_host = record { hosts = new_host "host" (gpu ∷ []) 0 ∷ []; cursor = 0; closed = false }

abbrev taken_host : Coordinator
taken_host = take_job (new_job "a1" "host" gpu llama) one_host

test-select :
    select_job "a1" 0 "gpu/llama" "" none one_host
    ≡ some (new_job "a1" "host" gpu llama, taken_host)
unfolding select_job candidates host_candidates backend_candidates model_candidates active pick
    taken take_job new_job sort insert
test-select = refl

-- The second request finds it busy.
test-select_busy : select_job "a2" 0 "gpu/llama" "" none taken_host ≡ none
unfolding select_job candidates host_candidates backend_candidates model_candidates active pick
    taken take_job new_job sort insert
test-select_busy = refl

select_job_lem_example :
    IsSelection "a2" 0 "gpu/llama" "" none taken_host
      (select_job "a2" 0 "gpu/llama" "" none taken_host)
select_job_lem_example = select_job_lem "a2" 0 "gpu/llama" "" none taken_host

test-register :
    register "host" "host" (gpu ∷ []) 0 (record { hosts = []; cursor = 0; closed = false })
    ≡ some one_host
unfolding register validate_catalog validate_backends validate_models backend_error source_error
    model_error
test-register = refl

Reach-IsWithin_example : IsWithin (λ k. if str_eq k "host" then (gpu ∷ []) ∷ [] else []) taken_host
Reach-IsWithin_example = Reach-IsWithin (
    steps_on (steps_on starts (registers "host" "host" (gpu ∷ []) 0 test-register))
      (selects "a1" 0 "gpu/llama" "" none (new_job "a1" "host" gpu llama) test-select))

abbrev plain_decoder : Decoder
plain_decoder = record {
  request = λ bytes. some (record { model = "gpu/llama"; stream = false; messages = bytes });
  elements = λ bytes. some (bytes ∷ []);
}

abbrev serving : World
serving = record {
  coordinator = λ i. one_host;
  now = λ i. 0;
  new_id = λ i. "a1";
  remaining = λ i. pos (10 ^ 9);
  sends = λ i. true;
  context = λ i. live;
  events = λ i.
      arrives start true live
      ∷ arrives first_chunk true live
      ∷ arrives finish true live
      ∷ done deadline_exceeded
      ∷ [];
}

test-chat :
    chat plain_decoder serving (some (1 ∷ []))
    ≡ some (record { writes = whole_reply.writes; panicked = false; asked = "host" ∷ [] })
unfolding chat answer attempts attempt_with after_forward ended has_messages forward rounds on_event
    on_message on_start on_chunk on_end transient fail stop begin select_job candidates
    host_candidates backend_candidates model_candidates active pick taken take_job new_job sort
    insert
test-chat = refl

serving-IsServing : IsServing serving
serving-IsServing = record {
  delivered = λ i. record {
    json = lax;
    actions = turns;
    id = "a1";
    host = "host";
    backend = gpu;
    model = llama;
    consumed = sym test-turns;
  };
  ends = λ i. refl;
}

chat-Answers_example : Answers serving (chat plain_decoder serving (some (1 ∷ [])))
chat-Answers_example = chat-Answers plain_decoder serving (some (1 ∷ [])) serving-IsServing
