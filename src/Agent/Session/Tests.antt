-- ===== src/Agent/Session/Tests.antt =====
-- An agent with one backend that takes one request at a time, and the theorems there.
use relay_local.Prelude.{
  ℕ, ◌+◌, ◌≤◌, ◌≡◌, refl, true, false, none, some, List, [], ◌∷◌, String, map, get_elem?, length,
}
use relay_local.Prelude.Counts.{one_if}
use relay_local.Prelude.Sort.{count_by}
use relay_local.Prelude.Int.{pos, ◌≤ℤ◌, ◌+ℤ◌, ◌-ℤ◌}
use relay_local.Protocol.{Message, has_key, validate_catalog}
use relay_local.Samples.Machine.{
  three_urls, three_urls-TrimsRoots, ollama, machine, two_models, lists, asks,
}
use relay_local.Config
use relay_local.Config.{total_of}
use relay_local.Config.Urls.{trim_right, is_identifier}
use relay_local.Discovery
use relay_local.Discovery.{Listings}
use relay_local.Agent.{Exchange, live, eof, execute, answer_of, body_of, at_end, concluded}
use relay_local.Agent.Slots.{
  Slot, no_backend, new_agent, refresh, discover_all, catalog, reserve, reserve_slot, reserve_model,
  occupy, release,
}
use relay_local.Agent.Session.{
  Session, Event, receives, proceeds, session_limit, begin, request, after_reserve, on_message,
  proceed_at, proceed, step, run,
}
use relay_local.Agent.Session.Tasks.{busy}
use relay_local.Agent.Session.Ledger.{is_answer, is_task, is_active}
use relay_local.Agent.Life.{Life, starts, Life-run}
use relay_local.Agent.Promises.{Life-IsAccepted, Life-Answers}

abbrev short : Exchange
short = record {
  start_expired = false;
  chat_fails = false;
  status = pos 200;
  content_type = "application/json";
  start_sent = true;
  reads = record { bytes = 123 ∷ 125 ∷ []; err = some eof; sent = true } ∷ [];
  ended = live;
  usage = [];
  done = true;
  failed = false;
}

-- Two attempts while the slot has one place; a third when it is free again.
abbrev served : List Event
served =
    receives (asks "a1") true
    ∷ receives (asks "a2") true
    ∷ proceeds 0 short
    ∷ proceeds 0 short
    ∷ receives (asks "a3") true
    ∷ proceeds 0 short
    ∷ []

abbrev slots : List Slot
slots =
    record {
      config = record ollama { url = "http://localhost:11434"; concurrency = pos 1 };
      catalog = no_backend;
      active = pos 0;
    }
    ∷ []

later : Session
later = run (λ _. true) two_models served (begin (discover_all two_models lists slots))

test-new_agent : new_agent three_urls machine ≡ some slots
unfolding new_agent Config.validate Config.agent_error Config.relay_error Config.timeouts_error
    Config.validate_backends Config.validate_backend Config.backend_error Config.settled_error
    Config.names_error Config.is_root Config.total_of is_identifier trim_right Config.Urls.has_break
    ◌+ℤ◌
test-new_agent = refl

test-later : map (λ (m : Message). m.attempt_id) later.answers ≡ "a2" ∷ "a1" ∷ []
unfolding later run step on_message request after_reserve reserve reserve_slot reserve_model occupy
    release proceed proceed_at begin discover_all refresh Discovery.discover Discovery.from_body
    Discovery.from_ollama Discovery.ollama_models Discovery.takes_ollama Discovery.advertised
    execute answer_of body_of at_end concluded ◌+ℤ◌ ◌-ℤ◌
test-later = refl

life : Life three_urls machine (λ _. true) two_models later
unfolding later
life = Life-run served (starts slots lists test-new_agent)

Life-IsAccepted_example : validate_catalog (catalog later.slots) ≡ none
Life-IsAccepted_example =
    Life-IsAccepted three_urls three_urls-TrimsRoots machine (λ _. true) two_models later life

Life-Answers_example :
    ((id : String)
      → count_by (is_answer id) later.answers + count_by (is_task id) later.tasks
        ≡ one_if (has_key later.seen id))
    × ((id : String) → one_if (has_key later.active id) ≡ count_by (is_active id) later.tasks)
    × ((i : ℕ) (x : Slot)
        → get_elem? later.slots i ≡ some x
        → (x.active ≡ pos (busy i later.tasks))
          × (pos (busy i later.tasks) ≤ℤ x.config.concurrency))
    × (length later.seen ≤ session_limit)
    × (later.acked ≤ later.sent)
Life-Answers_example =
    Life-Answers three_urls three_urls-TrimsRoots machine (λ _. true) two_models later life
