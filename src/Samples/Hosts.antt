-- ===== src/Samples/Hosts.antt =====
-- Data for the tests of the protocol and the coordinator: a host with one backend, and what it sends.
use relay_local.Prelude.{true, false, none, [], ◌∷◌}
use relay_local.Prelude.Int.{pos}
use relay_local.Protocol.{
  Kind, Kind.response_start, Kind.response_chunk, Kind.response_end, Model, Backend, Message, Json,
}

abbrev pub llama : Model
llama = record { id = "gpu/llama"; name = "llama"; digest = "d1" }

abbrev pub gpu : Backend
gpu = record {
  id = "gpu";
  kind = "ollama";
  source = "local";
  ready = true;
  capacity = pos 1;
  available = pos 1;
  models = llama ∷ [];
}

-- Every text is JSON and no usage is given.
abbrev pub lax : Json
lax = record { counts = λ _. none; is_valid = λ _. true }

abbrev pub message : Kind → Message
message kind = record {
  version = pos 1;
  kind = kind;
  host_id = "";
  agent_version = "";
  os = "";
  arch = "";
  backends = [];
  heartbeat_id = 0;
  request_id = "";
  attempt_id = "a1";
  backend_id = "";
  model = "";
  timeout_ms = pos 0;
  start_timeout_ms = pos 0;
  body = [];
  status = pos 0;
  content_type = "";
  seq = 0;
  bytes = [];
  code = "";
  retryable = false;
  usage = [];
}

abbrev pub start : Message
start = record (message response_start) { status = pos 200; content_type = "application/json" }

abbrev pub first_chunk : Message
first_chunk = record (message response_chunk) { seq = 1; bytes = 123 ∷ 125 ∷ [] }

abbrev pub finish : Message
finish = message response_end
