-- ===== src/Coordinator/Job.antt =====
-- The attempts that the coordinator follows: `job` of internal/coordinator/coordinator.go.
use relay_local.Prelude.{ℕ, Bool, false, Option, none, List, [], String}
use relay_local.Protocol.{Backend, Model, Message}

-- A job names its host. `events` is a channel for ten messages and `failure` one for a single text.
pub record Job : Type 0 where
  pub id : String
  pub host : String
  pub backend : Backend
  pub model : Model
  pub events : List Message
  pub failure : Option String
  pub queued : ℕ
  pub dropping : Bool
  pub started : Bool
  pub seq : ℕ

abbrev pub event_slots : ℕ
event_slots = 10

unfoldable pub new_job : String → String → Backend → Model → Job
new_job id host backend model = record {
  id = id;
  host = host;
  backend = backend;
  model = model;
  events = [];
  failure = none;
  queued = 0;
  dropping = false;
  started = false;
  seq = 0;
}
