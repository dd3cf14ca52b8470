-- ===== src/Api/Server.antt =====
-- The rest of what the agent's HTTP interface delivers: the types of frontend/src/api.ts that the
-- application keeps, its values for want of an answer, and the names it gives to runtimes.
use relay_local.Prelude.{ℕ, Bool, true, false, Option, none, List, String}
use relay_local.Api.{Prices}

pub record Status : Type 0 where
  pub host_id : String
  pub os : String
  pub arch : String
  pub running : Bool
  pub sharing : Bool
  pub started_at : Option String
  pub dashboard : String

pub record Model : Type 0 where
  pub id : String
  pub name : String
  pub digest : Option String

pub record Backend : Type 0 where
  pub id : String
  pub kind : String
  pub source : String
  pub ready : Bool
  pub capacity : ℕ
  pub available : ℕ
  pub models : List Model

abbrev pub Offers : Type 0
Offers = List (String × List (String × Bool))

pub record UsageSummary : Type 0 where
  pub requests : ℕ
  pub successful : ℕ
  pub failed : ℕ
  pub input_tokens : ℕ
  pub output_tokens : ℕ
  pub total_tokens : ℕ
  pub usage_reported : Bool
  pub complete : Bool

pub record LiveUsage : Type 0 where
  pub requests : ℕ
  pub bytes : ℕ
  pub output_tokens_estimate : ℕ

pub record Usage : Type 0 where
  pub today : UsageSummary
  pub lifetime : UsageSummary
  pub live : Option LiveUsage
  pub complete : Bool

pub record BackendConfig : Type 0 where
  pub id : String
  pub label : Option String
  pub kind : String
  pub url : String
  pub key_env : Option String
  pub models : List String
  pub concurrency : ℕ

pub record Availability : Type 0 where
  pub enabled : Bool
  pub paused : Bool
  pub timezone : Option String

pub record AgentConfig : Type 0 where
  pub coordinator_url : String
  pub host_id : String
  pub token_env : String
  pub start_timeout_seconds : ℕ
  pub total_timeout_seconds : ℕ
  pub backends : List BackendConfig
  pub prices : Option Prices
  pub availability : Option Availability

abbrev pub empty_summary : UsageSummary
empty_summary = record {
  requests = 0;
  successful = 0;
  failed = 0;
  input_tokens = 0;
  output_tokens = 0;
  total_tokens = 0;
  usage_reported = false;
  complete = true;
}

abbrev pub empty_status : Status
empty_status = record {
  host_id = "—";
  os = "—";
  arch = "—";
  running = false;
  sharing = false;
  started_at = none;
  dashboard = "http://127.0.0.1:7331";
}

abbrev pub empty_usage : Usage
empty_usage = record {
  today = empty_summary;
  lifetime = empty_summary;
  live = none;
  complete = true;
}

-- What an `await` throws, and what it gives.
pub data Thrown : Type 0 where
  error : String → Thrown
  other : Thrown

pub data Result {ℓ} (A : Type ℓ) : Type ℓ where
  answered : A → Result A
  failed : Thrown → Result A

unfoldable pub error_message : Thrown → String → String
error_message (error message) fallback = message
error_message other fallback = fallback

abbrev pub auth_required_message : String
auth_required_message = "dashboard authentication required"
