-- ===== src/Samples/Machine.antt =====
-- A configuration with one Ollama backend, the URLs that it names, and what that backend answers.
use relay_local.Prelude.{
  ◌≡◌, ◌⊎◌, refl, inl, inr, true, false, none, some, [], ◌∷◌, String, if◌then◌else◌, str_eq,
  str_eq_iff, Bool-cases, arith,
}
use relay_local.Prelude.Int.{pos}
use relay_local.Protocol.{Message, Kind}
use relay_local.Config
use relay_local.Config.Urls.{Url, Net, trim_right}
use relay_local.Config.Accepted.{TrimsRoots}
use relay_local.Discovery.{Listings, Reply, replied}
use relay_local.Samples.Hosts.{message}

abbrev pub local_url : Url
local_url = record {
  scheme = "http";
  host = "localhost:11434";
  has_user = false;
  path = "";
  raw_query = "";
  fragment = "";
  is_loopback = true;
}

abbrev pub relay_url : Url
relay_url = record {
  scheme = "wss";
  host = "relay.example";
  has_user = false;
  path = "/relay/v1/connect";
  raw_query = "";
  fragment = "";
  is_loopback = false;
}

-- Three URLs are known.
abbrev pub three_urls : Net
three_urls = record {
  parse = λ s.
      if str_eq s "http://localhost:11434"
      then some local_url
      else if str_eq s "http://localhost:11434/"
      then some (record local_url { path = "/" })
      else if str_eq s "wss://relay.example/relay/v1/connect"
      then some relay_url
      else none;
  split = λ s. none;
}

abbrev pub ollama : Config.Backend
ollama = record {
  id = "gpu";
  kind = "ollama";
  url = "http://localhost:11434/";
  key_env = "";
  models = "llama" ∷ [];
  concurrency = pos 0;
  label = "";
}

abbrev pub machine : Config.Agent
machine = record {
  coordinator_url = "wss://relay.example/relay/v1/connect";
  host_id = "studio";
  token_env = "RELAY_TOKEN";
  start_timeout_seconds = pos 0;
  total_timeout_seconds = pos 0;
  backends = ollama ∷ [];
}

-- Every list names one model that is on offer and one that is not.
abbrev pub two_models : Listings
two_models = record {
  ollama = λ _. some (
      record { name = "llama"; digest = "d1"; remote_model = ""; remote_host = "" }
      ∷ record { name = "secret"; digest = "d2"; remote_model = ""; remote_host = "" }
      ∷ []);
  proxy = λ _. some ("gpt" ∷ []);
}

abbrev pub lists : String → Reply
lists id = replied 200 (some [])

abbrev pub asks : String → Message
asks id = record (message Kind.request) { attempt_id = id; backend_id = "gpu"; model = "gpu/llama" }

known_cases :
    (s : String)
    → (s ≡ "http://localhost:11434")
      ⊎ ((s ≡ "http://localhost:11434/")
          ⊎ ((str_eq s "http://localhost:11434" ≡ false)
              × (str_eq s "http://localhost:11434/" ≡ false)))
known_cases s = elim (Bool-cases (str_eq s "http://localhost:11434")) [
  | inl plain ↦ inl ((str_eq_iff s _).0 plain)
  | inr other ↦ elim (Bool-cases (str_eq s "http://localhost:11434/")) [
    | inl slash ↦ inr (inl ((str_eq_iff s _).0 slash))
    | inr neither ↦ inr (inr (other, neither))
  ]
]

pub three_urls-TrimsRoots : TrimsRoots three_urls
unfolding Config.is_root trim_right
three_urls-TrimsRoots s h = elim (known_cases s) [
  | inl e ↦ rw e refl
  | inr (inl e) ↦ rw e refl
  | inr (inr (a, b)) ↦ elim (Bool-cases (str_eq s "wss://relay.example/relay/v1/connect")) [
    | inl relay ↦ ground (arith, rw (a, b, relay) at h)
    | inr unknown ↦ ground (arith, rw (a, b, unknown) at h)
  ]
]
