-- ===== src/Config/Tests.antt =====
-- Configurations at concrete inputs.
use relay_local.Prelude.{◌≡◌, refl, ap, ◌++◌, str_eq, none, some, [], ◌∷◌}
use relay_local.Prelude.Int.{pos, ◌+ℤ◌}
use relay_local.Samples.Machine.{three_urls, three_urls-TrimsRoots, ollama, machine}
use relay_local.Config.Listener.{
  Coordinator, listener_error, hosts_error, access_error, validate_coordinator, IsListener,
  validate_coordinator-Settles,
}
use relay_local.Config.Urls.{Net, is_identifier, has_break, trim_right}
use relay_local.Config.Accepted.{IsConfig}
use relay_local.Config.Stable.{validate-Settles}
use relay_local.Config.{
  Agent, timeouts_error, relay_error, agent_error, is_root, backend_error, names_error,
  settled_error, validate_backend, validate_backends, total_of, validate,
}

abbrev settled_machine : Agent
settled_machine = record machine {
  start_timeout_seconds = pos 120;
  total_timeout_seconds = pos 600;
  backends = record ollama { url = "http://localhost:11434"; concurrency = pos 1 } ∷ [];
}

test-machine : validate three_urls machine ≡ (settled_machine, none)
unfolding validate agent_error relay_error timeouts_error validate_backends validate_backend
    backend_error settled_error names_error is_root total_of is_identifier trim_right has_break ◌+ℤ◌
test-machine = refl

-- The first backend is settled before the second one is refused.
test-twice : validate three_urls (record machine { backends = ollama ∷ ollama ∷ [] }) ≡ (
  record settled_machine { backends = settled_machine.backends ++ (ollama ∷ []) },
  some "backend IDs must be unique identifiers",
)
unfolding validate agent_error relay_error timeouts_error validate_backends validate_backend
    backend_error settled_error names_error is_root total_of is_identifier trim_right has_break ◌+ℤ◌
test-twice = refl

validate-Settles_example :
    IsConfig three_urls (validate three_urls machine).0
    × (validate three_urls (validate three_urls machine).0
        ≡ ((validate three_urls machine).0, none))
validate-Settles_example =
    validate-Settles three_urls machine three_urls-TrimsRoots (ap (λ r. r.1) test-machine)

abbrev nearby : Coordinator
nearby = record {
  listen = "";
  tls_cert = "";
  tls_key = "";
  buyer_token_env = "BUYER";
  hosts = ("studio", "HOST_KEY") ∷ [];
  start_timeout_seconds = pos 0;
  total_timeout_seconds = pos 300;
}

-- One address is of the loopback.
abbrev local_net : Net
local_net = record { parse = λ _. none; split = λ s. some (str_eq s "127.0.0.1:8080") }

abbrev settled_nearby : Coordinator
settled_nearby = record nearby { listen = "127.0.0.1:8080"; start_timeout_seconds = pos 120 }

test-nearby : validate_coordinator local_net nearby ≡ (settled_nearby, none)
unfolding validate_coordinator listener_error access_error hosts_error timeouts_error is_identifier
test-nearby = refl

test-public :
    validate_coordinator local_net (record nearby { listen = "0.0.0.0:8080" })
    ≡ (record nearby { listen = "0.0.0.0:8080" }, some "non-loopback listener requires TLS")
unfolding validate_coordinator listener_error access_error hosts_error timeouts_error is_identifier
test-public = refl

validate_coordinator-Settles_example :
    IsListener local_net (validate_coordinator local_net nearby).0
    × (validate_coordinator local_net (validate_coordinator local_net nearby).0
        ≡ ((validate_coordinator local_net nearby).0, none))
validate_coordinator-Settles_example =
    validate_coordinator-Settles local_net nearby (ap (λ r. r.1) test-nearby)
