-- ===== src/Coordinator/Access/Tests.antt =====
-- A coordinator on the loopback with one host, and the theorem there.
use relay_local.Prelude.{
  ◌≡◌, ◌≢◌, ◌↔◌, refl, true, false, some, none, [], ◌∷◌, String, Occurs, str_eq, if◌then◌else◌,
}
use relay_local.Prelude.Int.{pos}
use relay_local.Config.Urls.{Net, is_identifier, has_break}
use relay_local.Config.{timeouts_error}
use relay_local.Config.Listener.{
  Coordinator, listener_error, hosts_error, access_error, validate_coordinator,
}
use relay_local.Coordinator.Access.{
  secret, host_keys, Keys, new_coordinator, strip_prefix, key_matches, Request, secure, refused,
  allowed, authorize, host_of_key, connect_as,
}
use relay_local.Coordinator.Access.Identity.{Holds, connect_as-Identifies}

abbrev nearby : Coordinator
nearby = record {
  listen = "127.0.0.1:8080";
  tls_cert = "";
  tls_key = "";
  buyer_token_env = "BUYER";
  hosts = ("studio", "STUDIO_KEY") ∷ [];
  start_timeout_seconds = pos 120;
  total_timeout_seconds = pos 600;
}

abbrev loopback : Net
loopback = record { parse = λ _. none; split = λ s. some true }

abbrev environment : String → String
environment name =
    if str_eq name "BUYER" then "b1" else if str_eq name "STUDIO_KEY" then "s1" else ""

abbrev made : Keys
made = record { buyer = "b1"; hosts = ("studio", "s1") ∷ [] }

abbrev from_studio : Request
from_studio = record { is_tls = false; remote = some true; authorization = "Bearer s1" }

test-made : new_coordinator loopback environment nearby ≡ some made
unfolding new_coordinator validate_coordinator listener_error access_error hosts_error
    timeouts_error is_identifier host_keys secret has_break
test-made = refl

-- Two credentials that are equal are refused.
test-same : new_coordinator loopback (λ name. "b1") nearby ≡ none
unfolding new_coordinator validate_coordinator listener_error access_error hosts_error
    timeouts_error is_identifier host_keys secret has_break
test-same = refl

test-studio : connect_as made from_studio ≡ allowed "studio"
unfolding connect_as host_of_key key_matches strip_prefix secure
test-studio = refl

test-studio_buys : authorize made from_studio ≡ refused 401 "unauthorized"
unfolding authorize key_matches strip_prefix secure
test-studio_buys = refl

connect_as-Identifies_example :
    ((id : String)
      → (connect_as made from_studio ≡ allowed id)
        ↔ ((key : String) × Occurs (id, key) made.hosts × Holds from_studio key))
    × ((authorize made from_studio ≡ allowed "") ↔ Holds from_studio made.buyer)
    × ((id : String)
        → connect_as made from_studio ≡ allowed id
        → authorize made from_studio ≢ allowed "")
connect_as-Identifies_example =
    connect_as-Identifies loopback environment nearby made test-made from_studio
