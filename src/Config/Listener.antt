-- ===== src/Config/Listener.antt =====
-- The configuration of a coordinator: `Coordinator.Validate` of internal/config/config.go, and what it
-- accepts.
use relay_local.Prelude.{
  ◌≤◌, ◌≡◌, ◌≢◌, ◌↔◌, ◌⊎◌, refl, sym, subst, Bool, true, false, not, ◌&&◌, ◌||◌, Option, none, some,
  List, [], ◌∷◌, String, length, All, if◌then◌else◌, ◌==◌, str_eq, str_eq_iff, arith,
}
use relay_local.Prelude.Int.{ℤ, pos, ◌≤ℤ◌}
use relay_local.Protocol.{or_else}
use relay_local.Protocol.Catalog.{or_else-none}
use relay_local.Config.Urls.{Net, is_identifier}
use relay_local.Config.{fail_if, timeouts_error, start_or_default, total_or_default}
use relay_local.Config.Accepted.{default_to-pos}

-- `hosts` is a map of host names to the names of variables.
pub record Coordinator : Type 0 where
  pub listen : String
  pub tls_cert : String
  pub tls_key : String
  pub buyer_token_env : String
  pub hosts : List (String × String)
  pub start_timeout_seconds : ℤ
  pub total_timeout_seconds : ℤ

abbrev pub listen_or_default : String → String
listen_or_default s = if str_eq s "" then "127.0.0.1:8080" else s

abbrev pub same : Bool → Bool → Bool
same true b = b
same false b = not b

-- The listener and its certificate; the host of the address is none where it does not parse, or else
-- says whether it is a name of the loopback.
unfoldable pub listener_error : Option Bool → Coordinator → Option String
listener_error none c = some "invalid listen address"
listener_error (some is_loopback) c =
    or_else
      (fail_if (not (same (str_eq c.tls_cert "") (str_eq c.tls_key "")))
        "both TLS certificate and key are required")
      (fail_if (str_eq c.tls_cert "" && not is_loopback) "non-loopback listener requires TLS")

-- The loop over the hosts, in any order that the map is read in.
unfoldable pub hosts_error : List (String × String) → Option String
hosts_error [] = none
hosts_error ((id, env) ∷ hosts) =
    let rest = hosts_error hosts in
    or_else
      (fail_if (not (is_identifier id) || not (is_identifier env))
        "invalid host credential mapping")
      rest

unfoldable pub access_error : Coordinator → Option String
access_error c =
    or_else
      (fail_if (not (is_identifier c.buyer_token_env) || length c.hosts == 0)
        "buyer token and host allowlist required")
      (hosts_error c.hosts)

abbrev pub with_listen : Coordinator → Coordinator
with_listen c = record c { listen = listen_or_default c.listen }

abbrev pub after_access : Coordinator → Option String → Coordinator × Option String
after_access c (some e) = (c, some e)
after_access c none = (
  record c {
    start_timeout_seconds = start_or_default c.start_timeout_seconds;
    total_timeout_seconds = total_or_default c.total_timeout_seconds;
  },
  timeouts_error (start_or_default c.start_timeout_seconds)
      (total_or_default c.total_timeout_seconds),
)

-- `Coordinator.Validate`
unfoldable pub validate_coordinator : Net → Coordinator → Coordinator × Option String
validate_coordinator net c =
    let d = with_listen c in
    after_access d (or_else (listener_error (net.split d.listen) d) (access_error d))

-- Nobody listens in: there is a certificate with its key, or the address is one of the loopback.
abbrev pub IsSecure : Bool → Coordinator → Type 0
IsSecure is_loopback c =
    ((c.tls_cert ≢ "") × (c.tls_key ≢ ""))
    ⊎ ((c.tls_cert ≡ "") × (c.tls_key ≡ "") × (is_loopback ≡ true))

abbrev pub IsHost : String × String → Type 0
IsHost (id, env) = (is_identifier id ≡ true) × (is_identifier env ≡ true)

abbrev pub IsListener : Net → Coordinator → Type 0
IsListener net c =
    (c.listen ≢ "")
    × ((b : Bool) × (net.split c.listen ≡ some b) × IsSecure b c)
    × (is_identifier c.buyer_token_env ≡ true)
    × (1 ≤ length c.hosts)
    × All IsHost c.hosts
    × (pos 1 ≤ℤ c.start_timeout_seconds)
    × (c.start_timeout_seconds ≤ℤ c.total_timeout_seconds)
    × (c.total_timeout_seconds ≤ℤ pos 86400)

listener_error-none :
    (b : Bool) (c : Coordinator) → (listener_error (some b) c ≡ none) ↔ IsSecure b c
unfolding listener_error
listener_error-none b c = grind (arith, str_eq_iff c.tls_cert "", str_eq_iff c.tls_key "")

listener_error-some :
    (c : Coordinator) (o : Option Bool)
    → listener_error o c ≡ none
    → (b : Bool) × (o ≡ some b) × IsSecure b c
unfolding listener_error
listener_error-some c none h = absurd (ground arith)
listener_error-some c (some b) h = (b, refl, (listener_error-none b c).0 h)

hosts_error-none : (hosts : List (String × String)) → (hosts_error hosts ≡ none) ↔ All IsHost hosts
unfolding hosts_error
hosts_error-none [] = (λ _. tt, λ _. refl)
hosts_error-none ((id, env) ∷ hosts) = ground (arith, hosts_error-none hosts)

access_error-none :
    (c : Coordinator)
    → (access_error c ≡ none)
      ↔ ((is_identifier c.buyer_token_env ≡ true) × (1 ≤ length c.hosts) × All IsHost c.hosts)
unfolding access_error
access_error-none c = ground (arith, hosts_error-none c.hosts)

listen_nonempty : (s : String) → listen_or_default s ≢ ""
listen_nonempty s = ground (arith, str_eq_iff s "", str_eq_iff "127.0.0.1:8080" "")

after_access-IsListener :
    (net : Net) (c : Coordinator) (o : Option String)
    → c.listen ≢ ""
    → (o ≡ none
        → ((b : Bool) × (net.split c.listen ≡ some b) × IsSecure b c)
          × (is_identifier c.buyer_token_env ≡ true)
          × (1 ≤ length c.hosts)
          × All IsHost c.hosts)
    → (after_access c o).1 ≡ none
    → IsListener net (after_access c o).0
unfolding timeouts_error
after_access-IsListener net c (some e) named ok h = ground arith
after_access-IsListener net c none named ok h =
    let (secure, token, some_host, hosts) = ok refl in
    (named, secure, token, some_host, hosts, ground arith, ground arith, ground arith)

pub validate_coordinator-IsListener :
    (net : Net) (c : Coordinator)
    → (validate_coordinator net c).1 ≡ none
    → IsListener net (validate_coordinator net c).0
unfolding validate_coordinator
validate_coordinator-IsListener net c h =
    let d = with_listen c in
    after_access-IsListener net d (or_else (listener_error (net.split d.listen) d) (access_error d))
      (listen_nonempty c.listen)
      (λ e.
        let (secure, access) = (or_else-none _ _).0 e in
        let (b, at, safe) = listener_error-some d (net.split d.listen) secure in
        let (token, some_host, hosts) = (access_error-none d).0 access in
        ((b, at, safe), token, some_host, hosts))
      h

listen_or_default_self : (s : String) → s ≢ "" → listen_or_default s ≡ s
listen_or_default_self s h = ground (arith, str_eq_iff s "")

with_listen_valid : (c : Coordinator) → c.listen ≢ "" → with_listen c ≡ c
with_listen_valid c h = rw (listen_or_default_self c.listen h) refl

abbrev checks : Net → Coordinator → Option String
checks net c = or_else (listener_error (net.split c.listen) c) (access_error c)

listener_accepted :
    (net : Net) (c : Coordinator) → IsListener net c → validate_coordinator net c ≡ (c, none)
unfolding validate_coordinator timeouts_error
listener_accepted net c (named, (b, at, safe), token, some_host, hosts, low, mid, high) =
    let secure : listener_error (net.split c.listen) c ≡ none =
      rw at ((listener_error-none b c).1 safe) in
    let checked : checks net c ≡ none =
      (or_else-none _ _).1 (secure, (access_error-none c).1 (token, some_host, hosts)) in
    let same = with_listen_valid c named in
    rw
      (
        subst (λ d. checks net d ≡ none) (sym same) checked,
        listen_or_default_self c.listen named,
        default_to-pos (pos 120) c.start_timeout_seconds low,
        default_to-pos (pos 600) c.total_timeout_seconds (ground arith),
      )
      (ground arith)

-- A coordinator's configuration that `Validate` accepts is left with an address, a certificate and its
-- key or an address of the loopback and neither, an identifier for the buyer's token, at least one
-- host, identifiers for each host and its token, and timeouts from 1 to 86400 seconds of which the
-- first is the shorter; and it is then accepted again, as it is.
pub validate_coordinator-Settles :
    (net : Net) (c : Coordinator)
    → (validate_coordinator net c).1 ≡ none
    → IsListener net (validate_coordinator net c).0
      × (validate_coordinator net (validate_coordinator net c).0
          ≡ ((validate_coordinator net c).0, none))
validate_coordinator-Settles net c h =
    let left = validate_coordinator-IsListener net c h in
    (left, listener_accepted net (validate_coordinator net c).0 left)
