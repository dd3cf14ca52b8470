-- ===== src/Config.antt =====
-- The configuration files and their checks: internal/config/config.go. A check also fills in defaults,
-- so it returns the configuration that it leaves, with its error if there is one.
pub mod Urls
pub mod Accepted
pub mod Stable
pub mod Listener
mod Tests
use relay_local.Prelude.{
  ℕ, ◌+◌, Bool, true, false, not, ◌&&◌, ◌||◌, Option, none, some, List, [], ◌∷◌, String, foldl,
  length, if◌then◌else◌, ltb, ◌==◌, str_eq, is_some,
}
use relay_local.Prelude.Int.{ℤ, pos, ltb_ℤ, eq_ℤ, ◌+ℤ◌}
use relay_local.Protocol.{has_key, any, or_else}
use relay_local.Config.Urls.{Url, Net, is_identifier, has_break, trim_right}
use Prim.Native.String.{len, ◌++◌ as append}

pub record Backend : Type 0 where
  pub id : String
  pub kind : String
  pub url : String
  pub key_env : String
  pub models : List String
  pub concurrency : ℤ
  pub label : String

-- The prices and the availability of the file are not checked, and left out.
pub record Agent : Type 0 where
  pub coordinator_url : String
  pub host_id : String
  pub token_env : String
  pub start_timeout_seconds : ℤ
  pub total_timeout_seconds : ℤ
  pub backends : List Backend

abbrev pub fail_if : Bool → String → Option String
fail_if test message = if test then some message else none

-- `if *p == 0 { *p = default }`
abbrev pub default_to : ℤ → ℤ → ℤ
default_to default n = if eq_ℤ n (pos 0) then default else n

unfoldable pub timeouts_error : ℤ → ℤ → Option String
timeouts_error start total =
    fail_if (any (ltb_ℤ start (pos 1) ∷ ltb_ℤ total start ∷ ltb_ℤ (pos 86400) total ∷ []))
      "timeouts must satisfy 1 <= start <= total <= 86400 seconds"

abbrev pub start_or_default : ℤ → ℤ
start_or_default n = default_to (pos 120) n

abbrev pub total_or_default : ℤ → ℤ
total_or_default n = default_to (pos 600) n

unfoldable pub relay_error : Option Url → Option String
relay_error none =
    some "invalid coordinator URL; expected /relay/v1/connect without credentials or query"
relay_error (some u) =
    or_else
      (fail_if
        (any (
          str_eq u.host ""
          ∷ u.has_user
          ∷ not (str_eq u.raw_query "")
          ∷ not (str_eq u.fragment "")
          ∷ not (str_eq u.path "/relay/v1/connect")
          ∷ []))
        "invalid coordinator URL; expected /relay/v1/connect without credentials or query")
      (fail_if (not (str_eq u.scheme "wss") && not (str_eq u.scheme "ws" && u.is_loopback))
        "coordinator requires wss outside loopback")

-- The checks of `Agent.Validate` before the timeouts.
unfoldable pub agent_error : Net → Agent → Option String
agent_error net c =
    or_else
      (fail_if (not (is_identifier c.host_id) || not (is_identifier c.token_env))
        "host_id and token_env must be identifiers")
      (relay_error (net.parse c.coordinator_url))

unfoldable pub is_root : Option Url → Bool
is_root none = false
is_root (some u) = not (
    any (
      str_eq u.host ""
      ∷ u.has_user
      ∷ not (str_eq u.raw_query "")
      ∷ not (str_eq u.fragment "")
      ∷ (not (str_eq u.path "") && not (str_eq u.path "/"))
      ∷ (not (str_eq u.scheme "http") && not (str_eq u.scheme "https"))
      ∷ []))

-- The checks of one pass of the loop before it changes the backend, where `ids` has the keys `seen`.
unfoldable pub backend_error : Net → List String → Backend → Option String
backend_error net seen b =
    or_else
      (fail_if (not (is_identifier b.id) || has_key seen b.id)
        "backend IDs must be unique identifiers")
      (or_else
        (fail_if (not (str_eq b.kind "ollama") && not (str_eq b.kind "cliproxyapi"))
          "unsupported backend kind")
        (or_else
          (fail_if (not (str_eq b.key_env "") && not (is_identifier b.key_env))
            "invalid backend key_env")
          (fail_if (not (is_root (net.parse b.url)))
            (append "backend " (append b.id " requires a root HTTP URL without credentials")))))

abbrev pub settled : Backend → Backend
settled b = record b { url = trim_right b.url; concurrency = default_to (pos 1) b.concurrency }

abbrev pub name_error : List String → String → Bool
name_error seen m = any (str_eq m "" ∷ ltb 256 (len m) ∷ has_break m ∷ has_key seen m ∷ [])

unfoldable pub names_error : List String → List String → Option String
names_error seen [] = none
names_error seen (m ∷ ms) =
    let rest = names_error (m ∷ seen) ms in
    or_else (fail_if (name_error seen m) "model allowlists require unique nonempty names") rest

-- The checks after the changes.
unfoldable pub settled_error : Backend → Option String
settled_error b =
    or_else
      (fail_if (ltb_ℤ b.concurrency (pos 1) || ltb_ℤ (pos 64) b.concurrency)
        "backend concurrency must be 1–64")
      (or_else (fail_if (ltb 1024 (length b.models)) "too many allowed models")
        (names_error [] b.models))

-- One pass of the loop.
abbrev pub settle : Backend → Option String → Backend × Option String
settle b (some e) = (b, some e)
settle b none = (settled b, settled_error (settled b))

unfoldable pub validate_backend : Net → List String → Backend → Backend × Option String
validate_backend net seen b = settle b (backend_error net seen b)

-- What follows a pass: the return of its error, or the passes for the other backends.
abbrev pub after_pass :
    List Backend
    → Backend × Option String
    → List Backend × Option String
    → List Backend × Option String
after_pass bs (b, some e) rest = (b ∷ bs, some e)
after_pass bs (b, none) (bs', e) = (b ∷ bs', e)

unfoldable pub validate_backends : Net → List String → List Backend → List Backend × Option String
validate_backends net seen [] = ([], none)
validate_backends net seen (b ∷ bs) =
    let rest = validate_backends net (b.id ∷ seen) bs in
    after_pass bs (validate_backend net seen b) rest

unfoldable pub total_of : List Backend → ℤ
total_of bs = foldl (λ n (b : Backend). n +ℤ b.concurrency) (pos 0) bs

abbrev pub after_backends : Agent → List Backend × Option String → Agent × Option String
after_backends c (bs, some e) = (record c { backends = bs }, some e)
after_backends c (bs, none) = (
  record c { backends = bs },
  fail_if (ltb_ℤ (pos 64) (total_of bs)) "total concurrency must not exceed 64",
)

abbrev pub after_timeouts : Net → Agent → Option String → Agent × Option String
after_timeouts net c (some e) = (c, some e)
after_timeouts net c none =
    if length c.backends == 0 || ltb 64 (length c.backends)
    then (c, some "configure 1–64 backends")
    else after_backends c (validate_backends net [] c.backends)

abbrev pub with_timeouts : Agent → Agent
with_timeouts c = record c {
  start_timeout_seconds = start_or_default c.start_timeout_seconds;
  total_timeout_seconds = total_or_default c.total_timeout_seconds;
}

abbrev pub after_agent : Net → Agent → Option String → Agent × Option String
after_agent net c (some e) = (c, some e)
after_agent net c none = after_timeouts net (with_timeouts c) (
    timeouts_error (start_or_default c.start_timeout_seconds)
      (total_or_default c.total_timeout_seconds))

-- `Agent.Validate`
unfoldable pub validate : Net → Agent → Agent × Option String
validate net c = after_agent net c (agent_error net c)
