-- ===== src/Protocol.antt =====
-- The messages between the coordinator and a host: protocol/protocol.go.

pub mod Accepted
pub mod Catalog
mod Tests
use relay_local.Prelude.{
  ℕ, zero, ◌+◌, ◌*◌, ◌^◌, Bool, true, false, not, ◌&&◌, ◌||◌, Option, none, some, List, [], ◌∷◌,
  String, length, if◌then◌else◌, ltb, ◌==◌, str_eq,
}
use relay_local.Prelude.Int.{ℤ, pos, ltb_ℤ, eq_ℤ}
use Prim.Native.String.{len, ◌++◌ as append}

abbrev pub protocol_version : ℤ
protocol_version = pos 1

abbrev pub max_request_bytes : ℕ
max_request_bytes = 2 ^ 20

abbrev pub chunk_bytes : ℕ
chunk_bytes = 32 * 2 ^ 10

abbrev pub queue_bytes : ℕ
queue_bytes = 256 * 2 ^ 10

-- The names of the message types; `unknown` is any other text.
pub data Kind : Type 0 where
  hello welcome catalog heartbeat heartbeat_ack request response_start response_chunk : Kind
  response_end cancel error unknown : Kind

pub record Model : Type 0 where
  pub id : String
  pub name : String
  pub digest : String

pub record Backend : Type 0 where
  pub id : String
  pub kind : String
  pub source : String
  pub ready : Bool
  pub capacity : ℤ
  pub available : ℤ
  pub models : List Model

-- `Body`, `Usage` and `Data` are lists of bytes. The field `Type` is `kind`.
pub record Message : Type 0 where
  pub version : ℤ
  pub kind : Kind
  pub host_id : String
  pub agent_version : String
  pub os : String
  pub arch : String
  pub backends : List Backend
  pub heartbeat_id : ℕ
  pub request_id : String
  pub attempt_id : String
  pub backend_id : String
  pub model : String
  pub timeout_ms : ℤ
  pub start_timeout_ms : ℤ
  pub body : List ℕ
  pub status : ℤ
  pub content_type : String
  pub seq : ℕ
  pub bytes : List ℕ
  pub code : String
  pub retryable : Bool
  pub usage : List ℕ

-- A text that a map has as a key with the value `true`.
abbrev pub has_key : List String → String → Bool
has_key [] key = false
has_key (k ∷ ks) key = let rest = has_key ks key in if str_eq k key then true else rest

-- The Go code tests the parts of a condition from the left; `any` is that chain of `||`.
abbrev pub any : List Bool → Bool
any [] = false
any (b ∷ bs) = b || any bs

-- The functions of the package encoding/json that `Validate` calls: the entries of an object whose
-- values are 64-bit integers, or none, and whether a text is JSON.
pub record Json : Type 0 where
  pub counts : List ℕ → Option (List (String × ℤ))
  pub is_valid : List ℕ → Bool

abbrev is_count : String → Bool
is_count key =
    str_eq key "prompt_tokens" || str_eq key "completion_tokens" || str_eq key "total_tokens"

abbrev valid_counts : List (String × ℤ) → Bool
valid_counts [] = true
valid_counts ((key, n) ∷ rest) =
    let others = valid_counts rest in
    if ltb_ℤ n (pos 0) || not (is_count key) then false else others

unfoldable pub valid_usage_of : Option (List (String × ℤ)) → Bool
valid_usage_of none = false
valid_usage_of (some entries) = valid_counts entries

unfoldable pub valid_usage : Json → List ℕ → Bool
unfolding valid_usage_of
valid_usage json usage = if ltb 0 (length usage) then valid_usage_of (json.counts usage) else true

-- The first switch: what each type requires.
unfoldable pub kind_error : Json → Message → Kind → Option String
kind_error json m hello = if str_eq m.host_id "" then some "missing host identity" else none
kind_error json m welcome = if str_eq m.host_id "" then some "missing host identity" else none
kind_error json m catalog = none
kind_error json m heartbeat = if m.heartbeat_id == 0 then some "missing heartbeat ID" else none
kind_error json m heartbeat_ack = if m.heartbeat_id == 0 then some "missing heartbeat ID" else none
kind_error json m request =
    if any (
      str_eq m.request_id ""
      ∷ str_eq m.backend_id ""
      ∷ str_eq m.model ""
      ∷ ltb_ℤ m.timeout_ms (pos 1)
      ∷ ltb_ℤ (pos 86400000) m.timeout_ms
      ∷ ltb_ℤ m.start_timeout_ms (pos 1)
      ∷ ltb_ℤ m.timeout_ms m.start_timeout_ms
      ∷ ltb max_request_bytes (length m.body)
      ∷ not (json.is_valid m.body)
      ∷ [])
    then some "invalid request"
    else none
kind_error json m response_start =
    if any (
      ltb_ℤ m.status (pos 200)
      ∷ ltb_ℤ (pos 599) m.status
      ∷ (not (str_eq m.content_type "text/event-stream")
          && not (str_eq m.content_type "application/json"))
      ∷ [])
    then some "invalid response start"
    else none
kind_error json m response_chunk =
    if any ((length m.bytes == 0) ∷ ltb chunk_bytes (length m.bytes) ∷ (m.seq == 0) ∷ [])
    then some "invalid response chunk"
    else none
kind_error json m response_end = none
kind_error json m cancel = none
kind_error json m error = if str_eq m.code "" then some "missing error code" else none
kind_error json m unknown = some "unknown message type"

abbrev of_attempt : Kind → Bool
of_attempt request = true
of_attempt response_start = true
of_attempt response_chunk = true
of_attempt response_end = true
of_attempt error = true
of_attempt cancel = true
of_attempt _ = false

unfoldable pub attempt_error : Message → Option String → Option String
attempt_error m (some e) = some e
attempt_error m none =
    if of_attempt m.kind && (str_eq m.attempt_id "" || ltb 128 (len m.attempt_id))
    then some "missing or invalid attempt ID"
    else none

-- The error, or none where the message is valid.
unfoldable pub validate : Json → Message → Option String
unfolding attempt_error
validate json m =
    if not (eq_ℤ m.version protocol_version)
    then some "unsupported protocol version"
    else if any (
        ltb 128 (len m.request_id)
        ∷ ltb 64 (len m.host_id)
        ∷ ltb 64 (len m.code)
        ∷ ltb 64 (len m.backend_id)
        ∷ ltb 512 (len m.model)
        ∷ [])
    then some "oversized identifier"
    else if not (valid_usage json m.usage)
    then some "invalid usage"
    else attempt_error m (kind_error json m m.kind)

-- The condition of the inner loop of `ValidateCatalog`, where the map `models` has the keys `seen`.
unfoldable pub model_error : Backend → List String → Model → Bool
model_error b seen m = any (
    not (str_eq m.id (append b.id (append "/" m.name)))
    ∷ str_eq m.name ""
    ∷ has_key seen m.id
    ∷ (str_eq b.source "local" && str_eq m.digest "")
    ∷ [])

unfoldable pub validate_models : Backend → List String → List Model → Option String
validate_models b seen [] = none
validate_models b seen (m ∷ ms) =
    let rest = validate_models b (m.id ∷ seen) ms in
    if model_error b seen m then some "invalid model identity" else rest

-- The conditions of the outer loop, where the map `ids` has the keys `seen`.
unfoldable pub backend_error : List String → Backend → Bool
backend_error seen b = any (
    str_eq b.id ""
    ∷ has_key seen b.id
    ∷ ltb_ℤ b.capacity (pos 1)
    ∷ ltb_ℤ (pos 64) b.capacity
    ∷ ltb_ℤ b.available (pos 0)
    ∷ ltb_ℤ b.capacity b.available
    ∷ ltb 1024 (length b.models)
    ∷ [])

unfoldable pub source_error : Backend → Bool
source_error b =
    (not (str_eq b.kind "ollama") || not (str_eq b.source "local"))
    && (not (str_eq b.kind "cliproxyapi") || not (str_eq b.source "provider"))

-- The first error of a sequence of statements that may return one.
abbrev pub or_else : Option String → Option String → Option String
or_else (some e) rest = some e
or_else none rest = rest

unfoldable pub validate_backends : List String → List Backend → Option String
validate_backends seen [] = none
validate_backends seen (b ∷ bs) =
    let rest = validate_backends (b.id ∷ seen) bs in
    if backend_error seen b
    then some "invalid backend"
    else if source_error b
    then some "invalid backend source"
    else or_else (validate_models b [] b.models) rest

unfoldable pub validate_catalog : List Backend → Option String
validate_catalog backends =
    if ltb 64 (length backends) then some "too many backends" else validate_backends [] backends
