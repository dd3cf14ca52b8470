-- ===== src/Api/Request.antt =====
-- `api` of frontend/src/api.ts. What `fetch` gives is a parameter of its own.
use Prim.Native.String
use relay_local.Prelude.{ℕ, Bool, Option, String, if◌then◌else◌}
use relay_local.Api.Server.{Result, Thrown, error, failed}
use relay_local.Api.Names.{text_or}

-- A response: `json()` of it, and the `error` of that, for what can be read (`none` where it cannot). The
-- handlers of the agent give no error but a text.
pub record Response (A : Type 0) : Type 0 where
  pub ok : Bool
  pub status : ℕ
  pub json : Result A
  pub error_field : Option String

pub data Fetched (A : Type 0) : Type 0 where
  rejected : Thrown → Fetched A
  responded : Response A → Fetched A

module _ {A : Type 0} (digits : ℕ → String) where
  abbrev pub refusal_text : Response A → String
  refusal_text r =
      text_or r.error_field (String.◌++◌ "Request failed (" (String.◌++◌ (digits r.status) ")"))

  unfoldable pub api : Fetched A → Result A
  api (rejected e) = failed e
  api (responded r) = if r.ok then r.json else failed (error (refusal_text r))
