-- ===== src/Settings.antt =====
-- The form of frontend/src/views/Settings.tsx: the draft of the agent's configuration, the endpoints
-- that are added to it, and its storing.
pub mod Endpoints
pub mod Form
mod Tests
use relay_local.Prelude.{
  ℕ, ◌+◌, ◌-◌, Bool, true, false, Option, none, some, List, [], ◌∷◌, ◌++◌, String, length, modify,
  foldl,
}
use relay_local.Api.Server.{AgentConfig, BackendConfig, Result, answered, failed, error_message}

-- The state of the form, with the number of requests to store it that wait, and of timers.
pub record Settings : Type 0 where
  pub draft : Option AgentConfig
  pub message : String
  pub saved : Bool
  pub saving : ℕ
  pub timers : ℕ

unfoldable pub opened : Settings
opened = record { draft = none; message = ""; saved = false; saving = 0; timers = 0 }

-- `{ ...draft, ...patch }` and `{ ...b, ...patch }`, for any patch.
unfoldable pub update_backend : ℕ → (BackendConfig → BackendConfig) → AgentConfig → AgentConfig
update_backend index patch draft = record draft { backends = modify draft.backends index patch }

-- The text of a template that ends in a number is a parameter.
module _ (numbered : String → ℕ → String) where
  abbrev pub proxy_id : ℕ → String
  proxy_id n = numbered "cliproxyapi-" n

  abbrev pub new_proxy : ℕ → BackendConfig
  new_proxy n = record {
    id = proxy_id n;
    label = none;
    kind = "cliproxyapi";
    url = "http://127.0.0.1:8317";
    key_env = some "CLIPROXYAPI_KEY";
    models = [];
    concurrency = 1;
  }

  unfoldable pub add_proxy : AgentConfig → AgentConfig
  add_proxy draft = record draft {
    backends = draft.backends ++ (new_proxy (length draft.backends + 1) ∷ []);
  }

-- What happens to the form: the poller delivers a configuration or none; the user types into a field,
-- adds an endpoint, and saves; the agent answers; a timer is over.
pub data Event : Type 0 where
  deliver : Option AgentConfig → Event
  edit : (AgentConfig → AgentConfig) → Event
  save : Event
  stored : Result AgentConfig → Event
  cleared : Event

abbrev pub saved_message : String
saved_message = "Saved. Runtime discovery refreshes shortly."

abbrev pub adopt : Option AgentConfig → Option AgentConfig → Option AgentConfig
adopt (some draft) config = some draft
adopt none config = config

abbrev edited : (AgentConfig → AgentConfig) → Option AgentConfig → Option AgentConfig
edited patch none = none
edited patch (some draft) = some (patch draft)

-- No field and no button is on the page before there is a draft.
abbrev begin_save : Option AgentConfig → ℕ → ℕ
begin_save none n = n
begin_save (some draft) n = n + 1

unfoldable pub handle : Event → Settings → Settings
handle (deliver config) s = record s { draft = adopt s.draft config }
handle (edit patch) s = record s { draft = edited patch s.draft }
handle save s = record s { saving = begin_save s.draft s.saving }
handle (stored (answered config)) s = record s {
  draft = some config;
  saved = true;
  message = saved_message;
  saving = s.saving - 1;
  timers = s.timers + 1;
}
handle (stored (failed e)) s = record s {
  message = error_message e "Could not save configuration";
  saving = s.saving - 1;
}
handle cleared s = record s { saved = false; timers = s.timers - 1 }

abbrev pub run : List Event → Settings → Settings
run events s = foldl (λ s e. handle e s) s events

-- The sum that the page shows.
unfoldable pub concurrency : AgentConfig → ℕ
concurrency draft = foldl (λ n b. n + b.concurrency) 0 draft.backends
