-- ===== src/Api/Names.antt =====
-- The names that the dashboard gives to runtimes (the end of frontend/src/api.ts).
pub mod Titles
use relay_local.Prelude.{
  Bool, true, false, Option, none, some, List, [], ◌∷◌, String, if◌then◌else◌, str_eq,
}
use relay_local.Api.{lookup}
use relay_local.Api.Server.{Backend, BackendConfig, AgentConfig}

abbrev pub kind_names : List (String × String)
kind_names = ("ollama", "Ollama") ∷ ("cliproxyapi", "CLIProxyAPI") ∷ []

-- `value || fallback` of a text that may be missing.
abbrev pub text_or : Option String → String → String
text_or none fallback = fallback
text_or (some s) fallback = if str_eq s "" then fallback else s

unfoldable pub kind_name : String → String
kind_name kind = text_or (lookup kind_names kind) kind

-- `config?.backends.find(b => b.id === backend.id)`
unfoldable pub configured : List BackendConfig → String → Option BackendConfig
configured [] id = none
configured (b ∷ bs) id = let rest = configured bs id in if str_eq b.id id then some b else rest

unfoldable pub configured_in : Option AgentConfig → String → Option BackendConfig
configured_in none id = none
configured_in (some config) id = configured config.backends id

abbrev pub own_title : Backend → Option BackendConfig → String
own_title b none = if str_eq b.id b.kind then kind_name b.kind else b.id
own_title b (some c) =
    let kind = text_or (some b.kind) c.kind in if str_eq b.id kind then kind_name kind else b.id

unfoldable pub title_of : Backend → Option BackendConfig → String
title_of b none = own_title b none
title_of b (some c) = text_or c.label (own_title b (some c))

unfoldable pub backend_title : Backend → Option AgentConfig → String
backend_title b config = title_of b (configured_in config b.id)
