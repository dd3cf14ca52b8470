-- ===== src/ModelOffers/Toggle.antt =====
-- What a click on the button of a model changes, on the page and in the agent.
use mathlib.Core.Option
use relay_local.Prelude.{
  ◌≡◌, Bool, false, not, ◌&&◌, Option, none, some, List, [], ◌∷◌, String, if◌then◌else◌, str_eq,
}
use relay_local.Api.Server.{Offers}
use relay_local.ModelOffers.{is_on, Page}
use relay_local.ModelOffers.Server.{Runtime, Managed, has_model, run_returns, offers_of}

-- The models of the last backend with an id.
last_models : List Runtime → String → Option (List String)
last_models [] id = none
last_models (b ∷ bs) id = elim (last_models bs id) [
  | none ↦ if str_eq b.id id then some (b.models) else none
  | some ms ↦ some ms
]

has_in : Option (List String) → String → Bool
has_in none n = false
has_in (some ms) n = has_model ms n

-- What the agent offers after a click on the button of a model, for each model of each backend.
abbrev pub Flips : String → String → Offers → Offers → Type 0
Flips id name before after =
    (c n : String)
    → is_on after c n
      ≡ (if str_eq id c && str_eq name n then not (is_on before id name) else is_on before c n)

-- Whether `replaceConfig` starts the agent again.
abbrev pub restarts : Managed → Bool
restarts m = m.running && m.has_context && m.enabled && not m.paused

abbrev pub Shows : Bool → Bool → String → String → Page → Managed → Page × Managed → Type 0
Shows starts saves id name page server (after, agent) =
    Flips id name page.offers (offers_of agent.backends)
    × (after.offers ≡ (if starts && saves then offers_of agent.backends else page.offers))
    × (after.error ≡ (if starts && saves then page.error else some "could not save model offer"))
    × (agent.running ≡ (starts && saves && restarts server))
    × ((run_returns agent).running ≡ false)
