-- ===== src/ModelOffers/Server.antt =====
-- How the agent keeps its offers: `models` and `replaceConfig` of internal/dashboard/dashboard.go.
use relay_local.Prelude.{
  ℕ, ◌+◌, ◌-◌, ◌==◌, Bool, true, false, not, ◌&&◌, ◌||◌, List, [], ◌∷◌, ◌++◌, String, map, filter,
  if◌then◌else◌, str_eq,
}
use relay_local.Api.Server.{Offers}

-- A backend of the configuration: what it is called and the models that it offers.
pub record Runtime : Type 0 where
  pub id : String
  pub models : List String

-- The configuration in memory, with its availability, and what `Start` keeps: `cancels` and `has_context`
-- say that `cancel` and `runCtx` are not nil, and `runs` counts the goroutines that wait for `Run`.
pub record Managed : Type 0 where
  pub backends : List Runtime
  pub enabled : Bool
  pub paused : Bool
  pub running : Bool
  pub cancels : Bool
  pub has_context : Bool
  pub runs : ℕ

pub data Answer : Type 0 where
  saved : Answer
  refused : ℕ → String → Answer

abbrev pub has_model : List String → String → Bool
has_model [] name = false
has_model (m ∷ ms) name = str_eq m name || has_model ms name

unfoldable pub set_models : String → Bool → List String → List String
set_models name offer models =
    let found = has_model models name in
    if offer && not found
    then models ++ (name ∷ [])
    else if not offer && found
    then filter (λ m. not (str_eq m name)) models
    else models

unfoldable pub set_offer : String → String → Bool → List Runtime → List Runtime
set_offer id name offer [] = []
set_offer id name offer (b ∷ bs) =
    let rest = set_offer id name offer bs in
    if str_eq b.id id then record b { models = set_models name offer b.models } ∷ rest else b ∷ rest

abbrev pub is_matched : String → List Runtime → Bool
is_matched id [] = false
is_matched id (b ∷ bs) = str_eq b.id id || is_matched id bs

-- `Start`
unfoldable pub start : Managed → Managed
start m =
    if m.running || not m.enabled || m.paused
    then m
    else record m { running = true; cancels = true; has_context = true; runs = m.runs + 1 }

abbrev pub stopped : Managed → Managed
stopped m = record m { running = false; cancels = false; has_context = false }

-- The end of a goroutine of `Start`, whichever start it is of.
unfoldable pub run_returns : Managed → Managed
run_returns m = if m.runs == 0 then m else record (stopped m) { runs = m.runs - 1 }

-- `replaceConfig` with the configuration that is already in memory, where `agent.New` and `save` succeed
-- or not. The goroutine of the agent that it stops returns later.
unfoldable pub replace_config : Bool → Bool → Managed → Bool × Managed
unfolding start
replace_config starts saves m =
    if not (starts && saves)
    then (false, stopped m)
    else if m.running && m.has_context
    then (true, start (stopped m))
    else (true, stopped m)

unfoldable pub replied : Bool × Managed → Answer × Managed
replied (true, m) = (saved, m)
replied (false, m) = (refused 500 "could not save model offer", m)

-- The handler of a request to offer a model, or not.
unfoldable pub post_model : Bool → Bool → String → String → Bool → Managed → Answer × Managed
unfolding replied
post_model starts saves id name offer m =
    if str_eq id "" || str_eq name ""
    then (refused 400 "invalid model offer", m)
    else if not (is_matched id m.backends)
    then (refused 404 "backend not found", m)
    else replied
        (replace_config starts saves (record m { backends = set_offer id name offer m.backends }))

-- The map of a runtime has its models as keys, each with `true`.
abbrev pub table : List String → List (String × Bool)
table models = map (λ m. (m, true)) models

-- A later backend with the same id takes the place of an earlier one.
unfoldable pub offers_of : List Runtime → Offers
offers_of [] = []
offers_of (b ∷ bs) = offers_of bs ++ ((b.id, table b.models) ∷ [])
