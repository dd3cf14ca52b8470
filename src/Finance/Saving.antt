-- ===== src/Finance/Saving.antt =====
-- The button that saves the prices of a model: `save` and `savedModel` of
-- frontend/src/views/Finance.tsx.
pub mod Notice
use relay_local.Prelude.{
  ℕ, ◌+◌, Option, none, some, List, [], ◌∷◌, ◌++◌, String, foldl, if◌then◌else◌, str_eq,
}
use relay_local.Api.{Price, Prices, lookup}
use relay_local.Api.Server.{Result, answered, failed, error_message}
use relay_local.Finance.{price_or_none}

pub record Post : Type 0 where
  pub model : String
  pub input_per_million : String
  pub output_per_million : String

-- The requests sent, the model with the notice "Saved", the timers in the order in which they end,
-- each with the model that it was set for, the calls of `refresh`, and the message reported.
pub record Saving : Type 0 where
  pub posts : List Post
  pub saved_model : String
  pub timers : List String
  pub refreshes : ℕ
  pub error : Option String

-- `price.input_per_million || ''`
abbrev pub price_text : Option String → String
price_text none = ""
price_text (some s) = s

abbrev pub post_of : String → Price → Post
post_of model price = record {
  model = model;
  input_per_million = price_text price.input_per_million;
  output_per_million = price_text price.output_per_million;
}

-- A click with the draft as it is then, the answer to it, and the end of the first timer.
pub data Event : Type 0 where
  save : String → Prices → Event
  answer : String → Result Prices → Event
  timeout : Event

unfoldable pub answer_with : String → Result Prices → Saving → Saving
answer_with model (answered prices) s = record s {
  saved_model = model;
  timers = s.timers ++ (model ∷ []);
  refreshes = s.refreshes + 1;
}
answer_with model (failed e) s = record s { error = some (error_message e "Could not save price") }

unfoldable pub timeout_of : List String → Saving → Saving
timeout_of [] s = s
timeout_of (model ∷ rest) s = record s {
  saved_model = if str_eq s.saved_model model then "" else s.saved_model;
  timers = rest;
}

unfoldable pub handle : Event → Saving → Saving
unfolding answer_with timeout_of
handle (save model draft) s = record s {
  posts = s.posts ++ (post_of model (price_or_none (lookup draft model)) ∷ []);
}
handle (answer model r) s = answer_with model r s
handle timeout s = timeout_of s.timers s

unfoldable pub opened : Saving
opened = record { posts = []; saved_model = ""; timers = []; refreshes = 0; error = none }

unfoldable pub run : List Event → Saving → Saving
run [] s = s
run (e ∷ es) s = run es (handle e s)
