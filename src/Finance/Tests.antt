-- ===== src/Finance/Tests.antt =====
-- Each theorem at a concrete input.
use relay_local.Prelude.{ℕ, ◌+◌, ◌≤◌, ◌≡◌, refl, true, none, some, List, [], ◌∷◌, String, foldl}
use relay_local.Api.{Price, Prices, lookup}
use relay_local.Api.Server.{Backend, Model, Offers}
use relay_local.Samples.{millionths, history, prices}
use relay_local.Stats.Events.{tokens_of}
use relay_local.Stats.Price.{is_priced, parse_price, is_blank}
use relay_local.Finance.{
  output, adopt, edit, change, Change, models_of, is_offered, sum_tokens, priced_tokens,
  unpriced_models, unpriced_tokens, overview_unpriced, overview_unpriced_tokens,
}
use relay_local.Api.Server.{answered}
use relay_local.Finance.Saving.{
  Event as SavingEvent, save, answer, timeout, answer_with, timeout_of, handle, opened, run,
}
use relay_local.Finance.Saving.Notice.{Ends, opened-Ends}
use relay_local.Finance.Draft.{draft-follows}
use relay_local.Finance.Unpriced.{unpriced_tokens-le}

abbrev at : String → String → Price
at i o = record { input_per_million = some i; output_per_million = some o }

abbrev later : Prices
later = ("ollama/a", at "4" "20") ∷ ("ollama/c", at "1" "2") ∷ []

abbrev changes : List Change
changes = adopt later ∷ edit "ollama/c" output "9" ∷ adopt prices ∷ []

-- The price of a new model is taken, then one field of it is typed over.
draft-follows_example : lookup (foldl change prices changes) "ollama/c" ≡ some (at "1" "9")
unfolding lookup
draft-follows_example = draft-follows prices changes "ollama/c"

abbrev model : String → String → Model
model id name = record { id = id; name = name; digest = none }

abbrev box : Backend
box = record {
  id = "ollama";
  kind = "ollama";
  source = "local";
  ready = true;
  capacity = 2;
  available = 2;
  models = model "ollama/a" "a" ∷ model "ollama/b" "b" ∷ [];
}

abbrev offers : Offers
offers = ("ollama", ("a", true) ∷ []) ∷ []

unpriced_tokens-le_example : (207 + 320 ≤ 527) × (0 ≤ 320)
unfolding sum_tokens tokens_of priced_tokens unpriced_tokens unpriced_models models_of is_priced
    parse_price is_blank lookup overview_unpriced overview_unpriced_tokens is_offered
unpriced_tokens-le_example = unpriced_tokens-le ℕ prices offers (box ∷ []) history

-- A price is saved, and saved again before the notice of the first time ends.
abbrev saved_twice : List SavingEvent
saved_twice =
    save "m" prices
    ∷ answer "m" (answered prices)
    ∷ save "m" prices
    ∷ answer "m" (answered prices)
    ∷ timeout
    ∷ []

test-saved_twice : (run saved_twice opened).saved_model ≡ ""
unfolding run handle opened answer_with timeout_of lookup
test-saved_twice = refl

opened-Ends_example : Ends (run saved_twice opened)
opened-Ends_example = opened-Ends saved_twice
