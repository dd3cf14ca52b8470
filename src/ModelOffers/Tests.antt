-- ===== src/ModelOffers/Tests.antt =====
-- A click at a concrete page, and the theorem there.
use relay_local.Prelude.{◌≡◌, refl, true, false, none, [], ◌∷◌}
use relay_local.Api.{lookup}
use relay_local.Api.Server.{Backend}
use relay_local.ModelOffers.{Page, total, offered, is_on, toggle, after_toggle}
use relay_local.ModelOffers.Server.{
  Managed, set_models, set_offer, start, run_returns, replace_config, replied, post_model,
  offers_of,
}

abbrev ollama : Backend
ollama = record {
  id = "ollama";
  kind = "ollama";
  source = "local";
  ready = true;
  capacity = 2;
  available = 2;
  models =
      record { id = "ollama/a"; name = "a"; digest = none }
      ∷ record { id = "ollama/b"; name = "b"; digest = none }
      ∷ [];
}

abbrev agent : Managed
agent = record {
  backends = record { id = "ollama"; models = "a" ∷ [] } ∷ [];
  enabled = true;
  paused = false;
  running = true;
  cancels = true;
  has_context = true;
  runs = 1;
}

abbrev page : Page
page = record { backends = ollama ∷ []; offers = ("ollama", ("a", true) ∷ []) ∷ []; error = none }

test-counts : (total page.backends ≡ 2) × (offered page.offers page.backends ≡ 1)
unfolding total offered is_on lookup
test-counts = (refl, refl)

test-toggle :
    (toggle true true page.backends "ollama" "b" page agent).0.offers
    ≡ ("ollama", ("a", true) ∷ ("b", true) ∷ []) ∷ []
unfolding toggle after_toggle post_model replied replace_config set_offer set_models offers_of is_on
    lookup
test-toggle = refl

-- The agent that was stopped returns after the new one started.
test-returns :
    let after = (toggle true true page.backends "ollama" "b" page agent).1 in
    (after.running ≡ true) × ((run_returns after).running ≡ false) × ((run_returns after).runs ≡ 1)
unfolding toggle after_toggle post_model replied replace_config start run_returns set_offer
    set_models is_on lookup
test-returns = (refl, refl, refl)
