-- ===== src/Overview/Tests.antt =====
-- Names, cards, and the theorem at a concrete input.
use relay_local.Prelude.{ℕ, ◌≡◌, refl, true, false, none, some, [], ◌∷◌, String}
use relay_local.Api.{lookup}
use relay_local.Api.Server.{Backend, Offers}
use relay_local.Samples.{millionths, history, prices}
use relay_local.Stats.Price.{is_priced, parse_price, is_blank}
use relay_local.Finance.{models_of, is_offered}
use relay_local.Overview.{no_price, attention, card_of, any_ready, join_names}
use relay_local.Overview.Attention.{is_all_clear, title_of, is_all_clear-card_of}

three_names : join_names ("a" ∷ "b" ∷ "c" ∷ []) ≡ "a, b and c"
unfolding join_names
three_names = refl

abbrev some_digits : ℕ → String
some_digits n = "2"

four_names :
    attention some_digits ("a" ∷ "b" ∷ "c" ∷ "d" ∷ []) 7 true true
    ≡ no_price 4 "a and b and 2 more" 7
unfolding attention join_names
four_names = refl

abbrev box : Backend
box = record {
  id = "box";
  kind = "ollama";
  source = "local";
  ready = true;
  capacity = 1;
  available = 1;
  models =
      record { id = "ollama/a"; name = "a"; digest = none }
      ∷ record { id = "ollama/b"; name = "b"; digest = none }
      ∷ [];
}

abbrev offers : Offers
offers = ("box", ("a", true) ∷ ("b", false) ∷ []) ∷ []

is_all_clear-card_of_example :
    let card = card_of ℕ some_digits prices offers (box ∷ []) history in
    (is_all_clear card ≡ true) × (title_of card ≡ some "Every offered model has a price")
unfolding any_ready is_offered is_priced parse_price is_blank lookup models_of
is_all_clear-card_of_example = is_all_clear-card_of ℕ prices offers some_digits (box ∷ []) history
