-- ===== src/Finance.antt =====
-- The Finance view: frontend/src/views/Finance.tsx, with the unpriced models that
-- frontend/src/views/Overview.tsx counts.
pub mod Draft
pub mod Unpriced
pub mod Saving
mod Tests
use relay_local.Prelude.{
  ℕ, ◌+◌, Bool, true, false, not, ◌&&◌, Option, none, some, List, [], ◌∷◌, ◌++◌, String, map, foldl,
  filter, if◌then◌else◌, str_eq, ltb,
}
use relay_local.Prelude.Int.{ℤ, pos}
use relay_local.Number.{Number}
use relay_local.LocalTime.{LocalTime}
use relay_local.Api.{HistoryEvent, Price, Prices, lookup, is_text}
use relay_local.Api.Server.{Backend, Model, Offers}
use relay_local.Stats.Events.{request_events, events_since, start_of_day, tokens_of, has_text}
use relay_local.Stats.Price.{is_priced, sum_revenue}

-- An object with one entry set. The order of keys is not read anywhere.
unfoldable pub put : Prices → String → Price → Prices
put [] k v = (k, v) ∷ []
put ((j, u) ∷ m) k v = let rest = put m k v in if str_eq j k then (j, v) ∷ m else (j, u) ∷ rest

-- `{ ...below, ...above }`
unfoldable pub merge : Prices → Prices → Prices
merge below [] = below
merge below ((k, v) ∷ above) = put (merge below above) k v

pub data Field : Type 0 where
  input output : Field

abbrev pub no_price : Price
no_price = record { input_per_million = none; output_per_million = none }

abbrev pub price_or_none : Option Price → Price
price_or_none none = no_price
price_or_none (some price) = price

abbrev pub set_field : Field → String → Price → Price
set_field input value price = record price { input_per_million = some value }
set_field output value price = record price { output_per_million = some value }

-- What changes the draft: new prices from the server, and typing into a field of a model.
pub data Change : Type 0 where
  adopt : Prices → Change
  edit : String → Field → String → Change

unfoldable pub change : Prices → Change → Prices
change draft (adopt server) = merge server draft
change draft (edit model field value) =
    put draft model (set_field field value (price_or_none (lookup draft model)))

-- The models of all runtimes, each with its backend.
abbrev pub own_models : Backend → List Model → List (Backend × Model)
own_models b [] = []
own_models b (m ∷ ms) = (b, m) ∷ own_models b ms

unfoldable pub models_of : List Backend → List (Backend × Model)
models_of [] = []
models_of (b ∷ bs) = own_models b b.models ++ models_of bs

abbrev offered_by : Option (List (String × Bool)) → String → Option Bool
offered_by none name = none
offered_by (some table) name = lookup table name

-- `offers[b.id]?.[m.name]`, as a condition.
unfoldable pub is_offered : Offers → Backend × Model → Bool
is_offered offers (b, m) = elim (offered_by (lookup offers b.id) m.name) [
  | none ↦ false
  | some on ↦ on
]

abbrev pub any_model : List (Backend × Model) → Option String → Bool
any_model [] name = false
any_model ((b, m) ∷ ms) name =
    let rest = any_model ms name in if is_text name m.id then true else rest

-- `events.reduce((n, e) => n + tokensOf(e), 0)`
unfoldable pub sum_tokens : List HistoryEvent → ℕ
sum_tokens = foldl (λ n e. n + tokens_of e) 0

module _ (F : Type 0) ⦃number : Number F⦄ (prices : Prices) where
  abbrev pub names_priced : Option String → Bool
  names_priced none = false
  names_priced (some model) = has_text (some model) && is_priced F prices model

  unfoldable pub priced_tokens : List HistoryEvent → ℕ
  priced_tokens today = sum_tokens (filter (λ e. names_priced e.model) today)

  unfoldable pub unpriced_models : List Backend → List (Backend × Model)
  unpriced_models backends = filter (λ (b, m). not (is_priced F prices m.id)) (models_of backends)

  unfoldable pub unpriced_offered : Offers → List Backend → List (Backend × Model)
  unpriced_offered offers backends = filter (is_offered offers) (unpriced_models backends)

  unfoldable pub unpriced_tokens : List Backend → List HistoryEvent → ℕ
  unpriced_tokens backends today =
      sum_tokens (filter (λ e. any_model (unpriced_models backends) e.model) today)

  -- The overview asks for models that are offered first.
  abbrev pub is_offered_unpriced : Offers → Backend × Model → Bool
  is_offered_unpriced offers (b, m) = is_offered offers (b, m) && not (is_priced F prices m.id)

  unfoldable pub overview_unpriced : Offers → List Backend → List (Backend × Model)
  overview_unpriced offers [] = []
  overview_unpriced offers (b ∷ bs) =
      filter (is_offered_unpriced offers) (own_models b b.models) ++ overview_unpriced offers bs

  unfoldable pub overview_unpriced_tokens : Offers → List Backend → List HistoryEvent → ℕ
  overview_unpriced_tokens offers backends today =
      sum_tokens (filter (λ e. any_model (overview_unpriced offers backends) e.model) today)

module _ (calendar : LocalTime) where
  unfoldable pub today_events : List HistoryEvent → ℤ → List HistoryEvent
  today_events events now =
      events_since calendar (request_events events) (start_of_day calendar now 0) none

module _ {F : Type 0} ⦃number : Number F⦄ (calendar : LocalTime) where
  open number use {of_ℕ, mul, div}

  unfoldable pub revenue_today : List HistoryEvent → Prices → ℤ → F
  revenue_today events prices now = sum_revenue (today_events calendar events now) prices

  unfoldable pub revenue_yesterday : List HistoryEvent → Prices → ℤ → F
  revenue_yesterday events prices now =
      sum_revenue
        (events_since calendar (request_events events) (start_of_day calendar now 1)
          (some (start_of_day calendar now 0)))
        prices

  unfoldable pub revenue_month : List HistoryEvent → Prices → ℤ → F
  revenue_month events prices now =
      sum_revenue
        (events_since calendar (request_events events)
          (calendar.day_start (calendar.full_year now) (calendar.month now) (pos 1)) none)
        prices

  -- Revenue per million of the priced tokens of the day.
  unfoldable pub blended_rate : List HistoryEvent → Prices → ℤ → Option F
  blended_rate events prices now =
      let tokens = priced_tokens F prices (today_events calendar events now) in
      if ltb 0 tokens
      then some (mul (div (revenue_today events prices now) (of_ℕ tokens)) (of_ℕ 1000000))
      else none

  unfoldable pub revenue_by_model : List HistoryEvent → Prices → ℤ → String → F
  revenue_by_model events prices now id =
      sum_revenue (filter (λ e. is_text e.model id) (today_events calendar events now)) prices
