-- ===== src/ModelOffers.antt =====
-- The offers of models: the `Models` view of frontend/src/views/Models.tsx. Its requests go to the
-- handlers of the child Server.
pub mod Server
pub mod Toggle
mod Tests
use relay_local.Prelude.{
  ℕ, ◌+◌, Bool, true, false, not, Option, none, some, List, [], ◌∷◌, String, length, foldl, filter,
  if◌then◌else◌,
}
use relay_local.Api.{lookup}
use relay_local.Api.Server.{Backend, Model, Offers}
use relay_local.ModelOffers.Server.{Managed, Answer, saved, refused, post_model, offers_of}

abbrev pub flag_of : Option (List (String × Bool)) → String → Bool
flag_of none name = false
flag_of (some table) name = elim (lookup table name) [ none ↦ false | some on ↦ on ]

-- `!!offers[b.id]?.[m.name]`
unfoldable pub is_on : Offers → String → String → Bool
is_on offers id name = flag_of (lookup offers id) name

-- `backends.reduce((n, b) => n + b.models.length, 0)`
unfoldable pub total : List Backend → ℕ
total = foldl (λ n (b : Backend). n + length b.models) 0

unfoldable pub offered : Offers → List Backend → ℕ
offered offers =
    foldl
      (λ n (b : Backend). n + length (filter (λ (m : Model). is_on offers b.id m.name) b.models)) 0

-- What the view gets of the application, and the message that it reports.
pub record Page : Type 0 where
  pub backends : List Backend
  pub offers : Offers
  pub error : Option String

-- The answer of `refresh`, with the runtimes as they are then.
abbrev pub refresh : List Backend → Managed → Page → Page
refresh inventory server page = record page {
  backends = inventory;
  offers = offers_of server.backends;
}

-- `toggle`, from the click on the button of a row to the end of the refresh: the page asks for the
-- opposite of what it shows.
unfoldable pub after_toggle : List Backend → Page → Answer × Managed → Page × Managed
after_toggle inventory page (saved, server) = (refresh inventory server page, server)
after_toggle inventory page (refused status message, server) =
    (record page { error = some message }, server)

unfoldable pub toggle :
    Bool → Bool → List Backend → String → String → Page → Managed → Page × Managed
unfolding after_toggle
toggle starts saves inventory id name page server =
    after_toggle inventory page
      (post_model starts saves id name (not (is_on page.offers id name)) server)
