-- ===== src/Overview.antt =====
-- The card of the overview that says what needs attention: `Attention` and `joinNames` of
-- frontend/src/views/Overview.tsx, with what the view passes to it.
pub mod Attention
mod Tests
use Prim.Native.String
use relay_local.Prelude.{
  ℕ, ◌+◌, ◌-◌, Bool, true, false, not, ◌&&◌, ◌||◌, List, [], ◌∷◌, String, map, length, ltb, leb,
  if◌then◌else◌,
}
use relay_local.Prelude.Splice.{take}
use relay_local.Number.{Number}
use relay_local.Api.{HistoryEvent, Prices}
use relay_local.Api.Server.{Backend, Model, Offers}
use relay_local.Finance.{overview_unpriced, overview_unpriced_tokens}

infixr 60 ◌then◌
abbrev pub ◌then◌ : String → String → String
s then t = String.◌++◌ s t

-- `names.join(separator)`
abbrev pub join : String → List String → String
join separator [] = ""
join separator (x ∷ []) = x
join separator (x ∷ y ∷ ys) = x then (separator then join separator (y ∷ ys))

-- `names.slice(0, -1)` and `names[names.length - 1]`, of a list that begins with `x`.
abbrev pub front : String → List String → List String
front x [] = []
front x (y ∷ ys) = x ∷ front y ys

abbrev pub last : String → List String → String
last x [] = x
last x (y ∷ ys) = last y ys

unfoldable pub join_names : List String → String
join_names [] = join "" []
join_names (x ∷ []) = join "" (x ∷ [])
join_names (x ∷ y ∷ ys) = join ", " (front x (y ∷ ys)) then (" and " then last x (y ∷ ys))

-- The cards: no runtime is ready; so many models on offer have no price, with their names and tokens;
-- all is clear, with `hasBackends`, on which its title, text and link depend.
pub data Card : Type 0 where
  not_ready : Card
  no_price : ℕ → String → ℕ → Card
  all_clear : Bool → Card

-- The number in a template is written by a parameter.
module _ (digits : ℕ → String) where
  abbrev pub listed : List String → String
  listed unpriced =
      if leb (length unpriced) 3
      then join_names unpriced
      else join_names (take 2 unpriced)
        then (" and " then (digits (length unpriced - 2) then " more"))

  unfoldable pub attention : List String → ℕ → Bool → Bool → Card
  attention unpriced tokens any_ready has_backends =
      if has_backends && not any_ready
      then not_ready
      else (if ltb 0 (length unpriced)
          then no_price (length unpriced) (listed unpriced) tokens
          else all_clear has_backends)

-- The title of the calm card.
abbrev pub calm_title : Bool → String
calm_title has_backends =
    if has_backends then "Every offered model has a price" else "Connect a runtime to start"

-- The tab that the link of a card opens.
unfoldable pub link_of : Card → String
link_of not_ready = "Runtimes"
link_of (no_price count names tokens) = "Finance"
link_of (all_clear has_backends) = if has_backends then "Models" else "Settings"

-- `backends.some(b => b.ready)`
unfoldable pub any_ready : List Backend → Bool
any_ready [] = false
any_ready (b ∷ bs) = b.ready || any_ready bs

module _ (F : Type 0) ⦃number : Number F⦄ (digits : ℕ → String) where
  unfoldable pub card_of : Prices → Offers → List Backend → List HistoryEvent → Card
  card_of prices offers backends today =
      attention digits (map (λ (b, m). m.name) (overview_unpriced F prices offers backends))
        (overview_unpriced_tokens F prices offers backends today) (any_ready backends)
        (ltb 0 (length backends))
