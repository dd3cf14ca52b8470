-- ===== src/Stats/Price.antt =====
-- Asking prices, revenue and throughput of one request (frontend/src/stats.ts).
use Prim.Native.Char.{code}
use relay_local.Prelude.{
  ℕ, Bool, true, false, not, ◌&&◌, ◌||◌, Option, none, some, List, String, foldl, if◌then◌else◌,
  ◌==◌, leb, is_some,
}
use relay_local.Number.{Number}
use relay_local.Api.{HistoryEvent, Price, Prices, lookup, or_zero}
use relay_local.Stats.Events.{has_text, is_completed}

-- The white space and line ends that `trim` removes.
is_space : ℕ → Bool
is_space c =
    (leb 9 c && leb c 13)
    || c == 32
    || c == 0xa0
    || c == 0x1680
    || (leb 0x2000 c && leb c 0x200a)
    || c == 0x2028
    || c == 0x2029
    || c == 0x202f
    || c == 0x205f
    || c == 0x3000
    || c == 0xfeff

-- `!value.trim()`
unfoldable pub is_blank : String → Bool
unfolding is_space
is_blank String.[] = true
is_blank (String.◌∷◌ c s) = is_space (code c) && is_blank s

abbrev pub is_positive : Option ℕ → Bool
is_positive n = not (or_zero n == 0)

module _ {F : Type 0} ⦃number : Number F⦄ where
  open number use {of_ℕ, le, of_string, is_finite}

  abbrev pub nought : F
  nought = of_ℕ 0

  unfoldable pub parse_price : Option String → Option F
  parse_price none = none
  parse_price (some value) =
      let n = of_string value in
      if is_blank value then none else if is_finite n && le nought n then some n else none

module _ (F : Type 0) ⦃number : Number F⦄ where
  unfoldable pub is_priced : Prices → String → Bool
  is_priced prices id = elim (lookup prices id) [
    | none ↦ false
    | some price ↦
        is_some (parse_price {F = F} price.input_per_million)
        && is_some (parse_price {F = F} price.output_per_million)
  ]

module _ {F : Type 0} ⦃number : Number F⦄ where
  open number use {of_ℕ, add, sub, mul, div, le}

  -- `parsePrice(rate) ?? 0`
  abbrev rate_or_zero : Option F → F
  rate_or_zero none = nought
  rate_or_zero (some rate) = rate

  -- The estimate for a request, at the rates of a price.
  unfoldable pub earned : HistoryEvent → F → F → F
  earned e input output =
      let million = of_ℕ 1000000 in
      add (mul (div (of_ℕ (or_zero e.input_tokens)) million) input)
        (mul (div (of_ℕ (or_zero e.output_tokens)) million) output)

  abbrev at_price : HistoryEvent → Option Price → F
  at_price e none = nought
  at_price e (some price) =
      earned e (rate_or_zero (parse_price price.input_per_million))
        (rate_or_zero (parse_price price.output_per_million))

  revenue_at : HistoryEvent → Prices → Option String → F
  revenue_at e prices none = nought
  revenue_at e prices (some model) =
      if has_text (some model) && e.usage_reported && is_priced F prices model
      then at_price e (lookup prices model)
      else nought

  unfoldable pub revenue_of : Prices → HistoryEvent → F
  unfolding revenue_at
  revenue_of prices e = revenue_at e prices e.model

  unfoldable pub throughput_of : HistoryEvent → Option F
  throughput_of e =
      if is_completed e && is_positive e.output_tokens && is_positive e.duration_ms
      then some
          (div (of_ℕ (or_zero e.output_tokens)) (div (of_ℕ (or_zero e.duration_ms)) (of_ℕ 1000)))
      else none

  unfoldable pub sum_revenue : List HistoryEvent → Prices → F
  sum_revenue events prices = foldl (λ total e. add total (revenue_of prices e)) nought events

  unfoldable pub percent_change : F → F → Option F
  percent_change current previous =
      if le previous nought
      then none
      else some (mul (div (sub current previous) previous) (of_ℕ 100))
