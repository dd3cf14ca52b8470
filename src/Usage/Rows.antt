-- ===== src/Usage/Rows.antt =====
-- The table of the usage by model.
use relay_local.Prelude.{
  ℕ, ◌+◌, ◌≡◌, refl, ◌∙◌, inl, inr, Bool, List, [], ◌∷◌, length, filter, sum_by, Bool-cases, arith,
}
use relay_local.Prelude.Sort.{sort, insert, IsOrder, IsSorted, sort-IsSorted}
use relay_local.Number.{Number}
use relay_local.Api.{HistoryEvent, Prices}
use relay_local.Stats.Events.{request_events, has_text}
use relay_local.Stats.PerModel.{per_model}
use relay_local.Stats.PerModel.Rows.{per_model-partition}
use relay_local.Usage.{uses_more, usage_rows}

module _ {A : Type 0} (le : A → A → Bool) (f : A → ℕ) where
  sum_by-insert : (x : A) (ys : List A) → sum_by f (insert le x ys) ≡ f x + sum_by f ys
  unfolding insert
  sum_by-insert x [] = refl
  sum_by-insert x (y ∷ ys) = elim (Bool-cases (le x y)) [
    | inl first ↦ rw first refl
    | inr later ↦ rw later (omega (arith, sum_by-insert x ys))
  ]

  -- A sort keeps the total of a figure.
  sum_by-sort : (xs : List A) → sum_by f (sort le xs) ≡ sum_by f xs
  unfolding sort
  sum_by-sort [] = refl
  sum_by-sort (x ∷ xs) = omega (arith, sum_by-insert x (sort le xs), sum_by-sort xs)

uses_more-IsOrder : (F : Type 0) → IsOrder (uses_more {F = F})
uses_more-IsOrder F = record { total = λ x y. ground arith; trans = λ x y z h k. ground arith }

-- The rows are in the order of their tokens, the largest first, and their requests are together the
-- requests of the history that name a model.
pub usage_rows_lem :
    (F : Type 0) ⦃number : Number F⦄ (events : List HistoryEvent) (prices : Prices)
    → let rows = usage_rows {F = F} events prices in
      IsSorted uses_more rows
      × (sum_by (λ row. row.requests) rows
          ≡ length (filter (λ e. has_text e.model) (request_events events)))
unfolding usage_rows
usage_rows_lem F events prices = (
  sort-IsSorted uses_more (uses_more-IsOrder F) (per_model (request_events events) prices),
  sum_by-sort uses_more (λ row. row.requests) (per_model {F = F} (request_events events) prices)
      ∙ (per_model-partition F (request_events events) prices).2,
)
