-- ===== src/Finance/Unpriced.antt =====
-- Priced and unpriced tokens of a day, and what the overview and the Finance view say of them.
use relay_local.Prelude.{
  ◌+◌, ◌≤◌, ◌≡◌, refl, sym, ap, ◌∙◌, Bool, true, false, not, ◌||◌, Option, none, some, List, [],
  ◌∷◌, ◌++◌, String, foldl-sum_by_zero, filter, filter-append, str_eq, str_eq_iff, sum_by,
  Bool-cases, inl, inr, arith,
}
use relay_local.Number.{Number}
use relay_local.Api.{HistoryEvent, Prices}
use relay_local.Api.Server.{Backend, Model, Offers}
use relay_local.Stats.Events.{tokens_of}
use relay_local.Stats.Price.{is_priced}
use relay_local.Finance.{
  own_models, models_of, any_model, sum_tokens, names_priced, priced_tokens, unpriced_models,
  unpriced_tokens, is_offered_unpriced, overview_unpriced, overview_unpriced_tokens,
}

sum_tokens-sum_by : (events : List HistoryEvent) → sum_tokens events ≡ sum_by tokens_of events
unfolding sum_tokens
sum_tokens-sum_by events = foldl-sum_by_zero (λ n e. n + tokens_of e) tokens_of (λ n e. refl) events

-- Two tests that no event passes both: their sums fit into the sum of all.
sum_by-disjoint :
    (p q : HistoryEvent → Bool)
    → ((e : HistoryEvent) → p e ≡ true → q e ≡ false)
    → (es : List HistoryEvent)
    → sum_by tokens_of (filter p es) + sum_by tokens_of (filter q es) ≤ sum_by tokens_of es
sum_by-disjoint p q h [] = omega arith
sum_by-disjoint p q h (e ∷ es) = ground (arith, h e, sum_by-disjoint p q h es)

-- One test implies another: its sum is no larger.
sum_by-weaker :
    (p q : HistoryEvent → Bool)
    → ((e : HistoryEvent) → p e ≡ true → q e ≡ true)
    → (es : List HistoryEvent) → sum_by tokens_of (filter p es) ≤ sum_by tokens_of (filter q es)
sum_by-weaker p q h [] = omega arith
sum_by-weaker p q h (e ∷ es) = ground (arith, h e, sum_by-weaker p q h es)

any_model-append :
    (xs ys : List (Backend × Model)) (name : Option String)
    → any_model (xs ++ ys) name ≡ (any_model xs name || any_model ys name)
any_model-append [] ys name = refl
any_model-append ((b, m) ∷ xs) ys name = ground (arith, any_model-append xs ys name)

any_model-weaker :
    (p q : Backend × Model → Bool)
    → ((bm : Backend × Model) → p bm ≡ true → q bm ≡ true)
    → (ms : List (Backend × Model)) (name : Option String) → any_model (filter p ms) name ≡ true
    → any_model (filter q ms) name ≡ true
any_model-weaker p q h [] name k = k
any_model-weaker p q h ((b, m) ∷ ms) name k =
    ground (arith, h (b, m), any_model-weaker p q h ms name)

or_weaker :
    {a b c d : Bool}
    → (a ≡ true → c ≡ true)
    → (b ≡ true → d ≡ true)
    → (a || b) ≡ true
    → (c || d) ≡ true
or_weaker {a = true} f g h = rw (f refl) refl
or_weaker {a = false} {c = true} f g h = refl
or_weaker {a = false} {c = false} f g h = g h

module _ (F : Type 0) ⦃number : Number F⦄ (prices : Prices) where
  abbrev is_unpriced : Backend × Model → Bool
  is_unpriced (b, m) = not (is_priced F prices m.id)

  other_model :
      (model id : String)
      → is_priced F prices model ≡ true
      → is_priced F prices id ≡ false
      → str_eq model id ≡ false
  other_model model id h k = elim (Bool-cases (str_eq model id)) [
    | inl same ↦
        let e : model ≡ id = (str_eq_iff model id).0 same in
        let clash : true ≡ false = sym h ∙ ap (is_priced F prices) e ∙ k in ground arith
    | inr other ↦ other
  ]

  any_model-priced :
      (ms : List (Backend × Model)) (model : String)
      → is_priced F prices model ≡ true
      → any_model (filter is_unpriced ms) (some model) ≡ false
  any_model-priced [] model h = refl
  any_model-priced ((b, m) ∷ ms) model h = elim (Bool-cases (is_priced F prices m.id)) [
    | inl priced ↦ rw priced (any_model-priced ms model h)
    | inr unpriced ↦
        rw unpriced (rw (other_model model m.id h unpriced) (any_model-priced ms model h))
  ]

  not_both_names :
      (backends : List Backend) (name : Option String)
      → names_priced F prices name ≡ true
      → any_model (filter is_unpriced (models_of backends)) name ≡ false
  not_both_names backends none h = ground arith
  not_both_names backends (some model) h =
      any_model-priced (models_of backends) model (ground arith)

  not_both :
      (backends : List Backend) (e : HistoryEvent)
      → names_priced F prices e.model ≡ true
      → any_model (unpriced_models F prices backends) e.model ≡ false
  unfolding unpriced_models
  not_both backends e h = not_both_names backends e.model h

  offered_too :
      (offers : Offers) (backends : List Backend) (name : Option String)
      → any_model (overview_unpriced F prices offers backends) name ≡ true
      → any_model (unpriced_models F prices backends) name ≡ true
  unfolding overview_unpriced unpriced_models models_of
  offered_too offers [] name h = h
  offered_too offers (b ∷ bs) name h =
      let own = own_models b b.models in
      let weaker =
        any_model-weaker (is_offered_unpriced F prices offers) is_unpriced
          (λ (b, m) k. ground arith) own name in
      ap (λ ms. any_model ms name) (filter-append is_unpriced own (models_of bs))
      ∙ any_model-append (filter is_unpriced own) (filter is_unpriced (models_of bs)) name
      ∙ or_weaker weaker (offered_too offers bs name) (
          sym (
            any_model-append (filter (is_offered_unpriced F prices offers) own)
              (overview_unpriced F prices offers bs) name)
          ∙ h)

  -- Of the tokens of a day, those that the blended rate is computed from and those that the Finance
  -- view calls unpriced are of different requests, so together they are at most all tokens of the
  -- day; and the overview, which counts models on offer only, never shows more unpriced tokens.
  pub unpriced_tokens-le :
      (offers : Offers) (backends : List Backend) (today : List HistoryEvent)
      → (priced_tokens F prices today + unpriced_tokens F prices backends today ≤ sum_tokens today)
        × (overview_unpriced_tokens F prices offers backends today
            ≤ unpriced_tokens F prices backends today)
  unfolding priced_tokens unpriced_tokens overview_unpriced_tokens
  unpriced_tokens-le offers backends today =
      let priced = λ (e : HistoryEvent). names_priced F prices e.model in
      let unpriced = λ (e : HistoryEvent). any_model (unpriced_models F prices backends) e.model in
      let offered =
        λ (e : HistoryEvent). any_model (overview_unpriced F prices offers backends) e.model in
      (
        omega (
          arith,
          sum_tokens-sum_by (filter priced today),
          sum_tokens-sum_by (filter unpriced today),
          sum_tokens-sum_by today,
          sum_by-disjoint priced unpriced (not_both backends) today,
        ),
        omega (
          arith,
          sum_tokens-sum_by (filter offered today),
          sum_tokens-sum_by (filter unpriced today),
          sum_by-weaker offered unpriced (λ e. offered_too offers backends e.model) today,
        ),
      )
