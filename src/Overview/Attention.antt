-- ===== src/Overview/Attention.antt =====
-- When the overview says that all is well.
use relay_local.Prelude.{
  ℕ, ◌≡◌, refl, sym, ap, ◌∙◌, Bool, true, false, not, ◌&&◌, ◌||◌, Option, some, none, if◌then◌else◌,
  List, [], ◌∷◌, ◌++◌, String, map, length, filter, ltb, arith,
}
use relay_local.Number.{Number}
use relay_local.Api.{HistoryEvent, Prices}
use relay_local.Api.Server.{Backend, Offers}
use relay_local.Stats.Price.{is_priced}
use relay_local.Finance.{own_models, models_of, is_offered, is_offered_unpriced, overview_unpriced}
use relay_local.Overview.{Card, all_clear, calm_title, attention, any_ready, card_of}

abbrev pub is_all_clear : Card → Bool
is_all_clear (all_clear has_backends) = true
is_all_clear _ = false

-- The title of the card under "All clear", if it is that card.
abbrev pub title_of : Card → Option String
title_of (all_clear has_backends) = some (calm_title has_backends)
title_of _ = none

abbrev pub none_passes {ℓ} : {A : Type ℓ} → (A → Bool) → List A → Bool
none_passes p [] = true
none_passes p (x ∷ xs) = not (p x) && none_passes p xs

none_passes-append :
    {A : Type 0} (p : A → Bool) (xs ys : List A)
    → none_passes p (xs ++ ys) ≡ (none_passes p xs && none_passes p ys)
none_passes-append p [] ys = refl
none_passes-append p (x ∷ xs) ys = ground (arith, none_passes-append p xs ys)

abbrev is_empty {ℓ} : {A : Type ℓ} → List A → Bool
is_empty [] = true
is_empty (x ∷ xs) = false

is_empty-append : {A : Type 0} (xs ys : List A) → is_empty (xs ++ ys) ≡ (is_empty xs && is_empty ys)
is_empty-append [] ys = refl
is_empty-append (x ∷ xs) ys = refl

is_empty-filter :
    {A : Type 0} (p : A → Bool) (xs : List A) → is_empty (filter p xs) ≡ none_passes p xs
is_empty-filter p [] = refl
is_empty-filter p (x ∷ xs) = ground (arith, is_empty-filter p xs)

is_all_clear-attention :
    (digits : ℕ → String) (unpriced : List String) (tokens : ℕ) (ready has : Bool)
    → is_all_clear (attention digits unpriced tokens ready has)
      ≡ ((not has || ready) && is_empty unpriced)
unfolding attention
is_all_clear-attention digits [] tokens ready has = ground arith
is_all_clear-attention digits (x ∷ unpriced) tokens ready has = ground arith

title_of-attention :
    (digits : ℕ → String) (unpriced : List String) (tokens : ℕ) (ready has : Bool)
    → title_of (attention digits unpriced tokens ready has)
      ≡ (if (not has || ready) && is_empty unpriced then some (calm_title has) else none)
unfolding attention
title_of-attention digits [] tokens ready has = ground arith
title_of-attention digits (x ∷ unpriced) tokens ready has = ground arith

module _ (F : Type 0) ⦃number : Number F⦄ (prices : Prices) (offers : Offers) where
  is_empty-overview_unpriced :
      (bs : List Backend)
      → is_empty (overview_unpriced F prices offers bs)
        ≡ none_passes (is_offered_unpriced F prices offers) (models_of bs)
  unfolding overview_unpriced models_of
  is_empty-overview_unpriced [] = refl
  is_empty-overview_unpriced (b ∷ bs) =
      let p = is_offered_unpriced F prices offers in
      let own = own_models b b.models in
      is_empty-append (filter p own) (overview_unpriced F prices offers bs)
      ∙ rw (is_empty-filter p own, is_empty-overview_unpriced bs)
          (sym (none_passes-append p own (models_of bs)))

  is_empty-map : {A B : Type 0} (f : A → B) (xs : List A) → is_empty (map f xs) ≡ is_empty xs
  is_empty-map f [] = refl
  is_empty-map f (x ∷ xs) = refl

  -- The overview says that all is clear exactly if no runtime is connected or some runtime is ready,
  -- and no model of any runtime is on offer without a price; and the title is then that every offered
  -- model has a price exactly if there is a runtime, and else that one is to be connected.
  pub is_all_clear-card_of :
      (digits : ℕ → String) (backends : List Backend) (today : List HistoryEvent)
      → let has = ltb 0 (length backends) in
        let card = card_of F digits prices offers backends today in
        let calm =
          (not has || any_ready backends)
          && none_passes
              (λ (b, m). is_offered offers (b, m) && not (is_priced F prices m.id))
              (models_of backends) in
        (is_all_clear card ≡ calm)
        × (title_of card ≡ (if calm then some (calm_title has) else none))
  unfolding card_of
  is_all_clear-card_of digits backends today =
      let has = ltb 0 (length backends) in
      let unpriced =
        is_empty-map (λ (b, m). m.name) (overview_unpriced F prices offers backends)
        ∙ is_empty-overview_unpriced backends in
      (
        is_all_clear-attention digits _ _ (any_ready backends) has
            ∙ ap (λ e. (not has || any_ready backends) && e) unpriced,
        title_of-attention digits _ _ (any_ready backends) has
            ∙ ap (λ e. if (not has || any_ready backends) && e then some (calm_title has) else none)
                unpriced,
      )
