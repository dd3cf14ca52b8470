-- ===== src/Finance/Draft.antt =====
-- How the draft of the asking prices follows the server and the user.
use relay_local.Prelude.{
  ◌≡◌, refl, ap, ◌∙◌, Bool, true, false, Option, none, some, List, [], ◌∷◌, String, foldl,
  if◌then◌else◌, str_eq, str_eq_iff, arith, All, Bool-cases, inl, inr,
}
use relay_local.Api.{Price, Prices, lookup}
use relay_local.Finance.{put, merge, price_or_none, set_field, Change, adopt, edit, change}

lookup-put :
    (m : Prices) (k : String) (v : Price) (id : String)
    → lookup (put m k v) id ≡ (if str_eq k id then some v else lookup m id)
unfolding put lookup
lookup-put [] k v id = refl
lookup-put ((j, u) ∷ m) k v id =
    ground (arith, str_eq_iff j k, str_eq_iff j id, str_eq_iff k id, lookup-put m k v id)

-- `first ?? second`
abbrev pub or_next : Option Price → Option Price → Option Price
or_next none p = p
or_next (some q) p = some q

lookup-merge :
    (below above : Prices) (id : String)
    → lookup (merge below above) id ≡ or_next (lookup above id) (lookup below id)
unfolding merge lookup
lookup-merge below [] id = refl
lookup-merge below ((k, v) ∷ above) id =
    lookup-put (merge below above) k v id ∙ elim (Bool-cases (str_eq k id)) [
      | inl same ↦ rw same refl
      | inr other ↦ rw other (lookup-merge below above id)
    ]

-- One model's price in the draft: a price of the server is taken only while there is none, and
-- typing changes the field of the price that is there.
abbrev pub follow : String → Option Price → Change → Option Price
follow id price (adopt server) = or_next price (lookup server id)
follow id price (edit model field value) =
    if str_eq model id then some (set_field field value (price_or_none price)) else price

change-follow :
    (draft : Prices) (c : Change) (id : String)
    → lookup (change draft c) id ≡ follow id (lookup draft id) c
unfolding change
change-follow draft (adopt server) id = lookup-merge server draft id
change-follow draft (edit model field value) id =
    lookup-put draft model (set_field field value (price_or_none (lookup draft model))) id
    ∙ elim (Bool-cases (str_eq model id)) [
      | inl same ↦ rw (same, (str_eq_iff model id).0 same) refl
      | inr other ↦ rw other refl
    ]

foldl-change :
    (cs : List Change) (draft : Prices) (id : String)
    → lookup (foldl change draft cs) id ≡ foldl (follow id) (lookup draft id) cs
foldl-change [] draft id = refl
foldl-change (c ∷ cs) draft id =
    foldl-change cs (change draft c) id
    ∙ ap (λ p. foldl (follow id) p cs) (change-follow draft c id)

-- The draft opens with the prices that the page has, and then, for each model by itself, whatever
-- happens to the others: prices that the server sends later are taken only while the draft has none
-- for the model, and typing changes one field of the price that is there.
pub draft-follows :
    (opening : Prices) (cs : List Change) (id : String)
    → lookup (foldl change opening cs) id ≡ foldl (follow id) (lookup opening id) cs
draft-follows opening cs id = foldl-change cs opening id

abbrev pub is_adopt : Change → Bool
is_adopt (adopt server) = true
is_adopt (edit model field value) = false

foldl-adopt :
    (id : String) (p : Price) (cs : List Change)
    → All (λ c. is_adopt c ≡ true) cs
    → foldl (follow id) (some p) cs ≡ some p
foldl-adopt id p [] h = refl
foldl-adopt id p (adopt server ∷ cs) (_, h) = foldl-adopt id p cs h
foldl-adopt id p (edit model field value ∷ cs) (k, h) = ground arith

-- A price that the draft has is kept however often the server sends others, though nobody has
-- begun to type.
pub draft-keeps :
    (draft : Prices) (cs : List Change) (id : String) {p : Price}
    → lookup draft id ≡ some p
    → All (λ c. is_adopt c ≡ true) cs
    → lookup (foldl change draft cs) id ≡ some p
draft-keeps draft cs id {p} e h =
    foldl-change cs draft id ∙ ap (λ q. foldl (follow id) q cs) e ∙ foldl-adopt id p cs h
