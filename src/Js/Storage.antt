-- ===== src/Js/Storage.antt =====
-- What is read back from the storage after it was written.
use relay_local.Prelude.{◌≡◌, refl, sym, ap, subst, some, List, [], ◌∷◌, if◌then◌else◌}
use relay_local.Js.{Value, to_list, from_list, Json, IsJson, IsPlain, found, stored_value}

pub to_list-from_list : (vs : List Value) → to_list (from_list vs) ≡ vs
to_list-from_list [] = refl
to_list-from_list (v ∷ vs) = ap (λ ws. v ∷ ws) (to_list-from_list vs)

pub stored_value-stringify :
    (json : Json)
    → IsJson json
    → (v : Value) → IsPlain v
    → stored_value json (found (json.stringify v)) ≡ some v
unfolding stored_value
stored_value-stringify json laws v plain =
    subst (λ b. json.parse (if b then "null" else json.stringify v) ≡ some v)
      (sym (laws.stringify_nonempty v plain)) (laws.parse-stringify v plain)
