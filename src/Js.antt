-- ===== src/Js.antt =====
-- Values of the language that are read back from the browser's storage, and that storage.
pub mod Storage
use relay_local.Prelude.{
  ◌≡◌, Bool, true, false, Option, none, some, List, [], ◌∷◌, String, str_eq, if◌then◌else◌,
}

-- The contents of an object are never read, so they are left out. A number is its text, `String(n)`:
-- that of both zeros is "0".
mutual
  pub data Value : Type 0 where
    undefined : Value
    null : Value
    bool : Bool → Value
    number : String → Value
    text : String → Value
    array : Values → Value
    object : Value

  pub data Values : Type 0 where
    nil : Values
    cons : Value → Values → Values

abbrev pub to_list : Values → List Value
to_list nil = []
to_list (cons v vs) = v ∷ to_list vs

abbrev pub from_list : List Value → Values
from_list [] = nil
from_list (v ∷ vs) = cons v (from_list vs)

-- `value === t`
abbrev pub is_text : Value → String → Bool
is_text (text s) t = str_eq s t
is_text _ t = false

-- A value as a condition.
abbrev pub is_true : Value → Bool
is_true undefined = false
is_true null = false
is_true (bool b) = b
is_true (number n) = if str_eq n "0" then false else if str_eq n "NaN" then false else true
is_true (text s) = if str_eq s "" then false else true
is_true (array vs) = true
is_true object = true

-- `JSON.parse`, where `none` is an exception, and `JSON.stringify`.
pub record Json : Type 0 where
  pub parse : String → Option Value
  pub stringify : Value → String

-- `localStorage.getItem(key)`: an exception, `null`, or a text.
pub data Item : Type 0 where
  unavailable : Item
  missing : Item
  found : String → Item

-- `JSON.parse(localStorage.getItem(key) || 'null')`
unfoldable pub stored_value : Json → Item → Option Value
stored_value json unavailable = none
stored_value json missing = json.parse "null"
stored_value json (found s) = json.parse (if str_eq s "" then "null" else s)

-- Values that `JSON.stringify` writes in full; of numbers nothing is asked.
unfoldable mutual
  pub IsPlain : Value → Type 0
  IsPlain undefined = ⊥
  IsPlain null = Unit
  IsPlain (bool b) = Unit
  IsPlain (number n) = ⊥
  IsPlain (text s) = Unit
  IsPlain (array vs) = ArePlain vs
  IsPlain object = ⊥

  pub ArePlain : Values → Type 0
  ArePlain nil = Unit
  ArePlain (cons v vs) = IsPlain v × ArePlain vs

-- What JSON promises: a plain value is read back as it was written, and its text is not empty.
pub record IsJson (json : Json) : Type 0 where
  pub parse-stringify : (v : Value) → IsPlain v → json.parse (json.stringify v) ≡ some v
  pub stringify_nonempty : (v : Value) → IsPlain v → str_eq (json.stringify v) "" ≡ false
