-- ===== src/Api.antt =====
-- The data that the dashboard's HTTP interface delivers (frontend/src/api.ts). A field that may be
-- missing is an `Option`; a missing flag is `false`, which the code treats alike.
pub mod Server
pub mod Names
pub mod Request
use relay_local.Prelude.{
  ℕ, Bool, false, String, Option, none, some, List, [], ◌∷◌, if◌then◌else◌, str_eq,
}

pub record HistoryEvent : Type 0 where
  pub time : String
  pub kind : String
  pub model : Option String
  pub status : Option String
  pub duration_ms : Option ℕ
  pub input_tokens : Option ℕ
  pub output_tokens : Option ℕ
  pub total_tokens : Option ℕ
  pub usage_reported : Bool
  pub total_reported : Bool

pub record Price : Type 0 where
  pub input_per_million : Option String
  pub output_per_million : Option String

abbrev pub Prices : Type 0
Prices = List (String × Price)

-- `table[key]` of an object used as a map.
module _ {ℓ} {V : Type ℓ} where
  unfoldable pub lookup : List (String × V) → String → Option V
  lookup [] k = none
  lookup ((j, v) ∷ m) k = let rest = lookup m k in if str_eq j k then some v else rest

-- `value || 0` of a number that may be missing.
abbrev pub or_zero : Option ℕ → ℕ
or_zero none = 0
or_zero (some n) = n

-- `value === text` of a text that may be missing.
abbrev pub is_text : Option String → String → Bool
is_text none t = false
is_text (some s) t = str_eq s t
