-- ===== src/Number.antt =====
-- The floating-point values of the dashboard: JavaScript's `number` where it holds rates and sums of
-- money. Only operations are asked for, and no law of arithmetic: rounding may be what it is. Counts
-- (tokens, milliseconds, indices) are plain naturals elsewhere, which doubles hold exactly below 2^53.
use relay_local.Prelude.{ℕ, Bool, String}

pub record Number (F : Type 0) : Type 0 where
  pub of_ℕ : ℕ → F
  pub add : F → F → F
  pub sub : F → F → F
  pub mul : F → F → F
  pub div : F → F → F
  pub lt : F → F → Bool
  pub le : F → F → Bool
  pub of_string : String → F  -- the conversion `Number(text)`
  pub is_finite : F → Bool
