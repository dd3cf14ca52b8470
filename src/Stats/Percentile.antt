-- ===== src/Stats/Percentile.antt =====
-- `percentile` of frontend/src/stats.ts, over any values that a test orders.
pub mod Rank
pub mod Rounding
use relay_local.Prelude.{
  ℕ, zero, suc, ◌+◌, ◌-◌, ◌*◌, ◌/◌, ◌%◌, ◌^◌, min, Bool, ◌&&◌, ◌||◌, ltb, ◌==◌, if◌then◌else◌,
  Option, none, some, List, [], ◌∷◌, length, get_elem?,
}
use relay_local.Prelude.Sort.{sort}

-- The distance of two neighbouring doubles (of 53 bits) about `x`, for `x` a whole number with at most
-- `fuel` bits above these.
unfoldable pub spacing : ℕ → ℕ → ℕ
spacing zero x = 1
spacing (suc fuel) x = let rest = spacing fuel (x / 2) in if ltb x (2 ^ 53) then 1 else 2 * rest

-- The quotient `q` with the remainder `r` of a division by `d`, to the nearest whole number and to the
-- even one of two.
abbrev pub nearest : ℕ → ℕ → ℕ → ℕ
nearest q r d = if ltb d (2 * r) || (2 * r == d && q % 2 == 1) then q + 1 else q

-- The double nearest to `a / b`. Beyond the largest double there are no lengths of arrays.
unfoldable pub round : ℕ → ℕ → ℕ
round a b = let u = spacing 1024 (a / b) in nearest (a / (b * u)) (a % (b * u)) (b * u) * u

-- `Math.ceil((p / 100) * n)` in doubles, which are counted in units of 2^-60: a hundredth and more is
-- then at least 2^53 units, so each double of the computation is a whole number of them.
unfoldable pub ceil_percent : ℕ → ℕ → ℕ
ceil_percent p n = (round (round (p * 2 ^ 60) 100 * n) 1 + (2 ^ 60 - 1)) / 2 ^ 60

-- `-` stops at 0, as `Math.max(0, … - 1)` does.
abbrev pub rank_index : ℕ → ℕ → ℕ
rank_index p n = min (n - 1) (ceil_percent p n - 1)

unfoldable pub percentile {ℓ} : {A : Type ℓ} → (A → A → Bool) → List A → ℕ → Option A
percentile le [] p = none
percentile le (v ∷ vs) p = get_elem? (sort le (v ∷ vs)) (rank_index p (length (v ∷ vs)))
