-- ===== src/Stats/Percentile/Rounding.antt =====
-- What the doubles of `percentile` (frontend/src/stats.ts) do to a percent of a length.
use native.Mathlib.Omega.{div_any}
use native.Mathlib.Nat.{
  mod-lt, mul_comm, mul_assoc, le_of_mul-le-mul_right, lt_of_mul-lt-mul_right, mul-le-mul_right,
}
use relay_local.Prelude.{
  ℕ, zero, suc, ◌+◌, ◌*◌, ◌/◌, ◌%◌, ◌^◌, ◌≤◌, ◌<◌, ◌≡◌, ◌⊎◌, inl, inr, refl, sym, ap, subst, ◌∙◌,
  false, ltb, Bool-cases, arith,
}
use relay_local.Stats.Percentile.{spacing, nearest, round, ceil_percent}

-- Rounding to 53 bits: the spacing is small against the number, unless the number has no more bits.
spacing_bound : (fuel x : ℕ) → (spacing fuel x ≡ 1) ⊎ (2 ^ 52 * spacing fuel x ≤ x)
unfolding spacing
spacing_bound zero x = inl refl
spacing_bound (suc fuel) x = elim (Bool-cases (ltb x (2 ^ 53))) [
  | inl small ↦ rw small (inl refl)
  | inr large ↦ rw large (elim (spacing_bound fuel (x / 2)) [
    | inl one ↦ inr (ground (arith, one))
    | inr more ↦ inr (omega (arith, more))
  ])
]

-- The nearest multiple is half a spacing away at most, and none of spacing 1.
nearest_cases :
    (q r d : ℕ) → ((nearest q r d ≡ q) × (2 * r ≤ d)) ⊎ ((nearest q r d ≡ q + 1) × (d ≤ 2 * r))
nearest_cases q r d = ground arith

times_suc : (q d : ℕ) → (q + 1) * d ≡ q * d + d
times_suc q d = omega arith

Near : ℕ → ℕ → ℕ → Type 0
Near d x y = (2 * y ≤ 2 * x + d) × (2 * x ≤ 2 * y + d)

nearest-Near : (q r d : ℕ) → r < d → Near d (q * d + r) (nearest q r d * d)
unfolding Near
nearest-Near q r d h = elim (nearest_cases q r d) [
  | inl (same, low) ↦ rw same (omega (arith, low), omega arith)
  | inr (next, high) ↦ rw (next, times_suc q d) (omega (arith, high), omega (arith, h))
]

spacing_pos : (fuel x : ℕ) → 1 ≤ spacing fuel x
unfolding spacing
spacing_pos zero x = omega arith
spacing_pos (suc fuel) x = ground (arith, spacing_pos fuel (x / 2))

-- Rounding a whole number.
whole : ℕ → ℕ → ℕ
whole x u = nearest (x / u) (x % u) u * u

round-whole : (x : ℕ) → round x 1 ≡ whole x (spacing 1024 (x / 1))
unfolding round whole
round-whole x =
    let u = spacing 1024 (x / 1) in
    let one : 1 * u ≡ u = omega arith in ap (λ d. nearest (x / d) (x % d) d * u) one

split : (x u : ℕ) → x / u * u + x % u ≡ x
split x u = ap (λ y. y + x % u) (mul_comm (x / u) u) ∙ div_any x u

whole-Near : (x u : ℕ) → 1 ≤ u → Near u x (whole x u)
unfolding whole
whole-Near x u h =
    subst (λ y. Near u y (whole x u)) (split x u) (nearest-Near (x / u) (x % u) u (mod-lt x h))

nearest-one : (q : ℕ) → nearest q 0 1 ≡ q
nearest-one q = refl

whole-one : (x : ℕ) → whole x 1 ≡ x
unfolding whole
whole-one x =
    let none : x % 1 ≡ 0 = omega arith in
    let all : x / 1 ≡ x = omega arith in rw (none, all) (omega arith)

-- A multiple of the spacing that is not passed is not passed by rounding.
nearest_le : (q r d c : ℕ) → r < d → q * d + r ≤ c * d → nearest q r d ≤ c
nearest_le q r d c h k = elim (nearest_cases q r d) [
  | inl (same, low) ↦
      rw same (le_of_mul-le-mul_right {m = q} {n = c} {k = d} (omega arith) (omega arith))
  | inr (next, high) ↦
      let less : q < c = lt_of_mul-lt-mul_right d (omega (arith, high)) in omega (arith, next, less)
]

powers : ℕ → ℕ
powers zero = 1
powers (suc j) = 2 * powers j

twice_divides :
    (s x j : ℕ)
    → ((i : ℕ) → x / 2 < 2 ^ 53 * powers i → (c : ℕ) × (c * s ≡ powers i))
    → x < 2 ^ 53 * powers j
    → ltb x (2 ^ 53) ≡ false
    → (c : ℕ) × (c * (2 * s) ≡ powers j)
unfolding powers
twice_divides s x zero rest h large = absurd (ground arith)
twice_divides s x (suc j) rest h large =
    let (c, e) = rest j (omega arith) in
    (
      c,
      sym (mul_assoc c 2 s)
          ∙ (ap (λ y. y * s) (mul_comm c 2) ∙ (mul_assoc 2 c s ∙ ap (λ y. 2 * y) e)),
    )

spacing_divides : (fuel j x : ℕ) → x < 2 ^ 53 * powers j → (c : ℕ) × (c * spacing fuel x ≡ powers j)
unfolding spacing
spacing_divides zero j x h = (powers j, omega arith)
spacing_divides (suc fuel) j x h = elim (Bool-cases (ltb x (2 ^ 53))) [
  | inl small ↦ rw small (powers j, omega arith)
  | inr large ↦
      rw large
        (twice_divides (spacing fuel (x / 2)) x j (λ i k. spacing_divides fuel i (x / 2) k) h large)
]

powers-60 : powers 60 ≡ 2 ^ 60
unfolding powers
powers-60 = refl

-- A whole number of 2^60 units is not passed by what is below it.
round_le : (x k : ℕ) → x < 2 ^ 113 → x ≤ k * 2 ^ 60 → round x 1 ≤ k * 2 ^ 60
unfolding whole
round_le x k h below =
    let u = spacing 1024 (x / 1) in
    let (c, e) = spacing_divides 1024 60 (x / 1) (rw powers-60 (omega arith)) in
    let multiple : k * 2 ^ 60 ≡ k * c * u =
      ap (λ y. k * y) (sym (e ∙ powers-60)) ∙ sym (mul_assoc k c u) in
    let near : nearest (x / u) (x % u) u ≤ k * c =
      nearest_le (x / u) (x % u) u (k * c) (mod-lt x (spacing_pos 1024 (x / 1)))
        (omega (arith, split x u, below, multiple)) in
    let most = mul-le-mul_right u near in omega (arith, most, multiple, round-whole x)

-- A relative error of 2^-53.
pub round_error :
    (x : ℕ) → (2 ^ 53 * round x 1 ≤ 2 ^ 53 * x + x) × (2 ^ 53 * x ≤ 2 ^ 53 * round x 1 + x)
unfolding Near
round_error x = elim (spacing_bound 1024 (x / 1)) [
  | inl one ↦
      let same = round-whole x ∙ ap (whole x) one ∙ whole-one x in
      (omega (arith, same), omega (arith, same))
  | inr small ↦
      let (up, down) =
        subst (Near (spacing 1024 (x / 1)) x) (sym (round-whole x))
          (whole-Near x (spacing 1024 (x / 1)) (spacing_pos 1024 (x / 1))) in
      (omega (arith, up, small), omega (arith, down, small))
]

percent_50 : round (50 * 2 ^ 60) 100 ≡ 2 ^ 59
unfolding round spacing
percent_50 = refl

percent_95 : round (95 * 2 ^ 60) 100 ≡ 1095275429376504576
unfolding round spacing
percent_95 = refl

-- The two percents in use, of the length of any array.
pub ceil_percent-50 : (n : ℕ) → n < 2 ^ 32 → ceil_percent 50 n ≡ (50 * n + 99) / 100
unfolding ceil_percent
ceil_percent-50 n h =
    let (up, down) = round_error (2 ^ 59 * n) in
    let most = round_le (2 ^ 59 * n) ((50 * n + 99) / 100) (omega arith) (omega arith) in
    rw percent_50 (omega (arith, down, most))

pub ceil_percent-95 : (n : ℕ) → n < 2 ^ 32 → ceil_percent 95 n ≡ (95 * n + 99) / 100
unfolding ceil_percent
ceil_percent-95 n h =
    let x = 1095275429376504576 * n in
    let (up, down) = round_error x in
    let most = round_le x ((95 * n + 99) / 100) (omega arith) (omega arith) in
    rw percent_95 (omega (arith, down, most))

pub ceil_percent_mono : (n : ℕ) → ceil_percent 50 n ≤ ceil_percent 95 n
unfolding ceil_percent
ceil_percent_mono n =
    let (up, down) = round_error (2 ^ 59 * n) in
    let (up', down') = round_error (1095275429376504576 * n) in
    rw (percent_50, percent_95) (omega (arith, up, down'))
