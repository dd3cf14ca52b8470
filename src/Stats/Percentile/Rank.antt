-- ===== src/Stats/Percentile/Rank.antt =====
-- `percentile` is the nearest-rank percentile.
use relay_local.Prelude.{
  ℕ, suc, ◌+◌, ◌-◌, ◌*◌, ◌/◌, ◌^◌, min, ◌≤◌, ◌<◌, ◌≡◌, ◌⊎◌, inl, inr, Bool, true, not, some, List,
  [], ◌∷◌, arith, length, get_elem?-lt,
}
use relay_local.Prelude.Sort.{
  count_by, IsOrder, sort, count_by-sort, length-sort, sort-IsSorted, rank_bounds,
  IsSorted-get_elem?,
}
use relay_local.Stats.Percentile.{ceil_percent, rank_index, percentile}
use relay_local.Stats.Percentile.Rounding.{ceil_percent-50, ceil_percent-95}

module _ {ℓ} {A : Type ℓ} (le : A → A → Bool) where
  -- There is a percentile unless there is no value.
  pub percentile_total :
      (v : A) (vs : List A) (p : ℕ) → (r : A) × (percentile le (v ∷ vs) p ≡ some r)
  unfolding percentile
  percentile_total v vs p =
      get_elem?-lt (sort le (v ∷ vs)) (rank_index p (length (v ∷ vs)))
        (omega (arith, length-sort le (v ∷ vs)))

rank_index-lt : (p n : ℕ) → rank_index p (suc n) < suc n
rank_index-lt p n = omega arith

index_bounds :
    (m n : ℕ)
    → 1 ≤ m
    → m ≤ 100 * suc n
    → let i = min (suc n - 1) ((m + 99) / 100 - 1) in (m ≤ 100 * (i + 1)) × (100 * i < m)
index_bounds m n low high = omega arith

-- The percents that the dashboard asks for.
abbrev pub IsAsked : ℕ → Type 0
IsAsked p = (p ≡ 50) ⊎ (p ≡ 95)

ceil_percent-asked : (p n : ℕ) → IsAsked p → n < 2 ^ 32 → ceil_percent p n ≡ (p * n + 99) / 100
ceil_percent-asked p n (inl e) h = rw e (ceil_percent-50 n h)
ceil_percent-asked p n (inr e) h = rw e (ceil_percent-95 n h)

-- Where such a percent puts the result.
rank_index_bounds :
    (p n : ℕ)
    → IsAsked p
    → suc n < 2 ^ 32
    → (p * suc n ≤ 100 * (rank_index p (suc n) + 1)) × (100 * rank_index p (suc n) < p * suc n)
rank_index_bounds p n asked small =
    let (low, high) : (1 ≤ p * suc n) × (p * suc n ≤ 100 * suc n) = elim asked [
      | inl e ↦ rw e (omega arith, omega arith)
      | inr e ↦ rw e (omega arith, omega arith)
    ] in
    rw (ceil_percent-asked p (suc n) asked small) (index_bounds (p * suc n) n low high)

rank_index_mono :
    (p q n : ℕ) → ceil_percent p n ≤ ceil_percent q n → rank_index p n ≤ rank_index q n
rank_index_mono p q n h = omega arith

module _ {ℓ} {A : Type ℓ} {le : A → A → Bool} where
  module _ (order : IsOrder le) where
    -- For the percents p that are asked for, 50 and 95, of n values in any order, fewer than 2^32 as in
    -- any array, whose test is total and transitive: at least p percent of the values are up to the
    -- result, and fewer than p percent are below it, with the index as doubles round it.
    pub percentile_rank :
        (values : List A) (p : ℕ) {v : A}
        → IsAsked p
        → length values < 2 ^ 32
        → percentile le values p ≡ some v
        → (p * length values ≤ 100 * count_by (λ x. le x v) values)
          × (100 * count_by (λ x. not (le v x)) values < p * length values)
    unfolding percentile
    percentile_rank [] p asked small e = ground arith
    percentile_rank (x ∷ xs) p {v} asked small e =
        let all : List A = x ∷ xs in
        let (up_to, below) =
          rank_bounds le order (sort le all) (rank_index p (length all))
            (sort-IsSorted le order all) e in
        let (enough, few) = rank_index_bounds p (length xs) asked small in
        (
          omega (arith, up_to, enough, count_by-sort le (λ y. le y v) all),
          omega (arith, below, few, count_by-sort le (λ y. not (le v y)) all),
        )

    -- Where the test is total and transitive, a percent whose index is no lower gives no smaller value.
    pub percentile_mono :
        (values : List A) (p q : ℕ) {v w : A}
        → ceil_percent p (length values) ≤ ceil_percent q (length values)
        → percentile le values p ≡ some v
        → percentile le values q ≡ some w
        → le v w ≡ true
    unfolding percentile
    percentile_mono [] p q h e f = ground arith
    percentile_mono (x ∷ xs) p q h e f =
        IsSorted-get_elem? le order (sort le (x ∷ xs)) (rank_index p (length (x ∷ xs)))
          (rank_index q (length (x ∷ xs))) (sort-IsSorted le order (x ∷ xs)) e f
          (rank_index_mono p q (length (x ∷ xs)) h)
