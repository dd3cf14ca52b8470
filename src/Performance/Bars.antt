-- ===== src/Performance/Bars.antt =====
-- The bars of the durations stay in their tracks, in order.
use relay_local.Prelude.{
  ℕ, max, ◌≤◌, ◌≡◌, Bool, true, Option, none, some, List, [], ◌∷◌, map, filter, leb, is_some,
  length, All, Bool-cases, inl, inr, leb→le, All-imp, arith,
}
use relay_local.Prelude.Sort.{sort, insert, IsOrder, IsSorted, sort-IsSorted}
use relay_local.Number.{Number}
use relay_local.Api.{HistoryEvent, Prices, or_zero}
use relay_local.Stats.Events.{completed}
use relay_local.Stats.Percentile.{percentile}
use relay_local.Stats.Percentile.Rounding.{ceil_percent_mono}
use relay_local.Stats.Percentile.Rank.{percentile_total, percentile_mono}
use relay_local.Stats.PerModel.{ModelStats, per_model, durations_of}
use relay_local.Stats.PerModel.Groups.{events_of_model}
use relay_local.Stats.PerModel.Rows.{Describes, per_model-partition}
use relay_local.Performance.{first_of, max_of, is_shorter, by_duration, max_duration}

leb-IsOrder : IsOrder leb
leb-IsOrder = record { total = λ x y. ground arith; trans = λ x y z h k. ground arith }

ordered :
    {p q : Option ℕ} {m n : ℕ} → p ≡ some m → q ≡ some n → leb m n ≡ true → or_zero p ≤ first_of q p
ordered h k le = rw (h, k) (leb→le _ _ le)

p50_le_p95 :
    (ds : List ℕ)
    → or_zero (percentile leb ds 50) ≤ first_of (percentile leb ds 95) (percentile leb ds 50)
unfolding percentile
p50_le_p95 [] = omega arith
p50_le_p95 (d ∷ ds) =
    let (m, at_50) = percentile_total leb d ds 50 in
    let (n, at_95) = percentile_total leb d ds 95 in
    ordered at_50 at_95
      (percentile_mono leb-IsOrder (d ∷ ds) 50 95 (ceil_percent_mono (length (d ∷ ds))) at_50 at_95)

le_first_of : (p q : Option ℕ) → or_zero p ≤ first_of p q
le_first_of none q = omega arith
le_first_of (some n) q = omega arith

module _ {A : Type 0} (P : A → Type 0) where
  All-filter : (p : A → Bool) (xs : List A) → All P xs → All P (filter p xs)
  All-filter p [] a = tt
  All-filter p (x ∷ xs) (h, a) = elim (Bool-cases (p x)) [
    | inl kept ↦ rw kept (h, All-filter p xs a)
    | inr dropped ↦ rw dropped (All-filter p xs a)
  ]

  All-insert : (le : A → A → Bool) (x : A) (ys : List A) → P x → All P ys → All P (insert le x ys)
  unfolding insert
  All-insert le x [] h a = (h, tt)
  All-insert le x (y ∷ ys) h (k, a) = elim (Bool-cases (le x y)) [
    | inl first ↦ rw first (h, (k, a))
    | inr later ↦ rw later (k, All-insert le x ys h a)
  ]

  All-sort : (le : A → A → Bool) (xs : List A) → All P xs → All P (sort le xs)
  unfolding sort
  All-sort le [] a = tt
  All-sort le (x ∷ xs) (h, a) = All-insert le x (sort le xs) h (All-sort le xs a)

module _ {F : Type 0} where
  abbrev pub bar : ModelStats F → ℕ
  bar m = first_of m.duration_p95 m.duration_p50

  -- The bar of the median and the tick of the 95th percent, against the longest one.
  abbrev pub FitsIn : ℕ → ModelStats F → Type 0
  FitsIn n m = (or_zero m.duration_p50 ≤ n) × (or_zero m.duration_p95 ≤ n)

  abbrev pub IsOrdered : ModelStats F → Type 0
  IsOrdered m = or_zero m.duration_p50 ≤ bar m

  FitsIn-wider :
      (n k : ℕ) → n ≤ k → (ms : List (ModelStats F)) → All (FitsIn n) ms → All (FitsIn k) ms
  FitsIn-wider n k h ms a =
      All-imp (FitsIn k) (λ m (p, q). (omega (arith, p), omega (arith, q))) ms a

  fits_own : (m : ModelStats F) → IsOrdered m → FitsIn (bar m) m
  fits_own m h = (h, le_first_of m.duration_p95 m.duration_p50)

  fits_max : (ms : List (ModelStats F)) → All IsOrdered ms → All (FitsIn (max_of (map bar ms))) ms
  unfolding max_of
  fits_max [] a = tt
  fits_max (m ∷ ms) (h, a) =
      let n = max (bar m) (max_of (map bar ms)) in
      let (p, q) = fits_own m h in
      (
        (omega (arith, p), omega (arith, q)),
        FitsIn-wider (max_of (map bar ms)) n (omega arith) ms (fits_max ms a),
      )

  is_shorter-IsOrder : IsOrder (is_shorter {F = F})
  is_shorter-IsOrder = record {
    total = λ x y. ground arith;
    trans = λ x y z h k.
        leb-IsOrder.trans (or_zero x.duration_p50) (or_zero y.duration_p50) (or_zero z.duration_p50)
          h k;
  }

module _ {F : Type 0} ⦃number : Number F⦄ where
  Describes-IsOrdered :
      (prices : Prices) (own : List HistoryEvent) (m : ModelStats F)
      → Describes prices own m
      → IsOrdered m
  Describes-IsOrdered prices own m d = rw (d.p50, d.p95) (p50_le_p95 (durations_of (completed own)))

module _ (F : Type 0) ⦃number : Number F⦄ where
  -- The rows of the durations, of any history: they stand in order of their medians, and no bar and
  -- no tick of a row is longer than the longest one, which all are drawn against.
  pub by_duration-fits :
      (events : List HistoryEvent) (prices : Prices)
      → let rows = by_duration {F = F} (per_model events prices) in
        IsSorted (is_shorter {F = F}) rows × All (FitsIn (max_duration rows)) rows
  unfolding by_duration max_duration
  by_duration-fits events prices =
      let models = per_model {F = F} events prices in
      let shown = filter (λ m. is_some m.duration_p50) models in
      let ordered_models =
        All-imp IsOrdered (λ m d. Describes-IsOrdered prices (events_of_model events m.model) m d)
          models (per_model-partition F events prices).0 in
      (
        sort-IsSorted is_shorter is_shorter-IsOrder shown,
        fits_max (sort is_shorter shown) (
            All-sort IsOrdered is_shorter shown
              (All-filter IsOrdered (λ m. is_some m.duration_p50) models ordered_models)),
      )
