-- ===== src/Stats/Series/Conservation.antt =====
-- The buckets of `series` together hold each recorded token once.
use mathlib.Core.Option
use mathlib.Core.Option.{some-injective}
use relay_local.Prelude.{
  ℕ, zero, suc, ◌+◌, ◌<◌, ◌≡◌, refl, sym, ap, ◌∙◌, inl, inr, true, false, Option, none, some, List,
  [], ◌∷◌, arith, filter, get_elem?, length, modify, replicate, sum_by, filter-congr, Bool-cases,
  Option-cases, length-modify, length-replicate, is_some,
}
use relay_local.Prelude.Int.{ℤ, ◌≤ℤ◌}
use relay_local.Number.{Number}
use relay_local.LocalTime.{LocalTime, IsCalendar}
use relay_local.Api.{HistoryEvent, Prices}
use relay_local.Stats.Events.{within, events_since, tokens_of}
use relay_local.Stats.Buckets.{Range, buckets_for, find_bucket}
use relay_local.Stats.Buckets.Order.{IsAscending, buckets_for-IsAscending}
use relay_local.Stats.Series.{
  Totals, add_tokens, add_input, add_output, add_event, no_totals, collect, series,
}
use relay_local.Stats.Series.Accumulate.{update, accumulate, part-foldl}
use relay_local.Stats.Series.Cells.{reported_input, reported_output}

abbrev pub total : List ℕ → ℕ
total = sum_by λ n. n

find_bucket-lt : (t : Option ℤ) (bs : List ℤ) {i : ℕ} → find_bucket t bs ≡ some i → i < length bs
unfolding find_bucket
find_bucket-lt t [] e = ground arith
find_bucket-lt t (b ∷ bs) {i} e = elim (Option-cases (find_bucket t bs)) [
  | inl none_later ↦ ground arith
  | inr (k, later) ↦ ground (arith, find_bucket-lt t bs later)
]

is_some-map : (o : Option ℕ) → is_some (Option.map suc o) ≡ is_some o
is_some-map none = refl
is_some-map (some i) = refl

-- A later start leaves out what comes before it, and only that.
within-next :
    (t : Option ℤ) (b c : ℤ)
    → b ≤ℤ c
    → within t b (some c) ≡ false
    → within t c none ≡ within t b none
within-next none b c h w = refl
within-next (some t) b c h w = ground arith

within-from :
    (t : Option ℤ) (b : ℤ) (end : Option ℤ) → within t b end ≡ true → within t b none ≡ true
within-from none b end w = ground arith
within-from (some t) b none w = w
within-from (some t) b (some e) w = ground arith

-- Some bucket takes an instant just when it is not before the first bucket.
is_some-find_bucket :
    (t : Option ℤ) (b : ℤ) (bs : List ℤ)
    → IsAscending (b ∷ bs)
    → is_some (find_bucket t (b ∷ bs)) ≡ within t b none
unfolding find_bucket
is_some-find_bucket t b [] a = ground arith
is_some-find_bucket t b (c ∷ bs) a = elim (Bool-cases (within t b (some c))) [
  | inl here ↦ rw here (sym (within-from t b (some c) here))
  | inr past ↦
      rw (past, is_some-map) (is_some-find_bucket t c bs a.1 ∙ within-next t b c a.0.0 past)
]

total-modify :
    (xs : List ℕ) (i k : ℕ) (f : ℕ → ℕ)
    → i < length xs
    → ((n : ℕ) → f n ≡ n + k)
    → total (modify xs i f) ≡ total xs + k
total-modify [] i k f h e = absurd (omega arith)
total-modify (x ∷ xs) zero k f h e = omega (arith, e x)
total-modify (x ∷ xs) (suc i) k f h e = omega (arith, total-modify xs i k f (omega arith) e)

module _ {E : Type 0} (body : ℕ → E → ℕ) (g : E → ℕ)
    (adds : (n : ℕ) (e : E) → body n e ≡ n + g e) where
  total-accumulate :
      (at : E → Option ℕ) (size : ℕ)
      → ((e : E) (i : ℕ) → at e ≡ some i → i < size)
      → (es : List E) (xs : List ℕ) → length xs ≡ size
      → total (accumulate body at es xs) ≡ total xs + sum_by g (filter (λ e. is_some (at e)) es)
  unfolding accumulate
  total-accumulate at size fits [] xs n = omega arith
  total-accumulate at size fits (e ∷ es) xs n = elim (Option-cases (at e)) [
    | inl skip ↦ rw skip (total-accumulate at size fits es xs n)
    | inr (i, here) ↦ rw here (
        omega (
          arith,
          total-modify xs i (g e) (λ n. body n e) (omega (arith, fits e i here)) (λ n. adds n e),
          total-accumulate at size fits es (modify xs i λ n. body n e)
              (length-modify xs i (λ n. body n e) ∙ n),
        ))
  ]

total-replicate : (n : ℕ) → total (replicate n 0) ≡ 0
total-replicate zero = refl
total-replicate (suc n) = omega (arith, total-replicate n)

module _ {F : Type 0} ⦃number : Number F⦄ (calendar : LocalTime) (events : List HistoryEvent)
    (prices : Prices) where
  -- One array of counts.
  total-part :
      (part : Totals F → List ℕ) (body : ℕ → HistoryEvent → ℕ) (g : HistoryEvent → ℕ)
      → ((n : ℕ) (e : HistoryEvent) → body n e ≡ n + g e)
      → ((e : HistoryEvent) (i : Option ℕ) (t : Totals F)
          → part (add_event prices e i t) ≡ update body i e (part t))
      → ((n : ℕ) → part (no_totals n) ≡ replicate n 0)
      → (b : ℤ) (bs : List ℤ) → IsAscending (b ∷ bs)
      → total (part (collect calendar events prices (b ∷ bs)))
        ≡ sum_by g (events_since calendar events b none)
  unfolding collect events_since
  total-part part body g adds step start b bs up =
      let at : HistoryEvent → Option ℕ = λ e. find_bucket (calendar.parse e.time) (b ∷ bs) in
      let n : ℕ = length (b ∷ bs) in
      let kept =
        filter-congr (λ e. is_some (at e)) (λ e. within (calendar.parse e.time) b none)
          (λ e. is_some-find_bucket (calendar.parse e.time) b bs up) events in
      ap total (
        part-foldl part body at (λ t e. add_event prices e (at e) t) (λ t e. step e (at e) t) events
          (no_totals n))
      ∙ total-accumulate body g adds at n
          (λ e i here. find_bucket-lt (calendar.parse e.time) (b ∷ bs) here) events
          (part (no_totals n)) (ap length (start n) ∙ length-replicate n 0)
      ∙ omega (arith, ap total (start n), total-replicate n, ap (sum_by g) kept)

module _ (F : Type 0) ⦃number : Number F⦄ (calendar : LocalTime) (events : List HistoryEvent)
    (prices : Prices) where
  collect-conserves :
      (buckets : List ℤ) {b : ℤ}
      → IsAscending buckets
      → get_elem? buckets 0 ≡ some b
      → let own = events_since calendar events b none in
        let t = collect {F = F} calendar events prices buckets in
        (total t.tokens ≡ sum_by tokens_of own)
        × (total t.input_tokens ≡ sum_by reported_input own)
        × (total t.output_tokens ≡ sum_by reported_output own)
  unfolding add_event no_totals
  collect-conserves [] up at_0 = ground arith
  collect-conserves (c ∷ bs) up at_0 = rw (← some-injective _ _ at_0) (
    total-part {F = F} calendar events prices (λ t. t.tokens) add_tokens tokens_of (λ n e. refl)
        (λ e. elim [ none ↦ λ t. refl | some i ↦ λ t. refl ]) (λ n. refl) c bs up,
    total-part {F = F} calendar events prices (λ t. t.input_tokens) add_input reported_input
        (λ n e. ground arith) (λ e. elim [ none ↦ λ t. refl | some i ↦ λ t. refl ]) (λ n. refl) c bs
        up,
    total-part {F = F} calendar events prices (λ t. t.output_tokens) add_output reported_output
        (λ n e. ground arith) (λ e. elim [ none ↦ λ t. refl | some i ↦ λ t. refl ]) (λ n. refl) c bs
        up,
  )

  -- For every range: the tokens of all buckets of a series together are the tokens of the events
  -- from the start of its first bucket on, so no event is counted twice or lost between two buckets.
  -- The same holds of the input and of the output tokens that the requests report. The calendar is one
  -- in which later dates do not begin earlier and no instant is before its own hour, day and month.
  pub series-conserves :
      IsCalendar calendar
      → (range : Range) (now : ℤ) {b : ℤ} → get_elem? (buckets_for calendar range now) 0 ≡ some b
      → let own = events_since calendar events b none in
        let s = series {F = F} calendar events prices range now in
        (total s.tokens ≡ sum_by tokens_of own)
        × (total s.input_tokens ≡ sum_by reported_input own)
        × (total s.output_tokens ≡ sum_by reported_output own)
  unfolding series
  series-conserves laws range now at_0 =
      collect-conserves (buckets_for calendar range now) (buckets_for-IsAscending laws range now)
        at_0
