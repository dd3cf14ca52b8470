-- ===== src/Stats/Days/Distinct.antt =====
-- While no two days have the same date, the search for the day of an event is a test of every day.

use relay_local.Prelude.{
  ◌≡◌, refl, sym, ap, Bool, true, false, Option, none, some, List, [], ◌∷◌, map, All, if◌then◌else◌,
  Bool-cases, inl, inr, arith,
}
use relay_local.Prelude.Int.{ℤ, eq_ℤ}
use relay_local.Api.{HistoryEvent}
use relay_local.Stats.Days.{DayTokens, count_in, add_to_day, add_on}

-- Is the instant that begins the day of an event, if there is one, this date?
abbrev pub is_on : Option ℤ → ℤ → Bool
is_on none date = false
is_on (some day) date = eq_ℤ date day

abbrev pub absorb : Option ℤ → HistoryEvent → DayTokens → DayTokens
absorb day e d = if is_on day d.date then count_in e d else d

abbrev pub Differs : ℤ → DayTokens → Type 0
Differs date d = eq_ℤ d.date date ≡ false

unfoldable pub HasDistinctDates : List DayTokens → Type 0
HasDistinctDates [] = Unit
HasDistinctDates (d ∷ ds) = All (Differs d.date) ds × HasDistinctDates ds

map-absorb-none : (e : HistoryEvent) (ds : List DayTokens) → map (absorb none e) ds ≡ ds
map-absorb-none e [] = refl
map-absorb-none e (d ∷ ds) = ap (λ ds. d ∷ ds) (map-absorb-none e ds)

eq_ℤ-false : (a b c : ℤ) → eq_ℤ a b ≡ true → eq_ℤ c a ≡ false → eq_ℤ c b ≡ false
eq_ℤ-false a b c h k = ground arith

map-absorb_elsewhere :
    (day : ℤ) (e : HistoryEvent) (ds : List DayTokens)
    → All (Differs day) ds
    → map (absorb (some day) e) ds ≡ ds
map-absorb_elsewhere day e [] h = refl
map-absorb_elsewhere day e (d ∷ ds) (k, h) =
    rw k (ap (λ ds. d ∷ ds) (map-absorb_elsewhere day e ds h))

Differs-trans :
    (a b : ℤ) (ds : List DayTokens) → eq_ℤ a b ≡ true → All (Differs a) ds → All (Differs b) ds
Differs-trans a b [] h k = tt
Differs-trans a b (d ∷ ds) h (n, k) = (eq_ℤ-false a b d.date h n, Differs-trans a b ds h k)

add_to_day-map :
    (day : ℤ) (e : HistoryEvent) (ds : List DayTokens)
    → HasDistinctDates ds
    → add_to_day day e ds ≡ map (absorb (some day) e) ds
unfolding add_to_day HasDistinctDates
add_to_day-map day e [] h = refl
add_to_day-map day e (d ∷ ds) (k, h) = elim (Bool-cases (eq_ℤ d.date day)) [
  | inl same ↦ rw (same, map-absorb_elsewhere day e ds (Differs-trans d.date day ds same k)) refl
  | inr other ↦ rw other (ap (λ ds. d ∷ ds) (add_to_day-map day e ds h))
]

add_on-map :
    (day : Option ℤ) (e : HistoryEvent) (ds : List DayTokens)
    → HasDistinctDates ds
    → add_on day e ds ≡ map (absorb day e) ds
unfolding add_on
add_on-map none e ds h = sym (map-absorb-none e ds)
add_on-map (some day) e ds h = add_to_day-map day e ds h

absorb-date : (day : Option ℤ) (e : HistoryEvent) (d : DayTokens) → (absorb day e d).date ≡ d.date
absorb-date day e d = ground arith

map-Differs :
    (f : DayTokens → DayTokens)
    → ((d : DayTokens) → (f d).date ≡ d.date)
    → (d : DayTokens) (ds : List DayTokens) → All (Differs d.date) ds
    → All (Differs (f d).date) (map f ds)
map-Differs f same d [] k = tt
map-Differs f same d (x ∷ ds) (n, k) = (rw (same x, same d) n, map-Differs f same d ds k)

pub map-HasDistinctDates :
    (f : DayTokens → DayTokens)
    → ((d : DayTokens) → (f d).date ≡ d.date)
    → (ds : List DayTokens) → HasDistinctDates ds
    → HasDistinctDates (map f ds)
unfolding HasDistinctDates
map-HasDistinctDates f same [] h = tt
map-HasDistinctDates f same (d ∷ ds) (k, h) =
    (map-Differs f same d ds k, map-HasDistinctDates f same ds h)

pub map-map :
    {A B C : Type 0} (f : A → B) (g : B → C) (xs : List A)
    → map g (map f xs) ≡ map (λ x. g (f x)) xs
map-map f g [] = refl
map-map f g (x ∷ xs) = ap (λ ys. g (f x) ∷ ys) (map-map f g xs)

pub map-same : {A : Type 0} (xs : List A) → map (λ x. x) xs ≡ xs
map-same [] = refl
map-same (x ∷ xs) = ap (λ ys. x ∷ ys) (map-same xs)

pub reported-map :
    (reported : Bool) (day : Option ℤ) (e : HistoryEvent) (ds : List DayTokens)
    → HasDistinctDates ds
    → (if reported then add_on day e ds else ds)
      ≡ map (λ d. if reported then absorb day e d else d) ds
reported-map true day e ds h = add_on-map day e ds h
reported-map false day e ds h = sym (map-same ds)
