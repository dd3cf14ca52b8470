-- ===== src/Prelude/Lists.antt =====
-- Lists measured, indexed and filtered by native numbers and Boolean tests.
use Prim.Native.Nat.{ℕ, zero, suc, ◌+◌, ◌≤◌, ◌<◌}
use mathlib.Core.Path.{◌≡◌, refl, ap}
use mathlib.Core.Bool.{Bool}
use mathlib.Core.Logic.{inl, inr}
use mathlib.Core.List.{List, [], ◌∷◌, ◌++◌, map, foldl}
use mathlib.Core.Option
use mathlib.Core.Option.{Option, none, some}
use native.Mathlib.Omega.{arith}
use relay_local.Prelude.Tests.{if◌then◌else◌, Bool-cases}

module _ {ℓ} {A : Type ℓ} where
  abbrev pub length : List A → ℕ
  length [] = 0
  length (x ∷ xs) = suc (length xs)

  abbrev pub get_elem? : List A → ℕ → Option A
  get_elem? [] i = none
  get_elem? (x ∷ xs) zero = some x
  get_elem? (x ∷ xs) (suc i) = get_elem? xs i

  -- The elements that pass a test, in order.
  abbrev pub filter : (A → Bool) → List A → List A
  filter p [] = []
  filter p (x ∷ xs) = let rest = filter p xs in if p x then x ∷ rest else rest

  -- An update in place; out of bounds it changes nothing.
  abbrev pub modify : List A → ℕ → (A → A) → List A
  modify [] i f = []
  modify (x ∷ xs) zero f = f x ∷ xs
  modify (x ∷ xs) (suc i) f = x ∷ modify xs i f

  abbrev pub replicate : ℕ → A → List A
  replicate zero a = []
  replicate (suc n) a = a ∷ replicate n a

  -- `Array.from({ length: n }, (_, i) => f(i))`, from index `i` on.
  abbrev pub from_index : ℕ → ℕ → (ℕ → A) → List A
  from_index zero i f = []
  from_index (suc n) i f = f i ∷ from_index n (i + 1) f

  abbrev pub array_from : ℕ → (ℕ → A) → List A
  array_from n f = from_index n 0 f

  -- The sum of a figure over a list.
  abbrev pub sum_by : (A → ℕ) → List A → ℕ
  sum_by f [] = 0
  sum_by f (x ∷ xs) = f x + sum_by f xs

  abbrev pub All {κ} : (A → Type κ) → List A → Type κ
  All P [] = Unit
  All P (x ∷ xs) = P x × All P xs

module _ {ℓ} {A : Type ℓ} where
  pub length-append : (xs ys : List A) → length (xs ++ ys) ≡ length xs + length ys
  length-append [] ys = omega arith
  length-append (x ∷ xs) ys = omega (arith, length-append xs ys)

  pub length-map {κ} : {B : Type κ} (f : A → B) (xs : List A) → length (map f xs) ≡ length xs
  length-map f [] = refl
  length-map f (x ∷ xs) = ap suc (length-map f xs)

  pub length-modify : (xs : List A) (i : ℕ) (f : A → A) → length (modify xs i f) ≡ length xs
  length-modify [] i f = refl
  length-modify (x ∷ xs) zero f = refl
  length-modify (x ∷ xs) (suc i) f = ap suc (length-modify xs i f)

  pub length-from_index : (n i : ℕ) (f : ℕ → A) → length (from_index n i f) ≡ n
  length-from_index zero i f = refl
  length-from_index (suc n) i f = ap suc (length-from_index n (i + 1) f)

  pub get_elem?-from_index :
      (n i j : ℕ) (f : ℕ → A) → j < n → get_elem? (from_index n i f) j ≡ some (f (i + j))
  get_elem?-from_index zero i j f h = absurd (omega arith)
  get_elem?-from_index (suc n) i zero f h = ap (λ k. some (f k)) (omega arith)
  get_elem?-from_index (suc n) i (suc j) f h =
      rw (get_elem?-from_index n (i + 1) j f (omega arith)) (ap (λ k. some (f k)) (omega arith))

  pub get_elem?-array_from :
      (n j : ℕ) (f : ℕ → A) → j < n → get_elem? (array_from n f) j ≡ some (f j)
  get_elem?-array_from n j f h =
      rw (get_elem?-from_index n 0 j f h) (ap (λ k. some (f k)) (omega arith))

  pub get_elem?-replicate : (n j : ℕ) (a : A) → j < n → get_elem? (replicate n a) j ≡ some a
  get_elem?-replicate zero j a h = absurd (omega arith)
  get_elem?-replicate (suc n) zero a h = refl
  get_elem?-replicate (suc n) (suc j) a h = get_elem?-replicate n j a (omega arith)

  pub length-replicate : (n : ℕ) (a : A) → length (replicate n a) ≡ n
  length-replicate zero a = refl
  length-replicate (suc n) a = ap suc (length-replicate n a)

  pub get_elem?-lt : (xs : List A) (j : ℕ) → j < length xs → (x : A) × (get_elem? xs j ≡ some x)
  get_elem?-lt [] j h = absurd (omega arith)
  get_elem?-lt (x ∷ xs) zero h = (x, refl)
  get_elem?-lt (x ∷ xs) (suc j) h = get_elem?-lt xs j (omega arith)

  pub lt_of_get_elem? : (xs : List A) (j : ℕ) {x : A} → get_elem? xs j ≡ some x → j < length xs
  lt_of_get_elem? [] j h = ground arith
  lt_of_get_elem? (y ∷ xs) zero h = omega arith
  lt_of_get_elem? (y ∷ xs) (suc j) h = omega (arith, lt_of_get_elem? xs j h)

  pub get_elem?-past : (xs : List A) (j : ℕ) → length xs ≤ j → get_elem? xs j ≡ none
  get_elem?-past [] j h = refl
  get_elem?-past (x ∷ xs) zero h = absurd (omega arith)
  get_elem?-past (x ∷ xs) (suc j) h = get_elem?-past xs j (omega arith)

  pub get_elem?-map {κ} :
      {B : Type κ} (f : A → B) (xs : List A) (j : ℕ)
      → get_elem? (map f xs) j ≡ Option.map f (get_elem? xs j)
  get_elem?-map f [] j = refl
  get_elem?-map f (x ∷ xs) zero = refl
  get_elem?-map f (x ∷ xs) (suc j) = get_elem?-map f xs j

  pub filter-append :
      (p : A → Bool) (xs ys : List A) → filter p (xs ++ ys) ≡ filter p xs ++ filter p ys
  filter-append p [] ys = refl
  filter-append p (x ∷ xs) ys = ground (arith, filter-append p xs ys)

  -- Tests that agree on every element keep the same elements.
  pub filter-congr :
      (p q : A → Bool) → ((x : A) → p x ≡ q x) → (xs : List A) → filter p xs ≡ filter q xs
  filter-congr p q h [] = refl
  filter-congr p q h (x ∷ xs) = ground (arith, h x, filter-congr p q h xs)

  pub sum_by-append : (f : A → ℕ) (xs ys : List A) → sum_by f (xs ++ ys) ≡ sum_by f xs + sum_by f ys
  sum_by-append f [] ys = omega arith
  sum_by-append f (x ∷ xs) ys = omega (arith, sum_by-append f xs ys)

  -- A loop that adds up a figure.
  pub foldl-sum_by :
      (body : ℕ → A → ℕ) (f : A → ℕ)
      → ((n : ℕ) (x : A) → body n x ≡ n + f x)
      → (xs : List A) (n : ℕ) → foldl body n xs ≡ n + sum_by f xs
  foldl-sum_by body f h [] n = omega arith
  foldl-sum_by body f h (x ∷ xs) n = omega (arith, foldl-sum_by body f h xs (body n x), h n x)

  pub foldl-sum_by_zero :
      (body : ℕ → A → ℕ) (f : A → ℕ)
      → ((n : ℕ) (x : A) → body n x ≡ n + f x)
      → (xs : List A) → foldl body 0 xs ≡ sum_by f xs
  foldl-sum_by_zero body f h xs = omega (arith, foldl-sum_by body f h xs 0)

  -- A loop that skips what fails a test.
  pub foldl-filter {κ} :
      {S : Type κ} (p : A → Bool) (body : S → A → S) (xs : List A) (s : S)
      → foldl (λ t x. if p x then body t x else t) s xs ≡ foldl body s (filter p xs)
  foldl-filter p body [] s = refl
  foldl-filter p body (x ∷ xs) s = elim (Bool-cases (p x)) [
    | inl kept ↦ rw kept (foldl-filter p body xs (body s x))
    | inr skipped ↦ rw skipped (foldl-filter p body xs s)
  ]

  pub All-get_elem? {κ} :
      (P : A → Type κ) (xs : List A) (j : ℕ) {x : A} → All P xs → get_elem? xs j ≡ some x → P x
  All-get_elem? P [] j a e = ground arith
  All-get_elem? P (y ∷ xs) zero (p, _) e = ground arith
  All-get_elem? P (y ∷ xs) (suc j) (_, a) e = All-get_elem? P xs j a e

  -- What two facts about each element give.
  pub All-both {κ μ ν} :
      {P : A → Type κ} {Q : A → Type μ} (R : A → Type ν)
      → ((x : A) → P x → Q x → R x)
      → (xs : List A) → All P xs
      → All Q xs
      → All R xs
  All-both R f [] p q = tt
  All-both R f (x ∷ xs) (p, ps) (q, qs) = (f x p q, All-both R f xs ps qs)

  pub All-imp {κ μ} :
      {P : A → Type κ} (Q : A → Type μ)
      → ((x : A) → P x → Q x)
      → (xs : List A) → All P xs
      → All Q xs
  All-imp Q f [] p = tt
  All-imp Q f (x ∷ xs) (p, ps) = (f x p, All-imp Q f xs ps)

  pub All-map {κ μ} :
      {B : Type κ} (P : B → Type μ) (f : A → B) (xs : List A)
      → All (λ x. P (f x)) xs
      → All P (map f xs)
  All-map P f [] p = tt
  All-map P f (x ∷ xs) (p, ps) = (p, All-map P f xs ps)

pub All-snoc {ℓ κ} :
    {A : Type ℓ} (P : A → Type κ) (xs : List A) (x : A) → All P xs → P x → All P (xs ++ (x ∷ []))
All-snoc P [] x a p = (p, tt)
All-snoc P (y ∷ xs) x (q, a) p = (q, All-snoc P xs x a p)

-- That an element stands in a list.
abbrev pub Occurs {ℓ} : {A : Type ℓ} → A → List A → Type ℓ
Occurs x xs = (i : ℕ) × (get_elem? xs i ≡ some x)
