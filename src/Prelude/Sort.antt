-- ===== src/Prelude/Sort.antt =====
-- The stable sort of the language's arrays, by a Boolean order, and what it keeps.
use relay_local.Prelude.Tests.{if◌then◌else◌, Bool-cases}
use relay_local.Prelude.Lists.{length, get_elem?, All, All-get_elem?}
use Prim.Native.Nat.{ℕ, zero, suc, ◌+◌, ◌≤◌}
use mathlib.Core.Path.{◌≡◌, refl, subst}
use mathlib.Core.Logic.{◌⊎◌, inl, inr}
use mathlib.Core.Bool.{Bool, true, false, not}
use mathlib.Core.Option.{some, some-injective}
use mathlib.Core.List.{List, [], ◌∷◌}
use native.Mathlib.Omega.{arith}

module _ {ℓ} {A : Type ℓ} where
  -- How many elements pass a test.
  abbrev pub count_by : (A → Bool) → List A → ℕ
  count_by p [] = 0
  count_by p (x ∷ xs) = (if p x then 1 else 0) + count_by p xs

  count_by-none : (p : A → Bool) (xs : List A) → All (λ x. p x ≡ false) xs → count_by p xs ≡ 0
  count_by-none p [] a = refl
  count_by-none p (x ∷ xs) (h, a) = rw h (omega (arith, count_by-none p xs a))

-- A test that orders all elements; elements may be equivalent without being equal.
pub record IsOrder {ℓ} {A : Type ℓ} (le : A → A → Bool) : Type ℓ where
  pub total : (x y : A) → (le x y ≡ true) ⊎ (le y x ≡ true)
  pub trans : (x y z : A) → le x y ≡ true → le y z ≡ true → le x z ≡ true

module _ {ℓ} {A : Type ℓ} (le : A → A → Bool) where
  unfoldable pub insert : A → List A → List A
  insert x [] = x ∷ []
  insert x (y ∷ ys) = let rest = insert x ys in if le x y then x ∷ y ∷ ys else y ∷ rest

  unfoldable pub sort : List A → List A
  unfolding insert
  sort [] = []
  sort (x ∷ xs) = insert x (sort xs)

  abbrev pub IsSorted : List A → Type 0
  IsSorted [] = Unit
  IsSorted (x ∷ xs) = All (λ y. le x y ≡ true) xs × IsSorted xs

  count_by-insert :
      (p : A → Bool) (x : A) (ys : List A) → count_by p (insert x ys) ≡ count_by p (x ∷ ys)
  unfolding insert
  count_by-insert p x [] = refl
  count_by-insert p x (y ∷ ys) = elim (Bool-cases (le x y)) [
    | inl first ↦ rw first
    | inr later ↦ rw later (omega (arith, count_by-insert p x ys))
  ]

  -- Sorting keeps the number of elements that pass any test.
  pub count_by-sort : (p : A → Bool) (xs : List A) → count_by p (sort xs) ≡ count_by p xs
  unfolding sort
  count_by-sort p [] = refl
  count_by-sort p (x ∷ xs) = omega (arith, count_by-insert p x (sort xs), count_by-sort p xs)

  length-insert : (x : A) (ys : List A) → length (insert x ys) ≡ suc (length ys)
  unfolding insert
  length-insert x [] = refl
  length-insert x (y ∷ ys) = ground (arith, length-insert x ys)

  pub length-sort : (xs : List A) → length (sort xs) ≡ length xs
  unfolding sort
  length-sort [] = refl
  length-sort (x ∷ xs) = omega (arith, length-insert x (sort xs), length-sort xs)

  module _ (order : IsOrder le) where
    open order use {total, trans}

    All-le_trans :
        (x y : A) (zs : List A)
        → le x y ≡ true
        → All (λ z. le y z ≡ true) zs
        → All (λ z. le x z ≡ true) zs
    All-le_trans x y [] h a = tt
    All-le_trans x y (z ∷ zs) h (p, a) = (trans x y z h p, All-le_trans x y zs h a)

    All-insert :
        (w x : A) (ys : List A)
        → le w x ≡ true
        → All (λ y. le w y ≡ true) ys
        → All (λ y. le w y ≡ true) (insert x ys)
    unfolding insert
    All-insert w x [] h a = (h, tt)
    All-insert w x (y ∷ ys) h (p, a) = elim (Bool-cases (le x y)) [
      | inl first ↦ rw first (h, (p, a))
      | inr later ↦ rw later (p, All-insert w x ys h a)
    ]

    le_of_not_le : (x y : A) → le x y ≡ false → le y x ≡ true
    le_of_not_le x y h = ground (arith, total x y)

    insert-IsSorted : (x : A) (ys : List A) → IsSorted ys → IsSorted (insert x ys)
    unfolding insert
    insert-IsSorted x [] s = (tt, tt)
    insert-IsSorted x (y ∷ ys) (a, s) = elim (Bool-cases (le x y)) [
      | inl first ↦ rw first ((first, All-le_trans x y ys first a), (a, s))
      | inr later ↦ rw later (All-insert y x ys (le_of_not_le x y later) a, insert-IsSorted x ys s)
    ]

    pub sort-IsSorted : (xs : List A) → IsSorted (sort xs)
    unfolding sort
    sort-IsSorted [] = tt
    sort-IsSorted (x ∷ xs) = insert-IsSorted x (sort xs) (sort-IsSorted xs)

    le_refl : (x : A) → le x x ≡ true
    le_refl x = ground (arith, total x x)

    All-not-lt :
        (x : A) (xs : List A) → All (λ y. le x y ≡ true) xs → All (λ y. not (le x y) ≡ false) xs
    All-not-lt x [] a = tt
    All-not-lt x (y ∷ ys) (h, a) = (rw h, All-not-lt x ys a)

    first_bounds :
        (x : A) (xs : List A)
        → All (λ y. le x y ≡ true) xs
        → (1 ≤ count_by (λ y. le y x) (x ∷ xs)) × (count_by (λ y. not (le x y)) (x ∷ xs) ≤ 0)
    first_bounds x xs a =
        ground (arith, le_refl x, count_by-none (λ y. not (le x y)) xs (All-not-lt x xs a))

    -- The element at place `i` of a sorted list has more than `i` elements up to it, and at most `i`
    -- below it.
    pub rank_bounds :
        (xs : List A) (i : ℕ) {v : A}
        → IsSorted xs
        → get_elem? xs i ≡ some v
        → (i + 1 ≤ count_by (λ x. le x v) xs) × (count_by (λ x. not (le v x)) xs ≤ i)
    rank_bounds [] i s e = ground arith
    rank_bounds (x ∷ xs) zero (a, s) e =
        subst
          (λ v. (1 ≤ count_by (λ y. le y v) (x ∷ xs)) × (count_by (λ y. not (le v y)) (x ∷ xs) ≤ 0))
          (some-injective _ _ e) (first_bounds x xs a)
    rank_bounds (x ∷ xs) (suc i) {v} (a, s) e =
        let below : le x v ≡ true = All-get_elem? (λ y. le x y ≡ true) xs i a e in
        let (up_to, less) = rank_bounds xs i s e in (rw below (omega arith), ground arith)

    -- A later place of a sorted list holds no smaller element.
    pub IsSorted-get_elem? :
        (xs : List A) (i j : ℕ) {v w : A}
        → IsSorted xs
        → get_elem? xs i ≡ some v
        → get_elem? xs j ≡ some w
        → i ≤ j
        → le v w ≡ true
    IsSorted-get_elem? [] i j s e f h = ground arith
    IsSorted-get_elem? (x ∷ xs) zero zero s e f h = ground (arith, le_refl x)
    IsSorted-get_elem? (x ∷ xs) zero (suc j) {w = w} (a, s) e f h =
        ground (arith, All-get_elem? (λ y. le x y ≡ true) xs j a f)
    IsSorted-get_elem? (x ∷ xs) (suc i) zero s e f h = absurd (omega arith)
    IsSorted-get_elem? (x ∷ xs) (suc i) (suc j) (a, s) e f h =
        IsSorted-get_elem? xs i j s e f (omega arith)
