-- ===== src/Prelude/Counts.antt =====
-- Counts of the elements that pass a test, where one element of a list is changed or taken away.
use relay_local.Prelude.Tests.{if◌then◌else◌}
use relay_local.Prelude.Lists.{get_elem?, modify, All}
use relay_local.Prelude.Sort.{count_by}
use Prim.Native.Nat.{ℕ, zero, suc, ◌+◌}
use mathlib.Core.Path.{◌≡◌, refl}
use mathlib.Core.Logic.{◌≢◌}
use mathlib.Core.Bool.{Bool}
use mathlib.Core.List.{List, [], ◌∷◌, ◌++◌, map}
use mathlib.Core.Option
use mathlib.Core.Option.{Option, none, some}
use native.Mathlib.Omega.{arith}

abbrev pub one_if : Bool → ℕ
one_if b = if b then 1 else 0

module _ {ℓ} {A : Type ℓ} where
  -- The list without the element at a place.
  abbrev pub remove_at : List A → ℕ → List A
  remove_at [] i = []
  remove_at (x ∷ xs) zero = xs
  remove_at (x ∷ xs) (suc i) = x ∷ remove_at xs i

  pub count_by-append :
      (p : A → Bool) (xs ys : List A) → count_by p (xs ++ ys) ≡ count_by p xs + count_by p ys
  count_by-append p [] ys = omega arith
  count_by-append p (x ∷ xs) ys = omega (arith, count_by-append p xs ys)

  pub count_by-modify :
      (p : A → Bool) (f : A → A) (xs : List A) (i : ℕ) {x : A}
      → get_elem? xs i ≡ some x
      → count_by p (modify xs i f) + one_if (p x) ≡ count_by p xs + one_if (p (f x))
  count_by-modify p f [] i e = ground arith
  count_by-modify p f (y ∷ ys) zero e = ground arith
  count_by-modify p f (y ∷ ys) (suc i) e = omega (arith, count_by-modify p f ys i e)

  pub count_by-remove_at :
      (p : A → Bool) (xs : List A) (i : ℕ) {x : A}
      → get_elem? xs i ≡ some x
      → count_by p (remove_at xs i) + one_if (p x) ≡ count_by p xs
  count_by-remove_at p [] i e = ground arith
  count_by-remove_at p (y ∷ ys) zero e = ground arith
  count_by-remove_at p (y ∷ ys) (suc i) e = omega (arith, count_by-remove_at p ys i e)

  pub get_elem?-modify_self :
      (f : A → A) (xs : List A) (i : ℕ)
      → get_elem? (modify xs i f) i ≡ Option.map f (get_elem? xs i)
  get_elem?-modify_self f [] i = refl
  get_elem?-modify_self f (x ∷ xs) zero = refl
  get_elem?-modify_self f (x ∷ xs) (suc i) = get_elem?-modify_self f xs i

  pub get_elem?-modify_other :
      (f : A → A) (xs : List A) (i j : ℕ) → i ≢ j → get_elem? (modify xs i f) j ≡ get_elem? xs j
  get_elem?-modify_other f [] i j ne = refl
  get_elem?-modify_other f (x ∷ xs) zero zero ne = absurd (ne refl)
  get_elem?-modify_other f (x ∷ xs) zero (suc j) ne = refl
  get_elem?-modify_other f (x ∷ xs) (suc i) zero ne = refl
  get_elem?-modify_other f (x ∷ xs) (suc i) (suc j) ne =
      get_elem?-modify_other f xs i j (λ e. ne (omega arith))

  -- A change that keeps a figure of each element.
  pub map-modify {κ} :
      {B : Type κ} (g : A → B) (f : A → A)
      → ((x : A) → g (f x) ≡ g x)
      → (xs : List A) (i : ℕ) → map g (modify xs i f) ≡ map g xs
  map-modify g f h [] i = refl
  map-modify g f h (x ∷ xs) zero = rw (h x) refl
  map-modify g f h (x ∷ xs) (suc i) = rw (map-modify g f h xs i) refl

  pub All-modify {κ} :
      (P : A → Type κ) (f : A → A) (xs : List A) (i : ℕ)
      → All P xs
      → ((x : A) → get_elem? xs i ≡ some x → P (f x))
      → All P (modify xs i f)
  All-modify P f [] i a h = a
  All-modify P f (x ∷ xs) zero (p, a) h = (h x refl, a)
  All-modify P f (x ∷ xs) (suc i) (p, a) h = (p, All-modify P f xs i a h)

  pub All-remove_at {κ} : (P : A → Type κ) (xs : List A) (i : ℕ) → All P xs → All P (remove_at xs i)
  All-remove_at P [] i a = a
  All-remove_at P (x ∷ xs) zero (p, a) = a
  All-remove_at P (x ∷ xs) (suc i) (p, a) = (p, All-remove_at P xs i a)

  pub All_of_get_elem? {κ} :
      (P : A → Type κ) (xs : List A) → ((i : ℕ) (x : A) → get_elem? xs i ≡ some x → P x) → All P xs
  All_of_get_elem? P [] h = tt
  All_of_get_elem? P (x ∷ xs) h = (h 0 x refl, All_of_get_elem? P xs (λ i y e. h (suc i) y e))
