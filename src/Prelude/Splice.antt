-- ===== src/Prelude/Splice.antt =====
-- `Array.prototype.splice`, and an element moved from one place to another by two splices.
use Prim.Native.Nat.{ℕ, zero, suc, ◌+◌, ◌≤◌, ◌<◌}
use mathlib.Core.Path.{◌≡◌, refl, ap, subst, ◌∙◌}
use mathlib.Core.Option.{some}
use mathlib.Core.Logic.{∥∥₁_elim}
use mathlib.Core.List.{List, [], ◌∷◌, ◌++◌, Perm, Permᴰ, perm_middle}
use mathlib.Core.List.Perm
use native.Mathlib.Numerals.{add-one}
use native.Mathlib.Nat.{add-zero, ℕ_set}
use native.Mathlib.Omega.{arith}
use relay_local.Prelude.Lists.{length, get_elem?, get_elem?-lt}

module _ {ℓ} {A : Type ℓ} where
  abbrev pub take : ℕ → List A → List A
  take zero xs = []
  take (suc n) [] = []
  take (suc n) (x ∷ xs) = x ∷ take n xs

  abbrev pub drop : ℕ → List A → List A
  drop zero xs = xs
  drop (suc n) [] = []
  drop (suc n) (x ∷ xs) = drop n xs

  -- What `splice(start, count, ...items)` leaves of the array; a start past the end is the end.
  abbrev pub splice : List A → ℕ → ℕ → List A → List A
  splice xs start count items = take start xs ++ (items ++ drop (start + count) xs)

  -- What it returns.
  abbrev pub spliced : List A → ℕ → ℕ → List A
  spliced xs start count = take count (drop start xs)

  head_or : A → List A → A
  head_or d [] = d
  head_or d (x ∷ xs) = x

  -- `const [moved] = xs.splice(from, 1); xs.splice(to, 0, moved)`; `d` stands for `undefined`.
  unfoldable pub move : A → List A → ℕ → ℕ → List A
  unfolding head_or
  move d xs from to = splice (splice xs from 1 []) to 0 (head_or d (spliced xs from 1) ∷ [])

  take-append-drop : (n : ℕ) (xs : List A) → take n xs ++ drop n xs ≡ xs
  take-append-drop zero xs = refl
  take-append-drop (suc n) [] = refl
  take-append-drop (suc n) (x ∷ xs) = ap (x ∷◌) (take-append-drop n xs)

  -- A list around one of its elements.
  split_at :
      (xs : List A) (n : ℕ) {x : A}
      → get_elem? xs n ≡ some x
      → take n xs ++ x ∷ drop (suc n) xs ≡ xs
  split_at [] n e = ground arith
  split_at (y ∷ xs) zero e = cc
  split_at (y ∷ xs) (suc n) e = ap (y ∷◌) (split_at xs n e)

  spliced-one : (xs : List A) (n : ℕ) {x : A} → get_elem? xs n ≡ some x → spliced xs n 1 ≡ x ∷ []
  spliced-one [] n e = ground arith
  spliced-one (y ∷ xs) zero e = cc
  spliced-one (y ∷ xs) (suc n) e = spliced-one xs n e

  pub splice-one : (xs : List A) (n : ℕ) → splice xs n 1 [] ≡ take n xs ++ drop (suc n) xs
  splice-one xs n = rw add-one

  -- The moved element is put between two parts of the rest.
  move_lem :
      (d : A) (xs : List A) (from to : ℕ) {x : A}
      → get_elem? xs from ≡ some x
      → let rest = splice xs from 1 [] in move d xs from to ≡ take to rest ++ x ∷ drop to rest
  unfolding move
  move_lem d xs from to e = rw (spliced-one xs from e, add-zero)

  length-take : (n : ℕ) (xs : List A) → n ≤ length xs → length (take n xs) ≡ n
  length-take zero xs h = refl
  length-take (suc n) [] h = absurd (omega arith)
  length-take (suc n) (x ∷ xs) h = ap suc (length-take n xs (omega arith))

  length-splice-one :
      (xs : List A) (n : ℕ) → n < length xs → suc (length (splice xs n 1 [])) ≡ length xs
  length-splice-one xs n h = rw splice-one (go xs n h)
    where
      go :
          (ys : List A) (m : ℕ)
          → m < length ys
          → suc (length (take m ys ++ drop (suc m) ys)) ≡ length ys
      go [] m h = absurd (omega arith)
      go (y ∷ ys) zero h = refl
      go (y ∷ ys) (suc m) h = ap suc (go ys m (omega arith))

  -- Where the list is cut, the put element is found, and taking it out gives the list back.
  get_elem?-put :
      (ys : List A) (n : ℕ) (x : A)
      → n ≤ length ys
      → get_elem? (take n ys ++ x ∷ drop n ys) n ≡ some x
  get_elem?-put ys zero x h = refl
  get_elem?-put [] (suc n) x h = absurd (omega arith)
  get_elem?-put (y ∷ ys) (suc n) x h = get_elem?-put ys n x (omega arith)

  cut-put :
      (ys : List A) (n : ℕ) (x : A)
      → n ≤ length ys
      → let zs = take n ys ++ x ∷ drop n ys in take n zs ++ drop (suc n) zs ≡ ys
  cut-put ys zero x h = refl
  cut-put [] (suc n) x h = absurd (omega arith)
  cut-put (y ∷ ys) (suc n) x h = ap (y ∷◌) (cut-put ys n x (omega arith))

  -- A move keeps the elements.
  pub move-perm :
      (d : A) (xs : List A) (from to : ℕ) → from < length xs → Perm (move d xs from to) xs
  move-perm d xs from to h =
      let (x, e) = get_elem?-lt xs from h in
      let rest = take from xs ++ drop (suc from) xs in
      let back : Perm (x ∷ rest) xs =
        subst (λ l. Perm (x ∷ rest) l) (split_at xs from e)
          (Perm.symm (perm_middle (take from xs) (drop (suc from) xs))) in
      rw (move_lem d xs from to e, splice-one)
        (Perm.trans (perm_middle (take to rest) (drop to rest))
          (rw (take-append-drop to rest) back))

  -- The element of `from` stands at `to`, and the others keep their order.
  pub move_places :
      (d : A) (xs : List A) (from to : ℕ)
      → from < length xs
      → to < length xs
      → (get_elem? (move d xs from to) to ≡ get_elem? xs from)
        × (splice (move d xs from to) to 1 [] ≡ splice xs from 1 [])
  move_places d xs from to h k =
      let (x, e) = get_elem?-lt xs from h in
      let rest = splice xs from 1 [] in
      let room : to ≤ length rest = omega (arith, length-splice-one xs from h) in
      rw (move_lem d xs from to e, e)
        (get_elem?-put rest to x room, splice-one _ to ∙ cut-put rest to x room)

  length-Permᴰ : {xs ys : List A} → Permᴰ xs ys → length xs ≡ length ys
  length-Permᴰ Permᴰ.nil = refl
  length-Permᴰ (Permᴰ.cons e p) = ap suc (length-Permᴰ p)
  length-Permᴰ (Permᴰ.swap e f) = refl
  length-Permᴰ (Permᴰ.trans p q) = length-Permᴰ p ∙ length-Permᴰ q

  pub length-Perm : {xs ys : List A} → Perm xs ys → length xs ≡ length ys
  length-Perm p = ∥∥₁_elim p (ℕ_set _ _) length-Permᴰ
