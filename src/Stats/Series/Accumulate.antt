-- ===== src/Stats/Series/Accumulate.antt =====
-- A loop that updates one cell of an array for each event: each cell is a fold over its own events.
use relay_local.Prelude.{
  ℕ, zero, suc, ◌≡◌, refl, Option, none, some, List, [], ◌∷◌, arith, foldl, filter, get_elem?,
  modify, if◌then◌else◌, inl, inr, Bool-cases,
}
use relay_local.Stats.Buckets.Windows.{is_at}

module _ {ℓ κ} {X : Type ℓ} {E : Type κ} (f : X → E → X) where
  abbrev pub update : Option ℕ → E → List X → List X
  update none e xs = xs
  update (some i) e xs = modify xs i λ x. f x e

  unfoldable pub accumulate : (E → Option ℕ) → List E → List X → List X
  accumulate at [] xs = xs
  accumulate at (e ∷ es) xs = accumulate at es (update (at e) e xs)

  get_elem?-update :
      (i : Option ℕ) (e : E) (xs : List X) (j : ℕ) {x : X}
      → get_elem? xs j ≡ some x
      → get_elem? (update i e xs) j ≡ some (if is_at i j then f x e else x)
  get_elem?-update none e xs j h = h
  get_elem?-update (some i) e [] j h = ground arith
  get_elem?-update (some zero) e (y ∷ xs) zero h = ground arith
  get_elem?-update (some zero) e (y ∷ xs) (suc j) h = ground arith
  get_elem?-update (some (suc i)) e (y ∷ xs) zero h = ground arith
  get_elem?-update (some (suc i)) e (y ∷ xs) (suc j) h =
      ground (arith, get_elem?-update (some i) e xs j h)

  pub get_elem?-accumulate :
      (at : E → Option ℕ) (es : List E) (xs : List X) (j : ℕ) {x : X}
      → get_elem? xs j ≡ some x
      → get_elem? (accumulate at es xs) j ≡ some (foldl f x (filter (λ e. is_at (at e) j) es))
  unfolding accumulate
  get_elem?-accumulate at [] xs j h = h
  get_elem?-accumulate at (e ∷ es) xs j {x} h = elim (Bool-cases (is_at (at e) j)) [
    | inl own ↦
        rw own (get_elem?-accumulate at es _ j (rw own at (get_elem?-update (at e) e xs j h)))
    | inr other ↦
        rw other (get_elem?-accumulate at es _ j (rw other at (get_elem?-update (at e) e xs j h)))
  ]

-- If each round of a loop treats a part of the state as `update` does, that part is an `accumulate`.
pub part-foldl {ℓ κ μ} :
    {S : Type ℓ} {X : Type κ} {E : Type μ} (part : S → List X) (f : X → E → X) (at : E → Option ℕ)
    (body : S → E → S)
    → ((s : S) (e : E) → part (body s e) ≡ update f (at e) e (part s))
    → (es : List E) (s : S) → part (foldl body s es) ≡ accumulate f at es (part s)
unfolding accumulate
part-foldl part f at body h [] s = refl
part-foldl part f at body h (e ∷ es) s = rw (part-foldl part f at body h es (body s e), h s e)
