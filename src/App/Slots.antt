-- ===== src/App/Slots.antt =====
-- The slots in the top bar.
use relay_local.Prelude.{
  ℕ, ◌+◌, ◌-◌, ◌≤◌, ◌≡◌, refl, ap, ◌∙◌, List, [], ◌∷◌, foldl, foldl-sum_by, All, sum_by, arith,
}
use relay_local.Prelude.Int.{ℤ, pos, ◌+ℤ◌, ◌-ℤ◌, int_laws}
use relay_local.Api.Server.{Backend}
use relay_local.App.{capacity, busy_slots}

abbrev pub IsWithinCapacity : Backend → Type 0
IsWithinCapacity b = b.available ≤ b.capacity

abbrev pub in_use : Backend → ℕ
in_use b = b.capacity - b.available

add_in_use :
    (b : Backend) (n : ℕ)
    → IsWithinCapacity b
    → pos n +ℤ (pos b.capacity -ℤ pos b.available) ≡ pos (n + in_use b)
add_in_use b n k = omega int_laws

foldl-busy :
    (bs : List Backend) (n : ℕ)
    → All IsWithinCapacity bs
    → foldl (λ (n : ℤ) b. n +ℤ (pos b.capacity -ℤ pos b.available)) (pos n) bs
      ≡ pos (n + sum_by in_use bs)
foldl-busy [] n h = ap pos (omega arith)
foldl-busy (b ∷ bs) n (k, h) =
    rw (add_in_use b n k) (foldl-busy bs (n + in_use b) h ∙ ap pos (omega arith))

in_use-le : (bs : List Backend) → sum_by in_use bs ≤ sum_by (λ b. b.capacity) bs
in_use-le [] = omega arith
in_use-le (b ∷ bs) = omega (arith, in_use-le bs)

-- Where no backend reports more free slots than it has, the slots in use that the top bar shows are
-- the sum over the backends of those that are not free, and no more than all slots.
pub busy_slots-le :
    (bs : List Backend)
    → All IsWithinCapacity bs
    → (busy_slots bs ≡ pos (sum_by in_use bs)) × (sum_by in_use bs ≤ capacity bs)
unfolding busy_slots capacity
busy_slots-le bs h = (
  foldl-busy bs 0 h ∙ ap pos (omega arith),
  omega (
    arith,
    in_use-le bs,
    foldl-sum_by (λ n b. n + b.capacity) (λ b. b.capacity) (λ n b. refl) bs 0,
  ),
)
