-- ===== src/Stats/Buckets/Windows.antt =====
-- Which bucket an instant falls into, when the buckets stand in order.
use mathlib.Core.Option
use relay_local.Prelude.{
  ℕ, zero, suc, ◌≡◌, refl, ap, Bool, true, false, Option, none, some, List, [], ◌∷◌, arith,
  get_elem?, All-get_elem?, inl, inr, Bool-cases, ◌==◌,
}
use relay_local.Prelude.Int.{ℤ, ◌≤ℤ◌}
use relay_local.Stats.Events.{within}
use relay_local.Stats.Buckets.{find_bucket}
use relay_local.Stats.Buckets.Order.{IsAscending}

abbrev pub is_at : Option ℕ → ℕ → Bool
is_at none j = false
is_at (some i) j = i == j

head-le :
    (d : ℤ) (bs : List ℤ) (j : ℕ) {b : ℤ}
    → IsAscending (d ∷ bs)
    → get_elem? (d ∷ bs) j ≡ some b
    → d ≤ℤ b
head-le d bs zero a e = ground arith
head-le d bs (suc j) a e = All-get_elem? (λ c. d ≤ℤ c) bs j a.0 e

head_or : ℤ → Option ℤ → ℤ
head_or d none = d
head_or d (some b) = b

-- Two windows with one end before the other's start have no instant in common.
within-disjoint :
    (t : Option ℤ) (a c b : ℤ) (end : Option ℤ)
    → c ≤ℤ b
    → within t a (some c) ≡ true
    → within t b end ≡ false
within-disjoint none a c b end h w = refl
within-disjoint (some t) a c b none h w = ground arith
within-disjoint (some t) a c b (some e) h w = ground arith

is_at-map-suc : (o : Option ℕ) (j : ℕ) → is_at (Option.map suc o) (suc j) ≡ is_at o j
is_at-map-suc none j = refl
is_at-map-suc (some i) j = ground arith

is_at-map-suc_zero : (o : Option ℕ) → is_at (Option.map suc o) 0 ≡ false
is_at-map-suc_zero none = refl
is_at-map-suc_zero (some i) = ground arith

-- An instant is in bucket `j` just when it is in the window of bucket `j`.
pub is_at-find_bucket :
    (t : Option ℤ) (bs : List ℤ) (j : ℕ) {b : ℤ}
    → IsAscending bs
    → get_elem? bs j ≡ some b
    → is_at (find_bucket t bs) j ≡ within t b (get_elem? bs (suc j))
unfolding find_bucket head_or
is_at-find_bucket t [] j a e = ground arith
is_at-find_bucket t (c ∷ bs) zero a e = ground (
  arith,
  ap (λ o. within t (head_or c o) (get_elem? bs 0)) e,
  is_at-map-suc_zero (find_bucket t bs),
)
is_at-find_bucket t (c ∷ []) (suc j) a e = ground arith
is_at-find_bucket t (c ∷ d ∷ bs) (suc j) {b} a e = elim (Bool-cases (within t c (some d))) [
  | inl here ↦
      let end = get_elem? (d ∷ bs) (suc j) in
      let elsewhere = within-disjoint t c d b end (head-le d bs j a.1 e) here in ground arith
  | inr past ↦ rw (past, is_at-map-suc) (is_at-find_bucket t (d ∷ bs) j a.1 e)
]
