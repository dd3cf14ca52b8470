-- ===== src/Sidebar/Arrangement.antt =====
-- The order of the tabs is always an arrangement of all of them.
use mathlib.Core.Logic.Or
use mathlib.Core.Nat
use mathlib.Core.HLevel.{⊥_prop}
use mathlib.Core.List
use mathlib.Core.List.{
  Mem, Mem-prop, Nodup, Subset, Perm, mem-cons, mem-cons_self, not-mem-nil, Nodup-cons, Nodup-nil,
}
use mathlib.Core.List.Nodup
use mathlib.Core.List.Perm
use mathlib.Core.List.Subperm
use relay_local.Prelude.{
  ◌≡◌, refl, sym, subst, ap, inl, inr, Bool, true, false, not, ◌&&◌, Option, some, List, [], ◌∷◌,
  String, arith, length, map, str_eq, str_eq_iff, if◌then◌else◌, Bool-cases, ◌==◌, ==_iff,
}
use relay_local.Js.{
  Value, undefined, null, bool, number, text, array, object, to_list, is_text, Json, Item,
  stored_value,
}
use relay_local.Sidebar.{tabs, tab_values, includes, includes_all, nav_order_of, load_nav_order}

-- All the tabs, each once, in some order.
abbrev pub IsArrangement : List Value → Type 0
IsArrangement order = Perm order tab_values

eq_of_is_text : (v : Value) (t : String) → is_text v t ≡ true → text t ≡ v
eq_of_is_text (text s) t h = ap text (sym ((str_eq_iff s t).0 h))
eq_of_is_text undefined t h = cc
eq_of_is_text null t h = cc
eq_of_is_text (bool b) t h = cc
eq_of_is_text (number n) t h = cc
eq_of_is_text (array vs) t h = cc
eq_of_is_text object t h = cc

mem_of_includes : (vs : List Value) (t : String) → includes vs t ≡ true → Mem (text t) vs
mem_of_includes [] t h = cc
mem_of_includes (v ∷ vs) t h = elim (Bool-cases (is_text v t)) [
  | inl here ↦ mem-cons.1 (Or.inl (eq_of_is_text v t here))
  | inr later ↦ mem-cons.1 (Or.inr (mem_of_includes vs t (rw later at h)))
]

and_true : (a b : Bool) → (a && b) ≡ true → (a ≡ true) × (b ≡ true)
and_true a b h = ground arith

subset_of_includes_all :
    (ts : List String) (vs : List Value) → includes_all ts vs ≡ true → Subset (map text ts) vs
subset_of_includes_all [] vs h a m = absurd (not-mem-nil m)
subset_of_includes_all (t ∷ ts) vs h a m =
    let (first, rest) = and_true (includes vs t) (includes_all ts vs) h in
    Or.elim Mem-prop (mem-cons.0 m)
      (λ e. subst (λ v. Mem v vs) (sym e) (mem_of_includes vs t first))
      (subset_of_includes_all ts vs rest a)

-- A test for texts that are all different.
differs : String → List String → Bool
differs s [] = true
differs s (t ∷ ts) = not (str_eq s t) && differs s ts

distinct : List String → Bool
distinct [] = true
distinct (t ∷ ts) = differs t ts && distinct ts

text-inj : (s t : String) → text s ≡ text t → s ≡ t
text-inj s t e = cc

not-mem_of_differs :
    (s : String) (ts : List String) → differs s ts ≡ true → ¬ Mem (text s) (map text ts)
unfolding differs
not-mem_of_differs s [] h m = not-mem-nil m
not-mem_of_differs s (t ∷ ts) h m =
    let (other, rest) = and_true (not (str_eq s t)) (differs s ts) h in
    Or.elim ⊥_prop (mem-cons.0 m) (λ e. ground (arith, str_eq_iff s t, text-inj s t e))
      (not-mem_of_differs s ts rest)

Nodup-of_distinct : (ts : List String) → distinct ts ≡ true → Nodup (map text ts)
unfolding distinct
Nodup-of_distinct [] h = Nodup-nil
Nodup-of_distinct (t ∷ ts) h =
    let (first, rest) = and_true (differs t ts) (distinct ts) h in
    Nodup-cons.1 (not-mem_of_differs t ts first, Nodup-of_distinct ts rest)

tab_values-Nodup : Nodup tab_values
unfolding distinct differs
tab_values-Nodup = Nodup-of_distinct tabs refl

length-eq : {A : Type 0} (xs ys : List A) → length xs ≡ length ys → List.length xs ≡ List.length ys
length-eq [] [] h = refl
length-eq [] (y ∷ ys) h = absurd (omega arith)
length-eq (x ∷ xs) [] h = absurd (omega arith)
length-eq (x ∷ xs) (y ∷ ys) h = ap Nat.suc (length-eq xs ys (omega arith))

-- As many elements as there are tabs, every tab among them: there is no room for anything else.
IsArrangement-of_checks :
    (vs : List Value) → length vs ≡ length tabs → includes_all tabs vs ≡ true → IsArrangement vs
IsArrangement-of_checks vs n all = Perm.symm (
    Subperm.perm_of_length_le (Nodup.subperm tab_values-Nodup (subset_of_includes_all tabs vs all))
      (Nat.le_of_eq (length-eq vs tab_values n)))

checked_or_default :
    (vs : List Value) (checks : Bool)
    → (checks ≡ true → IsArrangement vs)
    → IsArrangement (if checks then vs else tab_values)
checked_or_default vs true f = f refl
checked_or_default vs false f = Perm.refl tab_values

nav_order_of-IsArrangement : (stored : Option Value) → IsArrangement (nav_order_of stored)
unfolding nav_order_of
nav_order_of-IsArrangement (some (array vs)) =
    let stored = to_list vs in
    checked_or_default stored (length stored == length tabs && includes_all tabs stored) λ h.
      let (n, all) = and_true (length stored == length tabs) (includes_all tabs stored) h in
      IsArrangement-of_checks stored ((==_iff (length stored) (length tabs)).0 n) all
nav_order_of-IsArrangement _ = Perm.refl tab_values

-- Whatever the storage holds or refuses, and however its text is parsed, the order that is loaded
-- holds each of the eight tabs exactly once.
pub load_nav_order-IsArrangement :
    (json : Json) (item : Item) → IsArrangement (load_nav_order json item)
unfolding load_nav_order
load_nav_order-IsArrangement json item = nav_order_of-IsArrangement (stored_value json item)
