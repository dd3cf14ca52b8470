-- ===== src/Sidebar/Reload.antt =====
-- What is stored after a drop is what the next visit loads.
use mathlib.Core.Logic.Or
use mathlib.Core.List.{Mem, mem-cons, not-mem-nil, Subset}
use mathlib.Core.List.Perm
use relay_local.Prelude.{
  ℕ, ◌≡◌, ◌≢◌, refl, sym, subst, ap, ◌∙◌, inl, inr, Bool, true, false, ◌&&◌, some, List, [], ◌∷◌,
  String, length, map, All, str_eq_iff, if◌then◌else◌, Bool-cases, ◌==◌, ==_iff,
}
use relay_local.Prelude.Splice.{move, length-Perm}
use relay_local.Js.{
  Value, undefined, text, array, from_list, is_text, Json, IsJson, IsPlain, ArePlain, found,
}
use relay_local.Js.Storage.{to_list-from_list, stored_value-stringify}
use relay_local.Sidebar.{
  tabs, tab_values, includes, includes_all, nav_order_of, load_nav_order, Sidebar, release,
  reorder_from, reorder, drop, handle,
}
use relay_local.Sidebar.Arrangement.{IsArrangement}
use relay_local.Sidebar.Dragging.{InRange, IsValid, move-IsArrangement}

abbrev pub IsText : Value → Type 0
IsText (text s) = Unit
IsText _ = ⊥

ArePlain-of_texts : (vs : List Value) → All IsText vs → ArePlain (from_list vs)
unfolding ArePlain IsPlain
ArePlain-of_texts [] a = tt
ArePlain-of_texts (text s ∷ vs) (h, a) = (tt, ArePlain-of_texts vs a)
ArePlain-of_texts (_ ∷ vs) (h, a) = absurd h

IsPlain-of_texts : (vs : List Value) → All IsText vs → IsPlain (array (from_list vs))
unfolding IsPlain
IsPlain-of_texts = ArePlain-of_texts

IsText-prop : (v : Value) → IsProp (IsText v)
IsText-prop (text s) = λ x y. refl
IsText-prop _ = λ x. absurd x

IsText-of_mem : (ts : List String) (v : Value) → Mem v (map text ts) → IsText v
IsText-of_mem [] v m = absurd (not-mem-nil m)
IsText-of_mem (t ∷ ts) v m =
    Or.elim (IsText-prop v) (mem-cons.0 m) (λ e. subst IsText (sym e) tt) (IsText-of_mem ts v)

All-of_mem : (vs : List Value) → ((v : Value) → Mem v vs → IsText v) → All IsText vs
All-of_mem [] f = tt
All-of_mem (v ∷ vs) f =
    (f v (mem-cons.1 (Or.inl refl)), All-of_mem vs (λ w m. f w (mem-cons.1 (Or.inr m))))

includes_of_mem : (vs : List Value) (t : String) → Mem (text t) vs → includes vs t ≡ true
includes_of_mem [] t m = absurd (not-mem-nil m)
includes_of_mem (v ∷ vs) t m =
    Or.elim (hlevel) (mem-cons.0 m)
      (λ e. subst (λ w. includes (w ∷ vs) t ≡ true) e (rw ((str_eq_iff t t).1 refl)))
      (λ later. elim (Bool-cases (is_text v t)) [
        | inl here ↦ rw here
        | inr other ↦ rw other (includes_of_mem vs t later)
      ])

includes_all_of_subset :
    (ts : List String) (vs : List Value) → Subset (map text ts) vs → includes_all ts vs ≡ true
includes_all_of_subset [] vs f = refl
includes_all_of_subset (t ∷ ts) vs f =
    rw (includes_of_mem vs t (f (text t) (mem-cons.1 (Or.inl refl))))
      (includes_all_of_subset ts vs (λ a m. f a (mem-cons.1 (Or.inr m))))

if_true {ℓ} : {A : Type ℓ} (b : Bool) (x y : A) → b ≡ true → (if b then x else y) ≡ x
if_true true x y h = refl
if_true false x y h = cc

-- The checks let an arrangement pass.
nav_order_of-from_list :
    (order : List Value)
    → IsArrangement order
    → nav_order_of (some (array (from_list order))) ≡ order
unfolding nav_order_of
nav_order_of-from_list order a =
    let same = to_list-from_list order in
    let all = includes_all_of_subset tabs order (Perm.subset (Perm.symm a)) in
    let checks : (length order == length tabs && includes_all tabs order) ≡ true =
      rw all (rw (length-Perm a)) in
    subst
      (λ vs. (if length vs == length tabs && includes_all tabs vs then vs else tab_values) ≡ order)
      (sym same)
      (if_true (length order == length tabs && includes_all tabs order) order tab_values checks)

module _ (json : Json) (laws : IsJson json) where
  load-stringify :
      (order : List Value)
      → IsArrangement order
      → load_nav_order json (found (json.stringify (array (from_list order)))) ≡ order
  unfolding load_nav_order
  load-stringify order a =
      let texts = All-of_mem order (λ v m. IsText-of_mem tabs v (Perm.subset a v m)) in
      ap nav_order_of
        (stored_value-stringify json laws (array (from_list order)) (IsPlain-of_texts order texts))
      ∙ nav_order_of-from_list order a

  -- After a drop, in a valid state, that moves a tab and could be stored, a later visit to the page
  -- loads the order that the drop left on the screen. The JSON functions read plain values back as
  -- they were written, as no empty text.
  pub load-drop :
      (from to : ℕ) (s : Sidebar)
      → IsValid s
      → s.drag_index ≡ some from
      → from ≢ to
      → let s' = handle json (drop true to) s in load_nav_order json s'.nav_item ≡ s'.order
  unfolding handle reorder reorder_from
  load-drop from to s v e ne =
      subst
        (λ d.
          let s' = reorder_from json true d to (release s) in
          load_nav_order json s'.nav_item ≡ s'.order)
        (sym e)
        (elim (Bool-cases (from == to)) [
          | inl same ↦ absurd (ne ((==_iff from to).0 same))
          | inr other ↦ rw other (
              load-stringify (move undefined s.order from to)
                (move-IsArrangement s.order from to v.arranged (subst InRange e v.in_range)))
        ])
