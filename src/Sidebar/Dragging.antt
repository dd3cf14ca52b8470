-- ===== src/Sidebar/Dragging.antt =====
-- Dragging a tab: what every event keeps, what a drop does, and what a later visit loads.

use mathlib.Core.List.Perm
use relay_local.Prelude.{
  ℕ, ◌<◌, ◌≡◌, refl, sym, subst, inl, inr, Bool, Option, none, some, List, [], arith, length,
  get_elem?, Bool-cases, ◌==◌, ==_iff,
}
use relay_local.Prelude.Splice.{move, splice, move-perm, move_places, length-Perm}
use relay_local.Js.{Value, undefined, Json, Item}
use relay_local.Sidebar.{
  tabs, Sidebar, mount, toggle_sidebar, release, reorder_from, reorder, Event, drag_start,
  drag_over, drop, drag_end, collapse, handle,
}
use relay_local.Sidebar.Arrangement.{IsArrangement, load_nav_order-IsArrangement}

abbrev pub InRange : Option ℕ → Type 0
InRange none = Unit
InRange (some i) = i < length tabs

-- The state and the ref that name the dragged button agree, and name a button that is there.
pub record IsValid (s : Sidebar) : Type 0 where
  pub arranged : IsArrangement s.order
  pub in_range : InRange s.drag_index
  pub agree : s.dragging ≡ s.drag_index

-- The place of a handler is that of a button on the page.
abbrev pub IsOnPage : Event → Type 0
IsOnPage (drag_start i) = i < length tabs
IsOnPage (drag_over i) = i < length tabs
IsOnPage (drop writable i) = i < length tabs
IsOnPage _ = Unit

pub mount-IsValid :
    (json : Json) (nav_item sidebar_item : Item) → IsValid (mount json nav_item sidebar_item)
unfolding mount
mount-IsValid json nav_item sidebar_item = record {
  arranged = load_nav_order-IsArrangement json nav_item;
  in_range = tt;
  agree = refl;
}

pub move-IsArrangement :
    (order : List Value) (from to : ℕ)
    → IsArrangement order
    → from < length tabs
    → IsArrangement (move undefined order from to)
move-IsArrangement order from to a h =
    Perm.trans (move-perm undefined order from to (omega (arith, length-Perm a))) a

reorder_from-IsValid :
    (json : Json) (writable : Bool) (from : Option ℕ) (to : ℕ) (s : Sidebar)
    → InRange from
    → IsValid s
    → IsValid (reorder_from json writable from to s)
unfolding reorder_from
reorder_from-IsValid json writable none to s h v = v
reorder_from-IsValid json writable (some from) to s h v = elim (Bool-cases (from == to)) [
  | inl same ↦ rw same v
  | inr other ↦ rw other (record {
    arranged = move-IsArrangement s.order from to v.arranged h;
    in_range = v.in_range;
    agree = v.agree;
  })
]

-- Every event on a button of the page, and every collapse, keeps a valid state valid: the order stays an
-- arrangement of all eight tabs, and the two records of the dragged button agree.
pub handle-IsValid :
    (json : Json) (e : Event) (s : Sidebar) → IsOnPage e → IsValid s → IsValid (handle json e s)
unfolding handle reorder toggle_sidebar
handle-IsValid json (drag_start i) s h v = record {
  arranged = v.arranged;
  in_range = h;
  agree = refl;
}
handle-IsValid json (drag_over i) s h v = record {
  arranged = v.arranged;
  in_range = v.in_range;
  agree = v.agree;
}
handle-IsValid json (drop writable i) s h v =
    reorder_from-IsValid json writable s.drag_index i (release s) v.in_range
      (record { arranged = v.arranged; in_range = tt; agree = refl })
handle-IsValid json drag_end s h v = record { arranged = v.arranged; in_range = tt; agree = refl }
handle-IsValid json (collapse writable) s h v = record {
  arranged = v.arranged;
  in_range = v.in_range;
  agree = v.agree;
}

abbrev IsIdle : Sidebar → Type 0
IsIdle s = (s.drag_index ≡ none) × (s.dragging ≡ none) × (s.over ≡ none)

reorder_from-IsIdle :
    (json : Json) (writable : Bool) (from : Option ℕ) (to : ℕ) (s : Sidebar)
    → IsIdle s
    → IsIdle (reorder_from json writable from to s)
unfolding reorder_from
reorder_from-IsIdle json writable none to s i = i
reorder_from-IsIdle json writable (some from) to s i = ground arith

places-reorder_from :
    (json : Json) (writable : Bool) (from to : ℕ) (s : Sidebar)
    → from < length s.order
    → to < length s.order
    → let s' = reorder_from json writable (some from) to s in
      (get_elem? s'.order to ≡ get_elem? s.order from)
      × (splice s'.order to 1 [] ≡ splice s.order from 1 [])
unfolding reorder_from
places-reorder_from json writable from to s h k = elim (Bool-cases (from == to)) [
  | inl same ↦ rw (same, (==_iff from to).0 same) (refl, refl)
  | inr other ↦ rw other (move_places undefined s.order from to h k)
]

-- In a valid state, dropping the tab that stands at `from` on the button at `to`, one of the eight
-- places: the tab then stands at `to`, the other tabs keep their order, and nothing is dragged any more, whether or not the order could be stored.
pub drop_places :
    (json : Json) (writable : Bool) (from to : ℕ) (s : Sidebar)
    → IsValid s
    → s.drag_index ≡ some from
    → to < length tabs
    → let s' = handle json (drop writable to) s in
      (get_elem? s'.order to ≡ get_elem? s.order from)
      × (splice s'.order to 1 [] ≡ splice s.order from 1 [])
      × (s'.drag_index ≡ none)
      × (s'.dragging ≡ none)
      × (s'.over ≡ none)
unfolding handle reorder
drop_places json writable from to s v e k =
    let n = length-Perm v.arranged in
    let here : from < length tabs = subst InRange e v.in_range in
    subst
      (λ d.
        let s' = reorder_from json writable d to (release s) in
        (get_elem? s'.order to ≡ get_elem? s.order from)
        × (splice s'.order to 1 [] ≡ splice s.order from 1 [])
        × (s'.drag_index ≡ none)
        × (s'.dragging ≡ none)
        × (s'.over ≡ none))
      (sym e)
      (let (found_at, rest) =
          places-reorder_from json writable from to (release s) (omega arith) (omega arith) in
        let idle =
          reorder_from-IsIdle json writable (some from) to (release s) (refl, refl, refl) in
        (found_at, rest, idle.0, idle.1, idle.2))
