-- ===== src/Sidebar.antt =====
-- The navigation of the dashboard: `loadNavOrder` and `Sidebar` of frontend/src/main.tsx, and the tabs
-- of frontend/src/views/shared.tsx.
pub mod Arrangement
pub mod Dragging
pub mod Reload
mod Tests
use relay_local.Prelude.{
  ℕ, ◌+◌, Bool, true, false, not, ◌&&◌, Option, none, some, List, [], ◌∷◌, String, length, map,
  if◌then◌else◌, ◌==◌,
}
use relay_local.Prelude.Splice.{move}
use relay_local.Js.{
  Value, Values, undefined, text, array, to_list, from_list, is_text, Json, Item, unavailable,
  missing, found, stored_value,
}

abbrev pub tabs : List String
tabs =
    "Overview" ∷ "Runtimes" ∷ "Models" ∷ "Performance" ∷ "Usage" ∷ "Finance" ∷ "Schedule"
    ∷ "Settings" ∷ []

-- The tabs as values of the language, which the stored order is made of.
abbrev pub tab_values : List Value
tab_values = map text tabs

-- `stored.includes(t)`
abbrev pub includes : List Value → String → Bool
includes [] t = false
includes (v ∷ vs) t = let rest = includes vs t in if is_text v t then true else rest

abbrev pub includes_all : List String → List Value → Bool
includes_all [] vs = true
includes_all (t ∷ ts) vs = includes vs t && includes_all ts vs

nav_order_of : Option Value → List Value
nav_order_of (some (array vs)) =
    let stored = to_list vs in
    if length stored == length tabs && includes_all tabs stored then stored else tab_values
nav_order_of _ = tab_values

unfoldable pub load_nav_order : Json → Item → List Value
unfolding nav_order_of
load_nav_order json item = nav_order_of (stored_value json item)

-- `localStorage.getItem(SIDEBAR_KEY) !== 'collapsed'`, and `true` where that fails.
unfoldable pub load_expanded : Item → Bool
load_expanded (found s) = not (is_text (text s) "collapsed")
load_expanded _ = true

-- The component's state, with the texts that it stores. The two setters of `dragging` and the ref
-- `dragIndex` are separate cells of the source.
pub record Sidebar : Type 0 where
  pub order : List Value
  pub expanded : Bool
  pub dragging : Option ℕ
  pub over : Option ℕ
  pub drag_index : Option ℕ
  pub nav_item : Item
  pub sidebar_item : Item

unfoldable pub mount : Json → Item → Item → Sidebar
mount json nav_item sidebar_item = record {
  order = load_nav_order json nav_item;
  expanded = load_expanded sidebar_item;
  dragging = none;
  over = none;
  drag_index = none;
  nav_item = nav_item;
  sidebar_item = sidebar_item;
}

-- `localStorage.setItem`, whose exception is swallowed; `writable` says whether it succeeds.
abbrev pub write : Bool → String → Item → Item
write writable s old = if writable then found s else old

unfoldable pub toggle_sidebar : Bool → Sidebar → Sidebar
toggle_sidebar writable s =
    let next = not s.expanded in
    record s {
      expanded = next;
      sidebar_item = write writable (if next then "expanded" else "collapsed") s.sidebar_item;
    }

abbrev pub release : Sidebar → Sidebar
release s = record s { dragging = none; over = none; drag_index = none }

reorder_from : Json → Bool → Option ℕ → ℕ → Sidebar → Sidebar
reorder_from json writable none to s = s
reorder_from json writable (some from) to s =
    let next = move undefined s.order from to in
    if from == to then s else record s {
      order = next;
      nav_item = write writable (json.stringify (array (from_list next))) s.nav_item;
    }

unfoldable pub reorder : Json → Bool → ℕ → Sidebar → Sidebar
unfolding reorder_from
reorder json writable to s = reorder_from json writable s.drag_index to (release s)

-- The handlers of the buttons, `i` being the place of the button, and of the collapse button.
pub data Event : Type 0 where
  drag_start : ℕ → Event
  drag_over : ℕ → Event
  drop : Bool → ℕ → Event
  drag_end : Event
  collapse : Bool → Event

unfoldable pub handle : Json → Event → Sidebar → Sidebar
unfolding reorder toggle_sidebar
handle json (drag_start i) s = record s { drag_index = some i; dragging = some i }
handle json (drag_over i) s = record s { over = some i }
handle json (drop writable i) s = reorder json writable i s
handle json drag_end s = release s
handle json (collapse writable) s = toggle_sidebar writable s
