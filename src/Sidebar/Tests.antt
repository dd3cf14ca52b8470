-- ===== src/Sidebar/Tests.antt =====
-- A run of the sidebar, and each theorem at a concrete input.
use relay_local.Prelude.{◌≡◌, refl, true, false, none, some, [], ◌∷◌, arith, get_elem?}
use relay_local.Prelude.Splice.{splice}
use relay_local.Js.{text, missing, found, stored_value}
use relay_local.Samples.Codec.{codec, codec-IsJson, read_text}
use relay_local.Sidebar.{Sidebar, mount, handle, drag_start, drop, load_nav_order, nav_order_of}
use relay_local.Sidebar.Arrangement.{IsArrangement, load_nav_order-IsArrangement}
use relay_local.Sidebar.Dragging.{IsValid, mount-IsValid, handle-IsValid, drop_places}
use relay_local.Sidebar.Reload.{load-drop}

-- The first visit, with the third tab picked up.
abbrev dragging : Sidebar
dragging = handle codec (drag_start 2) (mount codec missing missing)

dragging-IsValid : IsValid dragging
dragging-IsValid =
    handle-IsValid codec (drag_start 2) (mount codec missing missing) (omega arith)
      (mount-IsValid codec missing missing)

-- A stored order that names a tab twice is not used.
load_nav_order-IsArrangement_example : IsArrangement (load_nav_order codec (found "[+-O-O.+-O-O.]"))
load_nav_order-IsArrangement_example = load_nav_order-IsArrangement codec (found "[+-O-O.+-O-O.]")

handle-IsValid_example : IsValid (handle codec (drop true 0) dragging)
handle-IsValid_example = handle-IsValid codec (drop true 0) dragging (omega arith) dragging-IsValid

drop_places_example :
    let s = handle codec (drop false 0) dragging in
    (get_elem? s.order 0 ≡ some (text "Models"))
    × (splice s.order 0 1 []
        ≡ text "Overview"
          ∷ text "Runtimes"
          ∷ text "Performance"
          ∷ text "Usage"
          ∷ text "Finance"
          ∷ text "Schedule"
          ∷ text "Settings"
          ∷ [])
    × (s.drag_index ≡ none)
    × (s.dragging ≡ none)
    × (s.over ≡ none)
unfolding handle mount load_nav_order nav_order_of stored_value read_text
drop_places_example = drop_places codec false 2 0 dragging dragging-IsValid refl (omega arith)

load-drop_example :
    let s = handle codec (drop true 7) dragging in load_nav_order codec s.nav_item ≡ s.order
unfolding handle mount
load-drop_example = load-drop codec codec-IsJson 2 7 dragging dragging-IsValid refl (omega arith)
