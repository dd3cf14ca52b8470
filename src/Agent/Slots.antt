-- ===== src/Agent/Slots.antt =====
-- The slots of an agent, one for each backend: `New`, `Discover`, `Catalog` and `reserve` of
-- internal/agent/agent.go.
pub mod Choice
pub mod Catalog
use relay_local.Prelude.{
  ℕ, ◌+◌, Bool, true, false, not, Option, none, some, List, [], ◌∷◌, String, map, modify,
  if◌then◌else◌, str_eq,
}
use relay_local.Prelude.Int.{ℤ, pos, leb_ℤ, ◌+ℤ◌, ◌-ℤ◌}
use relay_local.Protocol.{Model, Backend, Message}
use relay_local.Config
use relay_local.Discovery.{Listings, Reply, discover}

-- `active` is an `int`: nothing in its type keeps it above zero.
pub record Slot : Type 0 where
  pub config : Config.Backend
  pub catalog : Backend
  pub active : ℤ

-- The zero value of `protocol.Backend`.
abbrev pub no_backend : Backend
no_backend = record {
  id = "";
  kind = "";
  source = "";
  ready = false;
  capacity = pos 0;
  available = pos 0;
  models = [];
}

abbrev pub new_slot : Config.Backend → Slot
new_slot b = record { config = b; catalog = no_backend; active = pos 0 }

abbrev pub slots_or_error : Config.Agent × Option String → Option (List Slot)
slots_or_error (c, some e) = none
slots_or_error (c, none) = some (map new_slot c.backends)

-- `New`, where an error is none.
unfoldable pub new_agent : Config.Urls.Net → Config.Agent → Option (List Slot)
new_agent net c = slots_or_error (Config.validate net c)

-- What one goroutine of `Discover` does to its slot.
unfoldable pub refresh : Listings → Reply → Slot → Slot
refresh json reply s = record s { catalog = (discover json s.config false reply).0 }

-- `Discover`, with the answer for each backend.
unfoldable pub discover_all : Listings → (String → Reply) → List Slot → List Slot
discover_all json replies slots = map (λ (s : Slot). refresh json (replies s.config.id) s) slots

abbrev pub with_room : Slot → Backend
with_room s = record s.catalog { available = s.catalog.capacity -ℤ s.active }

-- `Catalog`
unfoldable pub catalog : List Slot → List Backend
catalog slots = map with_room slots

-- The code of an error, or the place of the slot and the name of the model.
pub data Reserved : Type 0 where
  refused : String → Reserved
  taken : ℕ → String → Reserved

-- The inner loop: the first model with the id, or the next slot.
unfoldable pub reserve_model : ℕ → String → Slot → List Model → Reserved → Reserved
reserve_model i wanted s [] rest = rest
reserve_model i wanted s (m ∷ ms) rest =
    let others = reserve_model i wanted s ms rest in
    if not (str_eq m.id wanted)
    then others
    else if leb_ℤ s.catalog.capacity s.active
    then refused "busy"
    else taken i m.name

unfoldable pub reserve_slot : ℕ → Message → List Slot → Reserved
reserve_slot i m [] = refused "model_not_allowed"
reserve_slot i m (s ∷ ss) =
    let others = reserve_slot (i + 1) m ss in
    if not (str_eq s.catalog.id m.backend_id)
    then others
    else if not s.catalog.ready
    then refused "backend_unavailable"
    else reserve_model i m.model s s.catalog.models others

-- `reserve`, where `is_object` says whether a text is a JSON object. The slot that is taken is counted
-- by `occupy`.
unfoldable pub reserve : (List ℕ → Bool) → Message → List Slot → Reserved
reserve is_object m slots =
    if not (is_object m.body) then refused "invalid_request" else reserve_slot 0 m slots

-- `s.active++` and `s.active--`
unfoldable pub occupy : ℕ → List Slot → List Slot
occupy i slots = modify slots i λ (s : Slot). record s { active = s.active +ℤ pos 1 }

unfoldable pub release : ℕ → List Slot → List Slot
release i slots = modify slots i λ (s : Slot). record s { active = s.active -ℤ pos 1 }
