-- ===== src/Agent/Slots/Catalog.antt =====
-- The catalogue that an agent announces, `Catalog` of internal/agent/agent.go, is one that the
-- coordinator accepts.
use relay_local.Prelude.{
  ◌≡◌, refl, sym, subst, ap, ◌∙◌, none, List, [], ◌∷◌, map, length, length-map, All, arith,
}
use relay_local.Prelude.Int.{ℤ, pos, ◌≤ℤ◌, ◌-ℤ◌, int_laws}
use relay_local.Protocol.{Backend, validate_catalog}
use relay_local.Protocol.Catalog.{IsDistinct, IsBackend, validate_catalog_iff}
use relay_local.Config
use relay_local.Config.Accepted
use relay_local.Discovery.Offered.{IsAnnounced}
use relay_local.Agent.Slots.{Slot, with_room, catalog}

-- A slot whose backend was asked for its models, with no more requests than it takes.
pub record IsSlot (s : Slot) : Type 0 where
  pub announced : IsAnnounced s.config s.catalog
  pub low : pos 0 ≤ℤ s.active
  pub high : s.active ≤ℤ s.config.concurrency

IsBackend-with_room : (s : Slot) → IsSlot s → IsBackend (with_room s)
IsBackend-with_room s v =
    let same : s.catalog.capacity -ℤ s.active ≡ s.config.concurrency -ℤ s.active =
      ap (λ (n : ℤ). n -ℤ s.active) v.announced.room in
    v.announced.accepted (s.catalog.capacity -ℤ s.active)
      (rw same (omega (int_laws, v.low, v.high))) (rw same (omega (int_laws, v.low, v.high)))

All-with_room : (slots : List Slot) → All IsSlot slots → All IsBackend (catalog slots)
unfolding catalog
All-with_room [] a = tt
All-with_room (s ∷ ss) (v, a) = (IsBackend-with_room s v, All-with_room ss a)

-- The identities are those of the configuration.
ids-catalog :
    (slots : List Slot)
    → All IsSlot slots
    → map (λ (b : Backend). b.id) (catalog slots)
      ≡ map (λ (b : Config.Backend). b.id) (map (λ (s : Slot). s.config) slots)
unfolding catalog
ids-catalog [] a = refl
ids-catalog (s ∷ ss) (v, a) = rw (v.announced.identity, ids-catalog ss a) refl

pub catalog-IsAccepted :
    (net : Config.Urls.Net) (c : Config.Agent) (slots : List Slot)
    → Config.Accepted.IsConfig net c
    → map (λ (s : Slot). s.config) slots ≡ c.backends
    → All IsSlot slots
    → validate_catalog (catalog slots) ≡ none
catalog-IsAccepted net c slots (_, _, _, _, _, many, ids, _, _) same a =
    let count : length (catalog slots) ≡ length c.backends =
      unfold catalog in
      length-map with_room slots
      ∙ (sym (length-map (λ (s : Slot). s.config) slots) ∙ ap length same) in
    let keys = ids-catalog slots a ∙ ap (map λ (b : Config.Backend). b.id) same in
    (validate_catalog_iff (catalog slots)).1
      (omega arith, subst IsDistinct (sym keys) ids, All-with_room slots a)
