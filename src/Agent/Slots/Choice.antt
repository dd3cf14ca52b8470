-- ===== src/Agent/Slots/Choice.antt =====
-- Which slot `reserve` of internal/agent/agent.go takes.
use relay_local.Prelude.{
  ℕ, suc, ◌+◌, ◌≡◌, refl, ◌⊎◌, inl, inr, Bool, true, false, some, List, [], ◌∷◌, String, get_elem?,
  Occurs, if◌then◌else◌, str_eq, str_eq_iff, Bool-cases, arith,
}
use relay_local.Prelude.Int.{leb_ℤ}
use relay_local.Protocol.{Model, Message}
use relay_local.Agent.Slots.{Slot, Reserved, refused, taken, reserve_model, reserve_slot, reserve}

-- A slot that has room for a request, with the name of the wanted model.
pub record Serves (m : Message) (name : String) (s : Slot) : Type 0 where
  pub backend : s.catalog.id ≡ m.backend_id
  pub ready : s.catalog.ready ≡ true
  pub free : leb_ℤ s.catalog.capacity s.active ≡ false
  pub model : Model
  pub listed : Occurs model s.catalog.models
  pub wanted : model.id ≡ m.model
  pub named : model.name ≡ name

-- A model of the slot is taken, or what the other slots give.
reserve_model-taken :
    (i : ℕ) (wanted : String) (s : Slot) (ms : List Model) (rest : Reserved) (k : ℕ) (name : String)
    → reserve_model i wanted s ms rest ≡ taken k name
    → ((k ≡ i)
        × (leb_ℤ s.catalog.capacity s.active ≡ false)
        × ((m : Model) × Occurs m ms × (m.id ≡ wanted) × (m.name ≡ name)))
      ⊎ (rest ≡ taken k name)
unfolding reserve_model
reserve_model-taken i wanted s [] rest k name h = inr h
reserve_model-taken i wanted s (m ∷ ms) rest k name h = elim (Bool-cases (str_eq m.id wanted)) [
  | inl same ↦
      let h' : (if leb_ℤ s.catalog.capacity s.active then refused "busy" else taken i m.name)
          ≡ taken k name =
        rw same at h in
      elim (Bool-cases (leb_ℤ s.catalog.capacity s.active)) [
        | inl full ↦ absurd (ground arith)
        | inr room ↦
            inl (ground arith, room, (m, (0, refl), (str_eq_iff m.id wanted).0 same, ground arith))
      ]
  | inr other ↦ elim (reserve_model-taken i wanted s ms rest k name (rw other at h)) [
    | inl (e, room, (n, (j, at), id, named)) ↦ inl (e, room, (n, (suc j, at), id, named))
    | inr later ↦ inr later
  ]
]

-- The slot at place `k`, where the list begins with place `i`.
abbrev IsAt : ℕ → Message → List Slot → ℕ → String → Type 0
IsAt i m slots k name =
    (j : ℕ) × (s : Slot) × (k ≡ i + j) × (get_elem? slots j ≡ some s) × Serves m name s

reserve_slot-taken :
    (i : ℕ) (m : Message) (slots : List Slot) (k : ℕ) (name : String)
    → reserve_slot i m slots ≡ taken k name
    → IsAt i m slots k name
unfolding reserve_slot
reserve_slot-taken i m [] k name h = absurd (ground arith)
reserve_slot-taken i m (s ∷ ss) k name h =
    let others : reserve_slot (i + 1) m ss ≡ taken k name → IsAt i m (s ∷ ss) k name = λ h.
      let (j, x, e, at, serves) = reserve_slot-taken (i + 1) m ss k name h in
      (suc j, x, omega arith, at, serves) in
    elim (Bool-cases (str_eq s.catalog.id m.backend_id)) [
      | inr other ↦ others (rw other at h)
      | inl same ↦ elim (Bool-cases s.catalog.ready) [
        | inr down ↦ absurd (ground arith)
        | inl up ↦
            elim (reserve_model-taken i m.model s s.catalog.models (reserve_slot (i + 1) m ss) k
              name (ground arith)) [
                | inr later ↦ others later
                | inl (e, room, (n, occurs, id, named)) ↦ (
                  0,
                  s,
                  omega arith,
                  refl,
                  record {
                    backend = (str_eq_iff s.catalog.id m.backend_id).0 same;
                    ready = up;
                    free = room;
                    model = n;
                    listed = occurs;
                    wanted = id;
                    named = named;
                  },
                )
              ]
      ]
    ]

pub reserve-taken :
    (is_object : List ℕ → Bool) (m : Message) (slots : List Slot) (k : ℕ) (name : String)
    → reserve is_object m slots ≡ taken k name
    → (s : Slot) × (get_elem? slots k ≡ some s) × Serves m name s
unfolding reserve
reserve-taken is_object m slots k name h = elim (Bool-cases (is_object m.body)) [
  | inr bad ↦ absurd (ground arith)
  | inl good ↦
      let (j, s, e, at, serves) = reserve_slot-taken 0 m slots k name (rw good at h) in
      let same : k ≡ j = omega arith in (s, rw same at, serves)
]
