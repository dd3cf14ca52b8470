-- ===== src/History/Recorder/Tracks.antt =====
-- What the recorder knows after any events of an agent's attempts (internal/dashboard/dashboard.go).
use mathlib.Core.Option
use relay_local.Prelude.{
  ◌≡◌, refl, ap, ◌∙◌, inl, inr, Bool, not, ◌&&◌, Option, none, some, List, [], ◌∷◌, String, filter,
  if◌then◌else◌, str_eq, str_eq_iff, Bool-cases, arith,
}
use relay_local.Prelude.Int.{ℤ}
use relay_local.Api.{lookup}
use relay_local.History.{Event, key_of, put_entry, record_event}
use relay_local.History.Recorder.{
  AttemptEvent, LiveAttempt, Managed, delete, put, grow, grow_found, model_key, event_of, record_in,
  record_attempt,
}

-- What one event of an attempt makes of its live figures.
abbrev pub follow : AttemptEvent → Option LiveAttempt → Option LiveAttempt
follow e o =
    if str_eq e.kind "response_start"
    then some (record { model = model_key e; bytes = 0; text_bytes = 0 })
    else if str_eq e.kind "response_chunk"
    then Option.map (grow e) o
    else none

abbrev pub is_of : String → ℤ × AttemptEvent → Bool
is_of id (now, e) = str_eq e.attempt_id id

abbrev pub is_last : ℤ × AttemptEvent → Bool
is_last (now, e) = not (str_eq e.kind "response_start") && not (str_eq e.kind "response_chunk")

abbrev pub record_all : (ℤ → String) → List (ℤ × AttemptEvent) → Managed → Managed
record_all print [] m = m
record_all print ((now, e) ∷ es) m = record_all print es (record_attempt print now e m)

abbrev pub follow_all : List (ℤ × AttemptEvent) → Option LiveAttempt → Option LiveAttempt
follow_all [] o = o
follow_all ((now, e) ∷ es) o = follow_all es (follow e o)

lookup-delete :
    (id j : String) (active : List (String × LiveAttempt))
    → lookup (delete id active) j ≡ (if str_eq id j then none else lookup active j)
unfolding lookup
lookup-delete id j [] = ground arith
lookup-delete id j ((k, a) ∷ active) =
    ground (arith, lookup-delete id j active, str_eq_iff k id, str_eq_iff k j, str_eq_iff id j)

lookup-put :
    (id j : String) (a : LiveAttempt) (active : List (String × LiveAttempt))
    → lookup (put id a active) j ≡ (if str_eq id j then some a else lookup active j)
unfolding lookup
lookup-put id j a active = ground (arith, lookup-delete id j active)

lookup-grow_found :
    (e : AttemptEvent) (id : String) (o : Option LiveAttempt) (active : List (String × LiveAttempt))
    → lookup active e.attempt_id ≡ o
    → lookup (grow_found e o active) id
      ≡ (if str_eq e.attempt_id id then Option.map (grow e) o else lookup active id)
lookup-grow_found e id none active h = ground (arith, str_eq_iff e.attempt_id id)
lookup-grow_found e id (some a) active h = lookup-put e.attempt_id id (grow e a) active

-- A figure of the same key.
at_key {ℓ} :
    {A B : Type ℓ} (f : String → A) (g : A → B) (j id : String) (other : B)
    → (if str_eq j id then g (f j) else other) ≡ (if str_eq j id then g (f id) else other)
at_key f g j id other = elim (Bool-cases (str_eq j id)) [
  | inl same ↦ rw same (ap (λ k. g (f k)) ((str_eq_iff j id).0 same))
  | inr differ ↦ rw differ refl
]

lookup-record_attempt :
    (print : ℤ → String) (now : ℤ) (e : AttemptEvent) (m : Managed) (id : String)
    → lookup (record_attempt print now e m).active id
      ≡ (if str_eq e.attempt_id id then follow e (lookup m.active id) else lookup m.active id)
unfolding record_attempt
lookup-record_attempt print now e m id = elim (Bool-cases (str_eq e.kind "response_start")) [
  | inl start ↦ rw start (lookup-put e.attempt_id id _ m.active)
  | inr later ↦ elim (Bool-cases (str_eq e.kind "response_chunk")) [
    | inr last ↦ rw (later, last) (lookup-delete e.attempt_id id m.active)
    | inl chunk ↦
        rw (later, chunk)
          (lookup-grow_found e id (lookup m.active e.attempt_id) m.active refl
            ∙ at_key (lookup m.active) (Option.map (grow e)) e.attempt_id id (lookup m.active id))
  ]
]

history-record_attempt :
    (print : ℤ → String) (now : ℤ) (e : AttemptEvent) (m : Managed)
    → (record_attempt print now e m).history
      ≡ (if is_last (now, e) then record_in print (event_of now e) m.history else m.history)
unfolding record_attempt
history-record_attempt print now e m = ground arith

-- The events that a list of them adds to the history.
abbrev pub recorded : List (ℤ × AttemptEvent) → List Event
recorded [] = []
recorded ((now, e) ∷ es) =
    let rest = recorded es in if is_last (now, e) then event_of now e ∷ rest else rest

lookup-record_all :
    (print : ℤ → String) (es : List (ℤ × AttemptEvent)) (m : Managed) (id : String)
    → lookup (record_all print es m).active id
      ≡ follow_all (filter (is_of id) es) (lookup m.active id)
lookup-record_all print [] m id = refl
lookup-record_all print ((now, e) ∷ es) m id =
    let one = lookup-record_attempt print now e m id in
    let rest = lookup-record_all print es (record_attempt print now e m) id in
    elim (Bool-cases (str_eq e.attempt_id id)) [
      | inl own ↦ rw own (rest ∙ ap (follow_all (filter (is_of id) es)) (rw own at one))
      | inr other ↦ rw other (rest ∙ ap (follow_all (filter (is_of id) es)) (rw other at one))
    ]

-- The last event of a key, if there is one among new events, and else what was there.
abbrev pub latest : (ℤ → String) → String → List Event → Option Event → Option Event
latest print key [] old = old
latest print key (e ∷ es) old =
    latest print key es (if str_eq (key_of print e) key then some e else old)

-- What the store has under a key; and after new events, if there is a store.
abbrev pub entry : String → Option (List (String × Event)) → Option Event
entry key none = none
entry key (some entries) = lookup entries key

abbrev pub entry_after :
    (ℤ → String) → String → List Event → Option (List (String × Event)) → Option Event
entry_after print key es none = none
entry_after print key es (some entries) = latest print key es (lookup entries key)

lookup-put_entry :
    (key j : String) (e : Event) (entries : List (String × Event))
    → lookup (put_entry key e entries) j ≡ (if str_eq key j then some e else lookup entries j)
unfolding lookup
lookup-put_entry key j e [] = refl
lookup-put_entry key j e ((k, old) ∷ entries) =
    ground
      (arith, lookup-put_entry key j e entries, str_eq_iff k key, str_eq_iff k j, str_eq_iff key j)

entry_after-record_in :
    (print : ℤ → String) (key : String) (e : Event) (es : List Event)
    (h : Option (List (String × Event)))
    → entry_after print key es (record_in print e h) ≡ entry_after print key (e ∷ es) h
unfolding record_event
entry_after-record_in print key e es none = refl
entry_after-record_in print key e es (some entries) =
    ap (latest print key es) (lookup-put_entry (key_of print e) key e entries)

entry-record_all :
    (print : ℤ → String) (key : String) (es : List (ℤ × AttemptEvent)) (m : Managed)
    → entry key (record_all print es m).history ≡ entry_after print key (recorded es) m.history
entry-record_all print key [] m = entry_after-nil m.history
  where
    entry_after-nil :
        (h : Option (List (String × Event))) → entry key h ≡ entry_after print key [] h
    entry_after-nil none = refl
    entry_after-nil (some entries) = refl
entry-record_all print key ((now, e) ∷ es) m =
    let one = history-record_attempt print now e m in
    let rest = entry-record_all print key es (record_attempt print now e m) in
    elim (Bool-cases (is_last (now, e))) [
      | inl last ↦ rw last (
          rest
          ∙ (ap (entry_after print key (recorded es)) (rw last at one)
              ∙ entry_after-record_in print key (event_of now e) (recorded es) m.history))
      | inr early ↦ rw early (rest ∙ ap (entry_after print key (recorded es)) (rw early at one))
    ]

-- After any events, of any attempts and in any order: the live figures of each attempt are those that
-- its own events make, one after the other; they begin with its start, grow by its chunks, and are gone
-- with its last event; and under each key the store, if there is one, has the last request of that key
-- among those that each last event of an attempt adds, and what it had before where there is none. The
-- writes are taken to succeed.
pub record_all-Tracks :
    (print : ℤ → String) (es : List (ℤ × AttemptEvent)) (m : Managed)
    → ((id : String)
        → lookup (record_all print es m).active id
          ≡ follow_all (filter (is_of id) es) (lookup m.active id))
      × ((key : String)
          → entry key (record_all print es m).history
            ≡ entry_after print key (recorded es) m.history)
record_all-Tracks print es m =
    (lookup-record_all print es m, λ key. entry-record_all print key es m)
