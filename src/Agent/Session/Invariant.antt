-- ===== src/Agent/Session/Invariant.antt =====
-- What holds of a session, and that each message of the coordinator keeps it.
use relay_local.Prelude.{
  ℕ, ◌≤◌, ◌<◌, ◌≡◌, refl, ◌∙◌, inl, inr, Bool, false, ◌&&◌, ◌||◌, Option, some, List, [], ◌∷◌, ◌++◌,
  String, map, length, All, ltb, leb, Bool-cases, arith,
}
use relay_local.Prelude.Counts.{map-modify}
use relay_local.Prelude.Int.{pos, ◌+ℤ◌, ◌-ℤ◌}
use relay_local.Protocol.{Kind, Message, has_key}
use relay_local.Config
use relay_local.Config.Accepted
use relay_local.Agent.Slots.{Slot, Reserved, refused, taken, reserve, occupy, release}
use relay_local.Agent.Slots.Choice.{reserve-taken}
use relay_local.Agent.Session.{
  Session, session_limit, rejection, after_reserve, request, on_message,
}
use relay_local.Agent.Session.Tasks.{AreHeld, AreHeld-occupy}
use relay_local.Agent.Session.Ledger.{Kept, Kept-refused, Kept-taken}

abbrev pub configs : List Slot → List Config.Backend
configs = map λ (x : Slot). x.config

module _ (net : Config.Urls.Net) (backends : List Config.Backend)
    (valid : All (Config.Accepted.IsBackend net) backends) where
  -- The slots are those of the configuration and count the requests that execute on them, which are
  -- never more than they take; of the attempts that were seen each has one answer or one task.
  pub record Inv (s : Session) : Type 0 where
    pub same : configs s.slots ≡ backends
    pub slots : AreHeld s.slots s.tasks
    pub attempts : Kept s.answers s.tasks s.seen s.active
    pub limit : length s.seen ≤ session_limit
    pub acks : s.acked ≤ s.sent

  configs-occupy : (i : ℕ) (slots : List Slot) → configs (occupy i slots) ≡ configs slots
  unfolding occupy
  configs-occupy i slots =
      map-modify (λ (x : Slot). x.config) (λ (x : Slot). record x { active = x.active +ℤ pos 1 })
        (λ x. refl) slots i

  pub configs-release : (i : ℕ) (slots : List Slot) → configs (release i slots) ≡ configs slots
  unfolding release
  configs-release i slots =
      map-modify (λ (x : Slot). x.config) (λ (x : Slot). record x { active = x.active -ℤ pos 1 })
        (λ x. refl) slots i

  Inv-after_reserve :
      (is_object : List ℕ → Bool) (m : Message) (delivered : Bool) (s : Session) (r : Reserved)
      → has_key s.seen m.attempt_id ≡ false
      → length s.seen < session_limit
      → reserve is_object m s.slots ≡ r
      → Inv s
      → Inv (after_reserve m delivered r (record s { seen = m.attempt_id ∷ s.seen }))
  unfolding after_reserve
  Inv-after_reserve is_object m delivered s (refused code) new few e v = record {
    same = v.same;
    slots = v.slots;
    attempts =
        Kept-refused s.answers s.tasks s.seen s.active (rejection m.attempt_id code) new v.attempts;
    limit = omega arith;
    acks = v.acks;
  }
  Inv-after_reserve is_object m delivered s (taken i name) new few e v =
      let (x, at, serves) = reserve-taken is_object m s.slots i name e in
      record {
        same = configs-occupy i s.slots ∙ v.same;
        slots = AreHeld-occupy s.slots s.tasks m.attempt_id i at serves.free v.slots;
        attempts = Kept-taken s.answers s.tasks s.seen s.active m.attempt_id i new v.attempts;
        limit = omega arith;
        acks = v.acks;
      }

  -- A change of what the invariant does not speak of.
  pub Inv-over :
      (s : Session) (stopped : List String) (over : Option String)
      → Inv s
      → Inv (record s { stopped = stopped; over = over })
  Inv-over s stopped over v = record {
    same = v.same;
    slots = v.slots;
    attempts = v.attempts;
    limit = v.limit;
    acks = v.acks;
  }

  Inv-request :
      (is_object : List ℕ → Bool) (m : Message) (delivered : Bool) (s : Session)
      → Inv s
      → Inv (request is_object m delivered s)
  unfolding request
  Inv-request is_object m delivered s v =
      elim (Bool-cases (has_key s.seen m.attempt_id || leb session_limit (length s.seen))) [
        | inl stop ↦ rw stop (Inv-over s s.stopped (some "duplicate attempt or session limit") v)
        | inr new ↦ rw new (
            Inv-after_reserve is_object m delivered s (reserve is_object m s.slots) (ground arith)
              (ground arith) refl v)
      ]

  pub Inv-on_message :
      (is_object : List ℕ → Bool) (m : Message) (delivered : Bool) (kind : Kind) (s : Session)
      → Inv s
      → Inv (on_message is_object m delivered kind s)
  unfolding on_message
  Inv-on_message is_object m delivered Kind.heartbeat_ack s v =
      elim (Bool-cases (ltb s.acked m.heartbeat_id && leb m.heartbeat_id s.sent)) [
        | inl new ↦ rw new (record {
          same = v.same;
          slots = v.slots;
          attempts = v.attempts;
          limit = v.limit;
          acks = ground arith;
        })
        | inr old ↦ rw old v
      ]
  Inv-on_message is_object m delivered Kind.cancel s v =
      elim (Bool-cases (has_key s.active m.attempt_id)) [
        | inl there ↦ rw there (Inv-over s (s.stopped ++ (m.attempt_id ∷ [])) s.over v)
        | inr gone ↦ rw gone v
      ]
  Inv-on_message is_object m delivered Kind.request s v = Inv-request is_object m delivered s v
  Inv-on_message is_object m delivered _ s v =
      Inv-over s s.stopped (some "unexpected coordinator message") v
