-- ===== src/Agent/Session/Runs.antt =====
-- What holds in every order of the steps of a session.
use relay_local.Prelude.{
  ℕ, ◌≡◌, refl, subst, ap, ◌∙◌, Bool, Option, none, some, List, [], ◌∷◌, String, get_elem?, All,
  All-get_elem?, get_elem?-map, arith,
}
use relay_local.Prelude.Counts.{map-modify}
use mathlib.Core.Option
use relay_local.Config
use relay_local.Config.Accepted
use relay_local.Discovery.{Listings}
use relay_local.Agent.{Exchange, Sent, execute}
use relay_local.Agent.Attempt.{execute-attempt_id}
use relay_local.Agent.Slots.{Slot, refresh}
use relay_local.Agent.Session.{
  Phase, executing, released, deleted, Task, Session, Event, receives, breaks, proceeds, beats,
  discovers, on_message, reads, returned, proceed_at, proceed_with, proceed, step, run,
}
use relay_local.Agent.Session.Tasks.{
  is_executing, AreHeld-release, AreHeld-go_on, AreHeld-leave, AreHeld-refresh,
}
use relay_local.Agent.Session.Ledger.{Kept-returned, Kept-deleted, Kept-answered}
use relay_local.Agent.Session.Invariant.{Inv, configs-release, Inv-over, Inv-on_message}

module _ (net : Config.Urls.Net) (backends : List Config.Backend)
    (valid : All (Config.Accepted.IsBackend net) backends) where
  Inv-reads :
      (s : Session) (f : Session → Session) (over : Option String)
      → Inv net backends valid s
      → Inv net backends valid (f s)
      → Inv net backends valid (reads over f s)
  Inv-reads s f none v w = w
  Inv-reads s f (some e) v w = v

  Inv-returned :
      (s : Session) (k : ℕ) (t : Task) (x : Exchange) (o : Option Sent)
      → get_elem? s.tasks k ≡ some t
      → t.phase ≡ executing
      → execute t.id x ≡ o
      → Inv net backends valid s
      → Inv net backends valid (returned k t o s)
  Inv-returned s k t x none at runs e v = v
  Inv-returned s k t x (some r) at runs e v = record {
    same = configs-release net backends valid t.slot s.slots ∙ v.same;
    slots =
        AreHeld-release s.slots s.tasks (λ t. record t { phase = released r.terminal }) k at runs
          refl v.slots;
    attempts =
        Kept-returned s.answers s.tasks s.seen s.active k r.terminal at runs
          (execute-attempt_id t.id x r e) v.attempts;
    limit = v.limit;
    acks = v.acks;
  }

  Inv-proceed_at :
      (s : Session) (k : ℕ) (x : Exchange) (t : Task) (p : Phase)
      → get_elem? s.tasks k ≡ some t
      → t.phase ≡ p
      → Inv net backends valid s
      → Inv net backends valid (proceed_at k x t p s)
  unfolding proceed_at
  Inv-proceed_at s k x t executing at runs v = Inv-returned s k t x (execute t.id x) at runs refl v
  Inv-proceed_at s k x t (released m) at runs v = record {
    same = v.same;
    slots =
        AreHeld-go_on s.slots s.tasks (λ t. record t { phase = deleted m }) k at
          (ap is_executing runs) refl v.slots;
    attempts = Kept-deleted s.answers s.tasks s.seen s.active k m at runs v.attempts;
    limit = v.limit;
    acks = v.acks;
  }
  Inv-proceed_at s k x t (deleted m) at runs v = record {
    same = v.same;
    slots = AreHeld-leave s.slots s.tasks k at (ap is_executing runs) v.slots;
    attempts = Kept-answered s.answers s.tasks s.seen s.active k m at runs v.attempts;
    limit = v.limit;
    acks = v.acks;
  }

  Inv-proceed_with :
      (s : Session) (k : ℕ) (x : Exchange) (o : Option Task)
      → get_elem? s.tasks k ≡ o
      → Inv net backends valid s
      → Inv net backends valid (proceed_with k x o s)
  Inv-proceed_with s k x none at v = v
  Inv-proceed_with s k x (some t) at v = Inv-proceed_at s k x t t.phase at refl v

  configured :
      (s : Session)
      → Inv net backends valid s
      → (i : ℕ) (x : Slot) → get_elem? s.slots i ≡ some x
      → Config.Accepted.IsBackend net x.config
  configured s v i x at = All-get_elem? (Config.Accepted.IsBackend net) backends i valid (
      subst (λ bs. get_elem? bs i ≡ some x.config) v.same
        (get_elem?-map (λ (x : Slot). x.config) s.slots i
          ∙ ap (Option.map λ (x : Slot). x.config) at))

  pub Inv-step :
      (is_object : List ℕ → Bool) (json : Listings) (s : Session) (e : Event)
      → Inv net backends valid s
      → Inv net backends valid (step is_object json s e)
  unfolding step proceed
  Inv-step is_object json s (receives m delivered) v =
      Inv-reads s (on_message is_object m delivered m.kind) s.over v
        (Inv-on_message net backends valid is_object m delivered m.kind s v)
  Inv-step is_object json s (breaks e) v =
      Inv-reads s (λ s. record s { over = some e }) s.over v
        (Inv-over net backends valid s s.stopped (some e) v)
  Inv-step is_object json s (proceeds k x) v = Inv-proceed_with s k x (get_elem? s.tasks k) refl v
  Inv-step is_object json s beats v = record {
    same = v.same;
    slots = v.slots;
    attempts = v.attempts;
    limit = v.limit;
    acks = let a = v.acks in omega arith;
  }
  Inv-step is_object json s (discovers i reply) v = record {
    same =
        map-modify (λ (x : Slot). x.config) (refresh json reply) (λ x. unfold refresh in refl)
          s.slots i
        ∙ v.same;
    slots = AreHeld-refresh json net reply s.slots s.tasks i (configured s v i) v.slots;
    attempts = v.attempts;
    limit = v.limit;
    acks = v.acks;
  }

  pub Inv-run :
      (is_object : List ℕ → Bool) (json : Listings) (es : List Event) (s : Session)
      → Inv net backends valid s
      → Inv net backends valid (run is_object json es s)
  unfolding run
  Inv-run is_object json [] s v = v
  Inv-run is_object json (e ∷ es) s v =
      Inv-run is_object json es (step is_object json s e) (Inv-step is_object json s e v)
