-- ===== src/Agent/Life.antt =====
-- An agent from `New` on: `Run` of internal/agent/agent.go asks the backends for their models and then
-- serves a session, again and again. What holds at every moment.
use mathlib.Core.Option
use mathlib.Core.Option.{some-injective}
use relay_local.Prelude.{
  ℕ, ◌≡◌, refl, sym, subst, ap, ◌∙◌, inl, inr, Bool, none, some, Option, List, [], ◌∷◌, String, map,
  get_elem?, get_elem?-map, All, All-get_elem?, Option-cases, arith,
}
use relay_local.Prelude.Int.{pos}
use relay_local.Config
use relay_local.Config.Accepted
use relay_local.Config.Stable.{validate-IsConfig}
use relay_local.Discovery.{Listings, Reply}
use relay_local.Discovery.Offered.{discover-IsAnnounced}
use relay_local.Agent.Slots.{Slot, new_slot, slots_or_error, new_agent, refresh, discover_all}
use relay_local.Agent.Session.{Session, Event, begin, step, run}
use relay_local.Agent.Session.Tasks.{Bears, AreHeld, busy}
use relay_local.Agent.Session.Invariant.{Inv, configs}
use relay_local.Agent.Session.Runs.{Inv-step}

-- The states that an agent comes through. A session that is over has waited for its tasks.
pub data Life (net : Config.Urls.Net) (c : Config.Agent) (is_object : List ℕ → Bool)
    (json : Listings) : Session → Type 0 where
  starts :
      (slots : List Slot) (replies : String → Reply)
      → new_agent net c ≡ some slots
      → Life net c is_object json (begin (discover_all json replies slots))
  goes_on :
      {s : Session} (e : Event)
      → Life net c is_object json s
      → Life net c is_object json (step is_object json s e)
  reconnects :
      {s : Session} (e : String) (replies : String → Reply)
      → s.over ≡ some e
      → s.tasks ≡ []
      → Life net c is_object json s
      → Life net c is_object json (begin (discover_all json replies s.slots))

pub Life-run :
    {net : Config.Urls.Net} {c : Config.Agent} {is_object : List ℕ → Bool} {json : Listings}
    (es : List Event) {s : Session}
    → Life net c is_object json s
    → Life net c is_object json (run is_object json es s)
unfolding run
Life-run [] l = l
Life-run {is_object = is_object} {json = json} (e ∷ es) {s} l =
    Life-run es {s = step is_object json s e} (goes_on e l)

pub slots_or_error-some :
    (r : Config.Agent × Option String) (slots : List Slot)
    → slots_or_error r ≡ some slots
    → (r.1 ≡ none) × (map new_slot r.0.backends ≡ slots)
slots_or_error-some (c, some e) slots h = ground arith
slots_or_error-some (c, none) slots h = (refl, some-injective _ _ h)

configs-new : (bs : List Config.Backend) → configs (map new_slot bs) ≡ bs
configs-new [] = refl
configs-new (b ∷ bs) = ap (λ cs. b ∷ cs) (configs-new bs)

configs-discover_all :
    (json : Listings) (replies : String → Reply) (slots : List Slot)
    → configs (discover_all json replies slots) ≡ configs slots
unfolding discover_all refresh
configs-discover_all json replies [] = refl
configs-discover_all json replies (x ∷ xs) =
    ap (λ cs. x.config ∷ cs) (configs-discover_all json replies xs)

-- No request executes.
abbrev AreFree : List Slot → Type 0
AreFree slots = (i : ℕ) (x : Slot) → get_elem? slots i ≡ some x → x.active ≡ pos 0

AreFree-new : (bs : List Config.Backend) → AreFree (map new_slot bs)
AreFree-new bs i x at = elim (Option-cases (get_elem? bs i)) [
  | inl past ↦ absurd (ground (arith, get_elem?-map new_slot bs i))
  | inr (b, found) ↦
      ap (λ (x : Slot). x.active)
        (some-injective _ _
          (sym at ∙ (get_elem?-map new_slot bs i ∙ ap (Option.map new_slot) found)))
]

module _ (net : Config.Urls.Net) (backends : List Config.Backend)
    (valid : All (Config.Accepted.IsBackend net) backends) where
  AreHeld-discover_all :
      (json : Listings) (replies : String → Reply) (slots : List Slot)
      → configs slots ≡ backends
      → AreFree slots
      → AreHeld (discover_all json replies slots) []
  unfolding discover_all refresh
  AreHeld-discover_all json replies slots same free i x at =
      elim (Option-cases (get_elem? slots i)) [
        | inl past ↦ absurd (
            ground
              (arith, get_elem?-map (λ (s : Slot). refresh json (replies s.config.id) s) slots i))
        | inr (y, found) ↦
            let own : Config.Accepted.IsBackend net y.config =
              All-get_elem? (Config.Accepted.IsBackend net) backends i valid (
                subst (λ bs. get_elem? bs i ≡ some y.config) same
                  (get_elem?-map (λ (x : Slot). x.config) slots i
                    ∙ ap (Option.map λ (x : Slot). x.config) found)) in
            subst (Bears 0)
              (some-injective _ _ (
                sym (ap (Option.map λ (s : Slot). refresh json (replies s.config.id) s) found)
                ∙ (sym (get_elem?-map (λ (s : Slot). refresh json (replies s.config.id) s) slots i)
                    ∙ at)))
              (record {
                counted = free i y found;
                fits = let (_, _, _, _, _, low, _, _, _, _) = own in omega arith;
                announced = discover-IsAnnounced json net y.config (replies y.config.id) own;
              })
      ]

  Inv-begin :
      (json : Listings) (replies : String → Reply) (slots : List Slot)
      → configs slots ≡ backends
      → AreFree slots
      → Inv net backends valid (begin (discover_all json replies slots))
  unfolding begin
  Inv-begin json replies slots same free = record {
    same = configs-discover_all json replies slots ∙ same;
    slots = AreHeld-discover_all json replies slots same free;
    attempts = record { ledger = λ id. refl; held = λ id. refl; named = tt };
    limit = omega arith;
    acks = omega arith;
  }

module _ (net : Config.Urls.Net) (trims : Config.Accepted.TrimsRoots net) (c : Config.Agent)
    (accepted : (Config.validate net c).1 ≡ none) (is_object : List ℕ → Bool)
    (json : Listings) where
  pub settled : Config.Agent
  settled = (Config.validate net c).0

  pub valid : Config.Accepted.IsConfig net settled
  unfolding settled
  valid = validate-IsConfig net c trims accepted

  pub own : All (Config.Accepted.IsBackend net) settled.backends
  own = let (_, _, _, _, _, _, _, own, _) = valid in own

  pub Life-Inv : {s : Session} → Life net c is_object json s → Inv net settled.backends own s
  unfolding settled new_agent
  Life-Inv (starts slots replies e) =
      let same = (slots_or_error-some (Config.validate net c) slots e).1 in
      Inv-begin net settled.backends own json replies slots
        (subst (λ slots. configs slots ≡ settled.backends) same (configs-new settled.backends))
        (subst AreFree same (AreFree-new settled.backends))
  Life-Inv (goes_on {s} e l) = Inv-step net settled.backends own is_object json s e (Life-Inv l)
  Life-Inv (reconnects {s} e replies over none_left l) =
      let v = Life-Inv l in
      Inv-begin net settled.backends own json replies s.slots v.same
        (λ i x at. (v.slots i x at).counted ∙ ap (λ ts. pos (busy i ts)) none_left)
