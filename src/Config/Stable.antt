-- ===== src/Config/Stable.antt =====
-- `Agent.Validate` of internal/config/config.go as a whole: what it accepts it has brought into a form
-- that it accepts again unchanged.
use relay_local.Prelude.{
  ◌≤◌, ◌≡◌, ◌↔◌, refl, sym, subst, inl, inr, Bool-cases, false, ◌||◌, Option, none, some, List, [],
  ◌∷◌, String, map, length, All, ltb, ◌==◌, arith,
}
use relay_local.Prelude.Int.{pos, ltb_ℤ, ◌≤ℤ◌}
use relay_local.Protocol.Catalog.{IsNew, IsNew-cons, IsNew-nil}
use relay_local.Config.Urls.{Net}
use relay_local.Config.{
  Backend, Agent, timeouts_error, start_or_default, total_or_default, agent_error,
  validate_backends, total_of, after_backends, after_timeouts, with_timeouts, after_agent, validate,
}
use relay_local.Config.Accepted.{
  IsBackend, IsConfig, TrimsRoots, AreAccepted, validate_backends-none, validate_backend_valid,
  default_to-pos,
}

abbrev AreTimeouts : Agent → Type 0
AreTimeouts c =
    (pos 1 ≤ℤ c.start_timeout_seconds)
    × (c.start_timeout_seconds ≤ℤ c.total_timeout_seconds)
    × (c.total_timeout_seconds ≤ℤ pos 86400)

timeouts_error-none :
    (c : Agent)
    → (timeouts_error c.start_timeout_seconds c.total_timeout_seconds ≡ none) ↔ AreTimeouts c
unfolding timeouts_error
timeouts_error-none c = ground arith

after_backends-IsConfig :
    (net : Net) (c : Agent) (r : List Backend × Option String)
    → agent_error net c ≡ none
    → AreTimeouts c
    → 1 ≤ length c.backends
    → length c.backends ≤ 64
    → (r.1 ≡ none → AreAccepted net [] c.backends r.0)
    → (after_backends c r).1 ≡ none
    → IsConfig net (after_backends c r).0
unfolding agent_error IsNew
after_backends-IsConfig net c (bs, some e) agent times few many ok h = ground arith
after_backends-IsConfig net c (bs, none) agent (low, mid, high) few many ok h =
    let (ids, own, count) = ok refl in
    (agent, low, mid, high, omega arith, omega arith, ids.1, own, ground arith)

after_timeouts-IsConfig :
    (net : Net) (c : Agent) (o : Option String)
    → TrimsRoots net
    → agent_error net c ≡ none
    → (o ≡ none → AreTimeouts c)
    → (after_timeouts net c o).1 ≡ none
    → IsConfig net (after_timeouts net c o).0
after_timeouts-IsConfig net c (some e) trims agent times h = ground arith
after_timeouts-IsConfig net c none trims agent times h =
    elim (Bool-cases (length c.backends == 0 || ltb 64 (length c.backends))) [
      | inl wrong ↦ ground (arith, rw wrong at h)
      | inr right ↦ rw right (
          after_backends-IsConfig net c (validate_backends net [] c.backends) agent (times refl)
            (ground arith) (ground arith) (validate_backends-none net [] c.backends trims)
            (rw right at h))
    ]

after_agent-IsConfig :
    (net : Net) (c : Agent) (o : Option String)
    → TrimsRoots net
    → (o ≡ none → agent_error net c ≡ none)
    → (after_agent net c o).1 ≡ none
    → IsConfig net (after_agent net c o).0
unfolding agent_error
after_agent-IsConfig net c (some e) trims agent h = ground arith
after_agent-IsConfig net c none trims agent h =
    after_timeouts-IsConfig net (with_timeouts c)
      (timeouts_error (start_or_default c.start_timeout_seconds)
        (total_or_default c.total_timeout_seconds))
      trims (agent refl) ((timeouts_error-none (with_timeouts c)).0) h

pub validate-IsConfig :
    (net : Net) (c : Agent)
    → TrimsRoots net
    → (validate net c).1 ≡ none
    → IsConfig net (validate net c).0
unfolding validate
validate-IsConfig net c trims h = after_agent-IsConfig net c (agent_error net c) trims (λ e. e) h

validate_backends_valid :
    (net : Net) (seen : List String) (bs : List Backend)
    → IsNew seen (map (λ (b : Backend). b.id) bs)
    → All (IsBackend net) bs
    → validate_backends net seen bs ≡ (bs, none)
unfolding validate_backends IsNew
validate_backends_valid net seen [] new own = refl
validate_backends_valid net seen (b ∷ bs) new (own, owns) =
    let (free, news) = (IsNew-cons seen b.id (map (λ (b : Backend). b.id) bs)).0 new in
    rw
      (
        validate_backend_valid net seen b free own,
        validate_backends_valid net (b.id ∷ seen) bs news owns,
      )
      refl

with_timeouts_valid : (c : Agent) → AreTimeouts c → with_timeouts c ≡ c
with_timeouts_valid c (low, mid, high) =
    rw
      (
        default_to-pos (pos 120) c.start_timeout_seconds low,
        default_to-pos (pos 600) c.total_timeout_seconds (ground arith),
      )
      refl

-- A configuration of the described form is accepted as it is.
validate_valid : (net : Net) (c : Agent) → IsConfig net c → validate net c ≡ (c, none)
unfolding validate
validate_valid net c (agent, low, mid, high, few, many, ids, own, total) =
    let times : AreTimeouts c = (low, mid, high) in
    let same = with_timeouts_valid c times in
    let timely = (timeouts_error-none (with_timeouts c)).1 (subst AreTimeouts (sym same) times) in
    let loop = validate_backends_valid net [] c.backends (IsNew-nil _ ids) own in
    let room : (length c.backends == 0 || ltb 64 (length c.backends)) ≡ false = ground arith in
    let fits : ltb_ℤ (pos 64) (total_of c.backends) ≡ false = ground arith in
    rw (agent, timely, same, room, loop, fits) refl

-- If a URL of only a scheme and a host stays one without its slashes: a configuration that `Validate`
-- accepts is left with identifiers, a coordinator that is reached by TLS or on the loopback, timeouts
-- from 1 to 86400 seconds of which the first is the shorter, and 1 to 64 backends with different
-- identifiers, each of a known kind, with a root URL without slashes, 1 to 64 requests at a time and
-- at most 1024 different names; all backends together take at most 64. It is then accepted again, as
-- it is.
pub validate-Settles :
    (net : Net) (c : Agent)
    → TrimsRoots net
    → (validate net c).1 ≡ none
    → IsConfig net (validate net c).0
      × (validate net (validate net c).0 ≡ ((validate net c).0, none))
validate-Settles net c trims h =
    let left = validate-IsConfig net c trims h in (left, validate_valid net (validate net c).0 left)
