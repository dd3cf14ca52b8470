-- ===== src/Agent/Promises.antt =====
-- What an agent promises the coordinator and its backends at every moment of its life
-- (internal/agent/agent.go).
use relay_local.Prelude.{ℕ, ◌+◌, ◌≤◌, ◌≡◌, Bool, none, some, List, String, get_elem?, length, arith}
use relay_local.Prelude.Counts.{one_if, All_of_get_elem?}
use relay_local.Prelude.Sort.{count_by}
use relay_local.Prelude.Int.{pos, ◌≤ℤ◌}
use relay_local.Protocol.{has_key, validate_catalog}
use relay_local.Config
use relay_local.Config.Accepted
use relay_local.Discovery.{Listings}
use relay_local.Agent.Slots.{Slot, catalog, new_agent}
use relay_local.Agent.Slots.Catalog.{IsSlot, catalog-IsAccepted}
use relay_local.Agent.Session.{Session, session_limit}
use relay_local.Agent.Session.Tasks.{Bears, busy}
use relay_local.Agent.Session.Ledger.{is_answer, is_task, is_active}
use relay_local.Agent.Life.{
  Life, starts, goes_on, reconnects, Life-Inv, settled, valid, slots_or_error-some,
}

Life-accepted :
    {net : Config.Urls.Net} {c : Config.Agent} {is_object : List ℕ → Bool} {json : Listings}
    {s : Session}
    → Life net c is_object json s
    → (Config.validate net c).1 ≡ none
unfolding new_agent
Life-accepted {net} {c} (starts slots replies e) =
    (slots_or_error-some (Config.validate net c) slots e).0
Life-accepted (goes_on e l) = Life-accepted l
Life-accepted (reconnects e replies over none_left l) = Life-accepted l

IsSlot-Bears : (n : ℕ) (x : Slot) → Bears n x → IsSlot x
IsSlot-Bears n x b = record {
  announced = b.announced;
  low = rw b.counted (omega arith);
  high = rw b.counted b.fits;
}

module _ (net : Config.Urls.Net) (trims : Config.Accepted.TrimsRoots net) (c : Config.Agent)
    (is_object : List ℕ → Bool) (json : Listings) (s : Session)
    (life : Life net c is_object json s) where
  -- At every moment of the life of an agent, from any configuration with which `New` succeeds, whatever
  -- its backends answer, and in any order of the steps of its sessions: the catalogue that it would
  -- announce is one that the coordinator accepts. A URL of only a scheme and a host stays one without
  -- its slashes.
  pub Life-IsAccepted : validate_catalog (catalog s.slots) ≡ none
  Life-IsAccepted =
      let accepted = Life-accepted life in
      let v = Life-Inv net trims c accepted is_object json life in
      catalog-IsAccepted net (settled net trims c accepted is_object json) s.slots
        (valid net trims c accepted is_object json) v.same
        (All_of_get_elem? IsSlot s.slots (λ i x at. IsSlot-Bears _ x (v.slots i x at)))

  -- At every moment of the life of an agent, with such URLs: of each attempt that the session was asked
  -- for it has handed one answer to the connection, or one task is still to do that, and of no other;
  -- the attempts that can be canceled are those of the tasks that have not deleted their id; each slot
  -- counts the requests that execute on it, which are at most its concurrency; a session is asked for
  -- at most 100000 attempts; and no heartbeat counts as acknowledged that was not sent.
  pub Life-Answers :
      ((id : String)
        → count_by (is_answer id) s.answers + count_by (is_task id) s.tasks
          ≡ one_if (has_key s.seen id))
      × ((id : String) → one_if (has_key s.active id) ≡ count_by (is_active id) s.tasks)
      × ((i : ℕ) (x : Slot)
          → get_elem? s.slots i ≡ some x
          → (x.active ≡ pos (busy i s.tasks)) × (pos (busy i s.tasks) ≤ℤ x.config.concurrency))
      × (length s.seen ≤ session_limit)
      × (s.acked ≤ s.sent)
  Life-Answers =
      let v = Life-Inv net trims c (Life-accepted life) is_object json life in
      (
        v.attempts.ledger,
        v.attempts.held,
        λ i x at. let b = v.slots i x at in (b.counted, b.fits),
        v.limit,
        v.acks,
      )
