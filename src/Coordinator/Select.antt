-- ===== src/Coordinator/Select.antt =====
-- The hosts of the coordinator and the choice of one for a request: `host`, `Coordinator`, `selectJob`,
-- `models`, and what `connect`, `deliver` and `remove` do to them, of
-- internal/coordinator/coordinator.go.
pub mod Choice
pub mod Served
pub mod Found
pub mod Capacity
pub mod Overbooking
use relay_local.Prelude.{
  ℕ, ◌+◌, ◌-◌, ◌*◌, ◌%◌, ◌^◌, Bool, true, false, not, ◌&&◌, ◌||◌, Option, none, some, List, [], ◌∷◌,
  ◌++◌, String, length, get_elem?, filter, map, if◌then◌else◌, ◌==◌, leb, str_eq, is_some,
}
use relay_local.Prelude.Int.{ℤ, pos, leb_ℤ}
use relay_local.Prelude.Sort.{count_by, sort}
use relay_local.Protocol.{Model, Backend, has_key, any, validate_catalog}
use relay_local.Coordinator.Job.{Job, new_job}
use Prim.Native.Nat.{Ordering}
use Prim.Native.String.{compare as compare_text}

-- The map `jobs` is a list with a job once at most for an id; times are nanoseconds.
pub record Host : Type 0 where
  pub id : String
  pub backends : List Backend
  pub jobs : List Job
  pub last_heartbeat : ℕ
  pub heartbeat_id : ℕ

-- The map `hosts` likewise. The heartbeat's counter is a variable of `connect`.
pub record Coordinator : Type 0 where
  pub hosts : List Host
  pub cursor : ℕ
  pub closed : Bool

abbrev pub heartbeat_timeout : ℕ
heartbeat_timeout = 10 * 10 ^ 9

-- `sort.Strings`
abbrev pub text_le : String → String → Bool
text_le s t = elim (compare_text s t) [ Ordering.gt ↦ false | _ ↦ true ]

abbrev pub find_host : List Host → String → Option Host
find_host [] id = none
find_host (h ∷ hs) id = let rest = find_host hs id in if str_eq h.id id then some h else rest

unfoldable pub active : String → List Job → ℕ
active backend jobs = count_by (λ (j : Job). str_eq j.backend.id backend) jobs

abbrev pub is_compatible : Option Job → Backend → Model → Bool
is_compatible none b m = true
is_compatible (some previous) b m = not (
    any (
      not (str_eq b.source previous.backend.source)
      ∷ not (str_eq b.kind previous.backend.kind)
      ∷ (str_eq b.source "local" && not (str_eq m.digest previous.model.digest))
      ∷ []))

-- The innermost loop. Every candidate gets an id of its own; `id` is that of the one that is taken.
unfoldable pub model_candidates :
    String → String → Option Job → String → Backend → List Model → List Job
model_candidates id wanted previous host b [] = []
model_candidates id wanted previous host b (m ∷ ms) =
    let rest = model_candidates id wanted previous host b ms in
    if not (str_eq m.id wanted)
    then rest
    else if not (is_compatible previous b m)
    then rest
    else new_job id host b m ∷ rest

unfoldable pub backend_candidates : String → String → Option Job → Host → List Backend → List Job
backend_candidates id wanted previous h [] = []
backend_candidates id wanted previous h (b ∷ bs) =
    let rest = backend_candidates id wanted previous h bs in
    if not b.ready
    then rest
    else if leb_ℤ b.capacity (pos (active b.id h.jobs))
    then rest
    else model_candidates id wanted previous h.id b b.models ++ rest

-- The time since the last heartbeat, which the clock of the process measures without going back.
abbrev pub is_stale : ℕ → Host → Bool
is_stale now h = leb heartbeat_timeout (now - h.last_heartbeat)

unfoldable pub host_candidates : String → String → Option Job → ℕ → String → Option Host → List Job
host_candidates id wanted previous now excluded none = []
host_candidates id wanted previous now excluded (some h) =
    if str_eq h.id excluded || is_stale now h
    then []
    else backend_candidates id wanted previous h h.backends

unfoldable pub candidates :
    String → String → Option Job → ℕ → String → List Host → List String → List Job
candidates id wanted previous now excluded hosts [] = []
candidates id wanted previous now excluded hosts (k ∷ ks) =
    host_candidates id wanted previous now excluded (find_host hosts k)
    ++ candidates id wanted previous now excluded hosts ks

-- `jobs[j.id] = j`
abbrev pub put_job : Job → List Job → List Job
put_job j jobs = j ∷ filter (λ (k : Job). not (str_eq k.id j.id)) jobs

abbrev pub on_host : String → (Host → Host) → List Host → List Host
on_host id f hosts = map (λ (h : Host). if str_eq h.id id then f h else h) hosts

-- `s.cursor++` and `j.host.jobs[j.id] = j`
unfoldable pub take_job : Job → Coordinator → Coordinator
take_job j s = record s {
  cursor = (s.cursor + 1) % 2 ^ 64;
  hosts = on_host j.host (λ (h : Host). record h { jobs = put_job j h.jobs }) s.hosts;
}

unfoldable pub taken : Option Job → Coordinator → Option (Job × Coordinator)
taken none s = none
taken (some j) s = some (j, take_job j s)

-- The round robin over the candidates.
unfoldable pub pick : List Job → Coordinator → Option (Job × Coordinator)
pick found s =
    if length found == 0 then none else taken (get_elem? found (s.cursor % length found)) s

unfoldable pub select_job :
    String → ℕ → String → String → Option Job → Coordinator → Option (Job × Coordinator)
select_job id now wanted excluded previous s =
    let ids = sort text_le (map (λ (h : Host). h.id) s.hosts) in
    pick (candidates id wanted previous now excluded s.hosts ids) s

abbrev pub new_host : String → List Backend → ℕ → Host
new_host id backends now = record {
  id = id;
  backends = backends;
  jobs = [];
  last_heartbeat = now;
  heartbeat_id = 0;
}

-- `connect` as far as it takes a host in, once its key is known: an identity that is already
-- connected is refused.
unfoldable pub register : String → String → List Backend → ℕ → Coordinator → Option Coordinator
register key_id hello_id backends now s =
    if not (str_eq hello_id key_id) || is_some (validate_catalog backends)
    then none
    else if s.closed || is_some (find_host s.hosts key_id)
    then none
    else some (record s { hosts = new_host key_id backends now ∷ s.hosts })

-- The loop of `connect` on a heartbeat and on a catalogue; none where it returns.
unfoldable pub heartbeat : Host → ℕ → ℕ → Coordinator → Option Coordinator
heartbeat h heartbeat_id now s =
    if leb heartbeat_id h.heartbeat_id
    then none
    else some (record s {
      hosts =
          on_host h.id
            (λ (g : Host). record g { heartbeat_id = heartbeat_id; last_heartbeat = now }) s.hosts;
    })

unfoldable pub catalog : Host → List Backend → Coordinator → Option Coordinator
catalog h backends s =
    if is_some (validate_catalog backends)
    then none
    else some
        (record s { hosts = on_host h.id (λ (g : Host). record g { backends = backends }) s.hosts })

-- `deliver` on the last message of an attempt.
unfoldable pub delete_job : String → String → Coordinator → Coordinator
delete_job host id s = record s {
  hosts =
      on_host host
        (λ (h : Host). record h { jobs = filter (λ (j : Job). not (str_eq j.id id)) h.jobs })
        s.hosts;
}

unfoldable pub remove_host : String → Coordinator → Coordinator
remove_host host s = record s { hosts = filter (λ (h : Host). not (str_eq h.id host)) s.hosts }

-- `seen[m.ID] = true`
unfoldable pub see_models : List Model → List String → List String
see_models [] seen = seen
see_models (m ∷ ms) seen = see_models ms (if has_key seen m.id then seen else m.id ∷ seen)

unfoldable pub see_backends : List Backend → List String → List String
see_backends [] seen = seen
see_backends (b ∷ bs) seen = see_backends bs (if b.ready then see_models b.models seen else seen)

unfoldable pub see_hosts : List Host → List String → List String
see_hosts [] seen = seen
see_hosts (h ∷ hs) seen = see_hosts hs (see_backends h.backends seen)

-- The ids of the answer of `models`.
unfoldable pub models : Coordinator → List String
models s = sort text_le (see_hosts s.hosts [])
