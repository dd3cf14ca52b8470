-- ===== src/Coordinator/Select/Overbooking.antt =====
-- The coordinator's hosts as a state machine: no order of the operations of
-- internal/coordinator/coordinator.go overbooks a backend.
use mathlib.Core.Option.{some_inj}
use relay_local.Prelude.{
  ℕ, ◌≡◌, ◌≢◌, refl, ap, sym, subst, inl, inr, Bool, true, false, ◌||◌, Option, none, some, List,
  [], ◌∷◌, String, filter, map, All, All-imp, if◌then◌else◌, if-either, is_some, str_eq, str_eq_iff,
  Bool-cases, arith,
}
use relay_local.Protocol.{Backend}
use relay_local.Protocol.Catalog.{IsDistinct}
use relay_local.Coordinator.Job.{Job}
use relay_local.Coordinator.Select.{
  Host, Coordinator, find_host, new_host, active, select_job, register, heartbeat, catalog,
  delete_job, remove_host,
}
use relay_local.Coordinator.Select.Capacity.{
  Log, Affords-more, IsAfforded, IsWithin, IsWithin-on_host, IsWithin-select_job, IsAfforded-filter,
}

-- The operations, each by one goroutine under the lock. A catalogue may announce less room than is in
-- use.
pub data Step (s : Coordinator) (t : Coordinator) : Type 0 where
  selects :
      (id : String) (now : ℕ) (wanted excluded : String) (previous : Option Job) (j : Job)
      → select_job id now wanted excluded previous s ≡ some (j, t)
      → Step s t
  registers :
      (key_id hello_id : String) (backends : List Backend) (now : ℕ)
      → register key_id hello_id backends now s ≡ some t
      → Step s t
  beats : (h : Host) (heartbeat_id now : ℕ) → heartbeat h heartbeat_id now s ≡ some t → Step s t
  announces : (h : Host) (backends : List Backend) → catalog h backends s ≡ some t → Step s t
  ends : (host id : String) → t ≡ delete_job host id s → Step s t
  leaves : (host : String) → t ≡ remove_host host s → Step s t

-- The catalogues after a step: a host that is taken in begins anew.
abbrev pub announced : {s t : Coordinator} → Step s t → Log → Log
announced (registers key_id hello_id backends now e) log =
    λ k. if str_eq k key_id then backends ∷ [] else log k
announced (announces h backends e) log = λ k. if str_eq k h.id then backends ∷ log k else log k
announced _ log = log

-- The states that are reached, with what was announced on the way.
pub data Reach : Log → Coordinator → Type 0 where
  starts : Reach (λ _. []) (record { hosts = []; cursor = 0; closed = false })
  goes_on :
      {log : Log} {s t : Coordinator}
      → Reach log s
      → (step : Step s t) → Reach (announced step log) t

-- A function that returns early under a condition.
if-some :
    {A : Type 0} (t : Bool) (o : Option A) (a : A)
    → (if t then none else o) ≡ some a
    → (t ≡ false) × (o ≡ some a)
if-some true o a h = ground arith
if-some false o a h = (refl, h)

or_false_right : (a b : Bool) → (a || b) ≡ false → b ≡ false
or_false_right a b h = ground arith

is_some-false : {A : Type 0} (o : Option A) → is_some o ≡ false → o ≡ none
is_some-false none h = refl
is_some-false (some a) h = ground arith

find_host-none :
    (hosts : List Host) (id : String)
    → find_host hosts id ≡ none
    → All (λ k. id ≢ k) (map (λ (h : Host). h.id) hosts)
find_host-none [] id e = tt
find_host-none (h ∷ hosts) id e = elim (Bool-cases (str_eq h.id id)) [
  | inl own ↦ absurd (ground arith)
  | inr other ↦ (
    λ k. absurd (ground (arith, (str_eq_iff h.id id).1 (sym k))),
    find_host-none hosts id (ground arith),
  )
]

-- A host of another identity keeps its catalogues.
IsAfforded-other :
    (log : Log) (id : String) (catalogues : Log) (h : Host)
    → h.id ≢ id
    → IsAfforded log h
    → IsAfforded (λ k. if str_eq k id then catalogues k else log k) h
IsAfforded-other log id catalogues h other v =
    let differ : str_eq h.id id ≡ false = elim (Bool-cases (str_eq h.id id)) [
      | inl own ↦ absurd (other ((str_eq_iff h.id id).0 own))
      | inr apart ↦ apart
    ] in
    record { known = rw differ v.known; afforded = λ i. rw differ (v.afforded i) }

All-other :
    (log : Log) (id : String) (catalogues : Log) (hosts : List Host)
    → All (λ k. id ≢ k) (map (λ (h : Host). h.id) hosts)
    → All (IsAfforded log) hosts
    → All (IsAfforded λ k. if str_eq k id then catalogues k else log k) hosts
All-other log id catalogues [] free v = tt
All-other log id catalogues (h ∷ hosts) (f, free) (p, v) = (
  IsAfforded-other log id catalogues h (λ e. f (sym e)) p,
  All-other log id catalogues hosts free v,
)

IsAfforded-new :
    (log : Log) (id : String) (backends : List Backend) (now : ℕ)
    → IsAfforded (λ k. if str_eq k id then backends ∷ [] else log k) (new_host id backends now)
unfolding active
IsAfforded-new log id backends now =
    let own = (str_eq_iff id id).1 refl in
    record { known = (0, rw own refl); afforded = λ i. inl refl }

IsWithin-registered :
    (log : Log) (id : String) (backends : List Backend) (now : ℕ) (s t : Coordinator)
    → t ≡ record s { hosts = new_host id backends now ∷ s.hosts }
    → find_host s.hosts id ≡ none
    → IsWithin log s
    → IsWithin (λ k. if str_eq k id then backends ∷ [] else log k) t
IsWithin-registered log id backends now s t e free v =
    let apart = find_host-none s.hosts id free in
    subst (IsWithin _) (sym e) (record {
      identities = (apart, v.identities);
      each = (
        IsAfforded-new log id backends now,
        All-other log id (λ _. backends ∷ []) s.hosts apart v.each,
      );
    })

IsAfforded-announced :
    (log : Log) (id : String) (backends : List Backend) (g : Host)
    → g.id ≡ id
    → IsAfforded log g
    → IsAfforded
        (λ k. if str_eq k id then backends ∷ log k else log k)
        (record g { backends = backends })
IsAfforded-announced log id backends g e v =
    let own = (str_eq_iff g.id id).1 e in
    record {
      known = (0, rw own refl);
      afforded = λ i. rw own (Affords-more backends (log g.id) i (active i g.jobs) (v.afforded i));
    }

All-filter :
    {A : Type 0} (P : A → Type 0) (q : A → Bool) (xs : List A) → All P xs → All P (filter q xs)
All-filter P q [] a = tt
All-filter P q (x ∷ xs) (p, a) =
    if-either (All P) (q x) _ (filter q xs) (λ _. (p, All-filter P q xs a))
      (λ _. All-filter P q xs a)

All-map-filter :
    (P : String → Type 0) (q : Host → Bool) (hosts : List Host)
    → All P (map (λ (h : Host). h.id) hosts)
    → All P (map (λ (h : Host). h.id) (filter q hosts))
All-map-filter P q [] a = tt
All-map-filter P q (h ∷ hosts) (p, a) =
    if-either (λ hs. All P (map (λ (h : Host). h.id) hs)) (q h) _ (filter q hosts)
      (λ _. (p, All-map-filter P q hosts a)) (λ _. All-map-filter P q hosts a)

IsDistinct-filter :
    (q : Host → Bool) (hosts : List Host)
    → IsDistinct (map (λ (h : Host). h.id) hosts)
    → IsDistinct (map (λ (h : Host). h.id) (filter q hosts))
IsDistinct-filter q [] d = tt
IsDistinct-filter q (h ∷ hosts) (free, d) =
    let rest = IsDistinct-filter q hosts d in
    if-either (λ hs. IsDistinct (map (λ (h : Host). h.id) hs)) (q h) _ (filter q hosts)
      (λ _. (All-map-filter _ q hosts free, rest)) (λ _. rest)

IsWithin-filter :
    (log : Log) (q : Host → Bool) (s t : Coordinator)
    → t ≡ record s { hosts = filter q s.hosts }
    → IsWithin log s
    → IsWithin log t
IsWithin-filter log q s t e v = subst (IsWithin log) (sym e) (record {
  identities = IsDistinct-filter q s.hosts v.identities;
  each = All-filter (IsAfforded log) q s.hosts v.each;
})

Step-IsWithin :
    {s t : Coordinator} (log : Log) (step : Step s t)
    → IsWithin log s
    → IsWithin (announced step log) t
unfolding register heartbeat catalog delete_job remove_host
Step-IsWithin {s} {t} log (selects id now wanted excluded previous j e) v =
    IsWithin-select_job log id now wanted excluded previous s j t e v
Step-IsWithin {s} {t} log (registers key_id hello_id backends now e) v =
    let (good, e') = if-some _ _ t e in
    let (free, made) = if-some _ _ t e' in
    IsWithin-registered log key_id backends now s t (sym (some_inj.0 made))
      (is_some-false (find_host s.hosts key_id) (or_false_right _ _ free)) v
Step-IsWithin {s} {t} log (beats h heartbeat_id now e) v =
    let (later, made) = if-some _ _ t e in
    IsWithin-on_host log log h.id _ s t (ap (λ (t : Coordinator). t.hosts) (sym (some_inj.0 made)))
      (λ g. refl) (λ g _ w. w)
      (All-imp _ (λ g w _. record { known = w.known; afforded = w.afforded }) s.hosts v.each) v
Step-IsWithin {s} {t} log (announces h backends e) v =
    let (good, made) = if-some _ _ t e in
    IsWithin-on_host log _ h.id _ s t (ap (λ (t : Coordinator). t.hosts) (sym (some_inj.0 made)))
      (λ g. refl) (λ g other w. IsAfforded-other log h.id (λ k. backends ∷ log k) g other w)
      (All-imp _ (λ g w own. IsAfforded-announced log h.id backends g own w) s.hosts v.each) v
Step-IsWithin {s} {t} log (ends host id e) v =
    IsWithin-on_host log log host _ s t (ap (λ (t : Coordinator). t.hosts) e) (λ h. refl)
      (λ g _ w. w) (All-imp _ (λ h w _. IsAfforded-filter log h _ w) s.hosts v.each) v
Step-IsWithin {s} {t} log (leaves host e) v = IsWithin-filter log _ s t e v

-- In every state that the operations reach from a coordinator without hosts, with the catalogues that
-- were announced on the way, which may lower a capacity: no two hosts have one identity; the catalogue
-- of each host is one that it announced since it was taken in; and no backend of it has more jobs than
-- the capacity that one of these catalogues gives that backend, or it has none.
pub Reach-IsWithin : {log : Log} {s : Coordinator} → Reach log s → IsWithin log s
Reach-IsWithin starts = record { identities = tt; each = tt }
Reach-IsWithin (goes_on {log} r step) = Step-IsWithin log step (Reach-IsWithin r)
