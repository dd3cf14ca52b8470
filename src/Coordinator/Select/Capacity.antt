-- ===== src/Coordinator/Select/Capacity.antt =====
-- That no backend is given more jobs than its capacity, through the operations of
-- internal/coordinator/coordinator.go on the hosts.
use mathlib.Core.Option.{some_inj}
use relay_local.Prelude.{
  ℕ, zero, suc, ◌+◌, ◌≤◌, ◌≡◌, ◌≢◌, ◌⊎◌, refl, ap, sym, subst, ◌∙◌, inl, inr, Bool, false, not,
  Option, some, List, [], ◌∷◌, String, filter, map, All, All-imp, All-both, All-get_elem?, Occurs,
  if◌then◌else◌, if-either, str_eq, str_eq_iff, Bool-cases, arith,
}
use relay_local.Prelude.Int.{ℤ, pos, leb_ℤ, ◌≤ℤ◌}
use relay_local.Prelude.Sort.{count_by}
use relay_local.Protocol.{Backend}
use relay_local.Protocol.Catalog.{IsDistinct}
use relay_local.Coordinator.Job.{Job, new_job}
use relay_local.Coordinator.Select.{
  Host, Coordinator, find_host, active, put_job, on_host, take_job, select_job,
}
use relay_local.Coordinator.Select.Found.{select_job-take}

-- The catalogues that each host has announced since it was taken in, the last one first.
abbrev pub Log : Type 0
Log = String → List (List Backend)

-- So many jobs of a backend that some of these catalogues has room for them.
abbrev pub Affords : List (List Backend) → String → ℕ → Type 0
Affords catalogues id n =
    (n ≡ 0)
    ⊎ ((bs : List Backend) × (b : Backend) × Occurs bs catalogues
        × Occurs b bs
        × (b.id ≡ id)
        × (pos n ≤ℤ b.capacity))

pub record IsAfforded (log : Log) (h : Host) : Type 0 where
  pub known : Occurs h.backends (log h.id)
  pub afforded : (id : String) → Affords (log h.id) id (active id h.jobs)

pub record IsWithin (log : Log) (s : Coordinator) : Type 0 where
  pub identities : IsDistinct (map (λ (h : Host). h.id) s.hosts)
  pub each : All (IsAfforded log) s.hosts

Affords-le :
    (cs : List (List Backend)) (id : String) (n m : ℕ) → n ≤ m → Affords cs id m → Affords cs id n
Affords-le cs id n m h (inl none) = inl (omega arith)
Affords-le cs id n m h (inr (bs, b, o, own, e, room)) = inr (bs, b, o, own, e, omega arith)

pub Affords-more :
    (c : List Backend) (cs : List (List Backend)) (id : String) (n : ℕ)
    → Affords cs id n
    → Affords (c ∷ cs) id n
Affords-more c cs id n (inl none) = inl none
Affords-more c cs id n (inr (bs, b, (i, at), own, e, room)) = inr (bs, b, (suc i, at), own, e, room)

-- A test passes on no more elements of a filtered list.
count_by-filter : (p q : Job → Bool) (js : List Job) → count_by p (filter q js) ≤ count_by p js
count_by-filter p q [] = omega arith
count_by-filter p q (j ∷ js) = ground (arith, count_by-filter p q js)

module _ {A : Type 0} (key : A → String) where
  All-key : (ys : List A) (k : String) → All (λ l. k ≢ l) (map key ys) → All (λ c. k ≢ key c) ys
  All-key [] k a = tt
  All-key (y ∷ ys) k (h, a) = (h, All-key ys k a)

  -- An element is the only one with its key.
  IsDistinct-Occurs :
      (xs : List A) (x : A)
      → IsDistinct (map key xs)
      → Occurs x xs
      → All (λ c. key c ≡ key x → c ≡ x) xs
  IsDistinct-Occurs [] x d o = tt
  IsDistinct-Occurs (y ∷ ys) x (free, d) (zero, e) =
      let same = some_inj.0 e in
      (
        λ _. same,
        All-imp _ (λ c other k. absurd (other (ap key same ∙ sym k))) ys (All-key ys (key y) free),
      )
  IsDistinct-Occurs (y ∷ ys) x (free, d) (suc i, e) = (
    λ k. absurd (All-get_elem? _ ys i (All-key ys (key y) free) e k),
    IsDistinct-Occurs ys x d (i, e),
  )

find_host-Occurs :
    (hosts : List Host) (id : String) (h : Host) → find_host hosts id ≡ some h → Occurs h hosts
find_host-Occurs [] id h e = ground arith
find_host-Occurs (g ∷ hosts) id h e = elim (Bool-cases (str_eq g.id id)) [
  | inl own ↦ (0, ground arith)
  | inr other ↦ let (i, o) = find_host-Occurs hosts id h (ground arith) in (suc i, o)
]

room_left : (a : ℤ) (n : ℕ) → leb_ℤ a (pos n) ≡ false → pos (1 + n) ≤ℤ a
room_left a n h = ground arith

-- A job more for a backend that has room, and no other.
IsAfforded-put_job :
    (log : Log) (h : Host) (b : Backend) (j : Job)
    → Occurs b h.backends
    → j.backend.id ≡ b.id
    → leb_ℤ b.capacity (pos (active b.id h.jobs)) ≡ false
    → IsAfforded log h
    → IsAfforded log (record h { jobs = put_job j h.jobs })
unfolding active
IsAfforded-put_job log h b j o e free v = record {
  known = v.known;
  afforded = λ id.
      let P = λ (k : Job). str_eq k.backend.id id in
      let fewer = count_by-filter P (λ (k : Job). not (str_eq k.id j.id)) h.jobs in
      elim (Bool-cases (str_eq j.backend.id id)) [
        | inr other ↦
            rw other
              (Affords-le (log h.id) id _ (active id h.jobs) (omega (arith, fewer)) (v.afforded id))
        | inl own ↦
            let same = sym e ∙ (str_eq_iff j.backend.id id).0 own in
            let room =
              subst (λ i. pos (1 + active i h.jobs) ≤ℤ b.capacity) same
                (room_left b.capacity _ free) in
            rw own (inr (h.backends, b, v.known, o, same, omega (arith, room, fewer)))
      ];
}

pub IsAfforded-filter :
    (log : Log) (h : Host) (q : Job → Bool)
    → IsAfforded log h
    → IsAfforded log (record h { jobs = filter q h.jobs })
unfolding active
IsAfforded-filter log h q v = record {
  known = v.known;
  afforded = λ id.
      Affords-le (log h.id) id _ (active id h.jobs)
        (count_by-filter (λ (j : Job). str_eq j.backend.id id) q h.jobs) (v.afforded id);
}

map-on_host :
    (id : String) (f : Host → Host) (hosts : List Host)
    → ((h : Host) → (f h).id ≡ h.id)
    → map (λ (h : Host). h.id) (on_host id f hosts) ≡ map (λ (h : Host). h.id) hosts
map-on_host id f [] k = refl
map-on_host id f (h ∷ hosts) k =
    let head : (if str_eq h.id id then f h else h).id ≡ h.id =
      if-either (λ (g : Host). g.id ≡ h.id) (str_eq h.id id) _ h (λ _. k h) (λ _. refl) in
    ap (λ i. i ∷ map (λ (h : Host). h.id) (on_host id f hosts)) head
    ∙ ap (λ is. h.id ∷ is) (map-on_host id f hosts k)

-- An operation on the host with an id, which may be an announcement.
All-on_host :
    (log next : Log) (id : String) (f : Host → Host) (hosts : List Host)
    → ((h : Host) → h.id ≢ id → IsAfforded log h → IsAfforded next h)
    → All (λ (h : Host). h.id ≡ id → IsAfforded next (f h)) hosts
    → All (IsAfforded log) hosts
    → All (IsAfforded next) (on_host id f hosts)
All-on_host log next id f [] same k v = tt
All-on_host log next id f (h ∷ hosts) same (k, ks) (p, v) = (
  if-either (IsAfforded next) (str_eq h.id id) _ h (λ own. k ((str_eq_iff h.id id).0 own))
      (λ other. same h (λ own. absurd (ground (arith, (str_eq_iff h.id id).1 own))) p),
  All-on_host log next id f hosts same ks v,
)

pub IsWithin-on_host :
    (log next : Log) (id : String) (f : Host → Host) (s t : Coordinator)
    → t.hosts ≡ on_host id f s.hosts
    → ((h : Host) → (f h).id ≡ h.id)
    → ((h : Host) → h.id ≢ id → IsAfforded log h → IsAfforded next h)
    → All (λ (h : Host). h.id ≡ id → IsAfforded next (f h)) s.hosts
    → IsWithin log s
    → IsWithin next t
IsWithin-on_host log next id f s t e k same g v = record {
  identities =
      subst IsDistinct (sym (ap (map (λ (h : Host). h.id)) e ∙ map-on_host id f s.hosts k))
        v.identities;
  each = subst (All (IsAfforded next)) (sym e) (All-on_host log next id f s.hosts same g v.each);
}

pub IsWithin-select_job :
    (log : Log) (id : String) (now : ℕ) (wanted excluded : String) (previous : Option Job)
    (s : Coordinator) (j : Job) (t : Coordinator)
    → select_job id now wanted excluded previous s ≡ some (j, t)
    → IsWithin log s
    → IsWithin log t
unfolding take_job new_job
IsWithin-select_job log id now wanted excluded previous s j t e v =
    let ((h, b, m, c, is), to) = select_job-take id now wanted excluded previous s j t e in
    let only =
      IsDistinct-Occurs (λ (h : Host). h.id) s.hosts h v.identities
        (find_host-Occurs s.hosts h.id h c.connected) in
    IsWithin-on_host log log j.host (λ (g : Host). record g { jobs = put_job j g.jobs }) s t
      (ap (λ (t : Coordinator). t.hosts) to) (λ g. refl) (λ g _ w. w)
      (All-both _
        (λ g f p k.
          subst (λ (g : Host). IsAfforded log (record g { jobs = put_job j g.jobs }))
            (sym (f (k ∙ ap (λ (j : Job). j.host) is)))
            (IsAfforded-put_job log h b j c.backend (ap (λ (j : Job). j.backend.id) is) c.free (
              All-get_elem? (IsAfforded log) s.hosts _ v.each
                (find_host-Occurs s.hosts h.id h c.connected).1)))
        s.hosts only v.each)
      v
