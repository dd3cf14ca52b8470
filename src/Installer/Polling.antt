-- ===== src/Installer/Polling.antt =====
-- Which job the page shows.
use relay_local.Prelude.{
  ◌≡◌, ◌≢◌, refl, sym, subst, ◌∙◌, Bool, true, false, Option, none, some, List, [], ◌∷◌, ◌++◌,
  String, All, str_eq, str_eq_iff, Bool-cases, inl, inr, arith,
}
use relay_local.Api.Server.{answered, failed}
use relay_local.Stats.Price.{is_blank}
use relay_local.Installer.{
  ModelJob, Installer, is_polled, find_job, remove, Event, type_name, install, posted, tick, polled,
  show_found, poll_shown, handle, waits, can,
}

find_job-id :
    (id : String) (jobs : List ModelJob) {j : ModelJob} → find_job id jobs ≡ some j → j.id ≡ id
unfolding find_job
find_job-id id [] h = ground arith
find_job-id id (k ∷ jobs) {j} h =
    ground (arith, str_eq_iff k.id id, λ (e : find_job id jobs ≡ some j). find_job-id id jobs e)

abbrev pub id_of : Option ModelJob → String
id_of none = ""
id_of (some j) = j.id

-- Every poll that waits asks for the job that is shown.
abbrev pub IsCurrent : Installer → Type 0
IsCurrent s = All (λ id. id_of s.job ≡ id) s.polls

waits-All :
    (x shown : String) (ids : List String)
    → waits x ids ≡ true
    → All (λ id. shown ≡ id) ids
    → shown ≡ x
unfolding waits
waits-All x shown [] h a = ground arith
waits-All x shown (y ∷ ids) h (e, a) = ground (arith, str_eq_iff y x, waits-All x shown ids)

remove-All :
    (x shown : String) (ids : List String)
    → All (λ id. shown ≡ id) ids
    → All (λ id. shown ≡ id) (remove x ids)
unfolding remove
remove-All x shown [] a = tt
remove-All x shown (y ∷ ids) (e, a) = elim (Bool-cases (str_eq y x)) [
  | inl same ↦ rw same a
  | inr other ↦ rw other (e, remove-All x shown ids a)
]

All-append :
    (shown x : String) (ids : List String)
    → All (λ id. shown ≡ id) ids
    → shown ≡ x
    → All (λ id. shown ≡ id) (ids ++ (x ∷ []))
All-append shown x [] a e = (e, tt)
All-append shown x (y ∷ ids) (d, a) e = (d, All-append shown x ids a e)

poll_shown-All :
    (job : Option ModelJob) (ids : List String)
    → All (λ id. id_of job ≡ id) ids
    → All (λ id. id_of job ≡ id) (poll_shown job ids)
poll_shown-All none ids a = a
poll_shown-All (some j) ids a = elim (Bool-cases (is_polled j)) [
  | inl on ↦ rw on (All-append j.id j.id ids a refl)
  | inr off ↦ rw off a
]

-- The job shown is the one that was shown before, and no poll waits for another.
abbrev pub KeepsJob : Installer → Installer → Type 0
KeepsJob s s' = (id_of s'.job ≡ id_of s.job) × IsCurrent s'

show_found-KeepsJob :
    (found : Option ModelJob) (s : Installer) (id : String)
    → ((j : ModelJob) → found ≡ some j → j.id ≡ id)
    → id_of s.job ≡ id
    → IsCurrent s
    → KeepsJob s (show_found found s)
show_found-KeepsJob none s id f e a = (refl, a)
show_found-KeepsJob (some j) s id f e a =
    let same : j.id ≡ id_of s.job = f j refl ∙ sym e in
    (same, subst (λ shown. All (λ id. shown ≡ id) s.polls) (sym same) a)

abbrev pub is_post : Event → Bool
is_post (posted model r) = true
is_post _ = false

-- Until the answer to an install comes, the page goes on showing the same job, whatever the timer,
-- the polls and the user do, if no poll waits for another job; and then none does later.
pub handle-KeepsJob :
    (e : Event) (s : Installer)
    → is_post e ≡ false
    → can e s ≡ true
    → IsCurrent s
    → KeepsJob s (handle e s)
unfolding handle can
handle-KeepsJob (type_name t) s p c a = (refl, a)
handle-KeepsJob install s p c a = elim (Bool-cases (is_blank s.model)) [
  | inl blank ↦ rw blank (refl, a)
  | inr full ↦ rw full (refl, a)
]
handle-KeepsJob (posted model r) s p c a = ground arith
handle-KeepsJob tick s p c a = (refl, poll_shown-All s.job s.polls a)
handle-KeepsJob (polled id (answered jobs)) s p c a =
    show_found-KeepsJob (find_job id jobs) (record s { polls = remove id s.polls }) id
      (λ j h. find_job-id id jobs h) (waits-All id (id_of s.job) s.polls c a)
      (remove-All id (id_of s.job) s.polls a)
handle-KeepsJob (polled id (failed t)) s p c a = (refl, remove-All id (id_of s.job) s.polls a)

id_of-show_found :
    (found : Option ModelJob) (s : Installer) {j : ModelJob}
    → found ≡ some j
    → id_of (show_found found s).job ≡ j.id
id_of-show_found none s h = ground arith
id_of-show_found (some k) s h = ground arith

-- A poll of an older job that still waits when the answer to another install comes brings the older
-- job back: the page then does not show the new one.
pub old_job-returns :
    (model old : String) (new : ModelJob) (jobs : List ModelJob) (s : Installer) {j : ModelJob}
    → find_job old jobs ≡ some j
    → old ≢ new.id
    → let s' = handle (polled old (answered jobs)) (handle (posted model (answered new)) s) in
      id_of s'.job ≢ new.id
unfolding handle
old_job-returns model old new jobs s h ne e =
    ne (sym (find_job-id old jobs h) ∙ sym (id_of-show_found (find_job old jobs) _ h) ∙ e)
