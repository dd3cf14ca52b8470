-- ===== src/Coordinator/Select/Found.antt =====
-- That `selectJob` of internal/coordinator/coordinator.go finds a host if there is one.
use mathlib.Core.Option.{some_inj}
use native.Mathlib.Nat.{mod-lt}
use relay_local.Prelude.{
  ℕ, zero, suc, ◌%◌, ◌<◌, ◌≡◌, ◌⊎◌, refl, ap, sym, subst, ◌∙◌, inl, inr, Bool, true, false, not,
  ◌||◌, Option, none, some, List, [], ◌∷◌, ◌++◌, String, length, length-append, get_elem?-lt,
  All-get_elem?, map, All, Occurs, if◌then◌else◌, if-either, ◌==◌, str_eq, str_eq_iff, Bool-cases,
  arith,
}
use relay_local.Prelude.Int.{pos, leb_ℤ}
use relay_local.Prelude.Sort.{count_by, sort, count_by-sort}
use relay_local.Protocol.{Model, Backend}
use relay_local.Coordinator.Job.{Job, new_job}
use relay_local.Coordinator.Select.{
  Host, Coordinator, text_le, find_host, active, is_compatible, model_candidates,
  backend_candidates, is_stale, host_candidates, candidates, take_job, taken, pick, select_job,
}
use relay_local.Protocol.{has_key}
use relay_local.Coordinator.Select.{models}
use relay_local.Coordinator.Select.Served.{models-IsChoice}
use relay_local.Coordinator.Select.Choice.{IsChoice, IsChosen, All-candidates}

abbrev IsFull : List Job → Type 0
IsFull js = 0 < length js

IsFull-append_left : (xs ys : List Job) → IsFull xs → IsFull (xs ++ ys)
IsFull-append_left xs ys h = omega (arith, length-append xs ys)

IsFull-append_right : (xs ys : List Job) → IsFull ys → IsFull (xs ++ ys)
IsFull-append_right xs ys h = omega (arith, length-append xs ys)

-- A loop that passes over an element under either of two conditions.
IsFull-both :
    (t u : Bool) (js rest : List Job)
    → t ≡ false
    → u ≡ false
    → IsFull js
    → IsFull (if t then rest else if u then rest else js)
IsFull-both t u js rest a b h = rw a (rw b h)

module _ (id wanted : String) (previous : Option Job) where
  model_candidates-lt :
      (host : String) (b : Backend) (ms : List Model) (m : Model)
      → Occurs m ms
      → m.id ≡ wanted
      → is_compatible previous b m ≡ true
      → IsFull (model_candidates id wanted previous host b ms)
  unfolding model_candidates
  model_candidates-lt host b [] m (i, e) asked same = ground arith
  model_candidates-lt host b (n ∷ ms) m (zero, e) asked same =
      subst (λ n. IsFull (model_candidates id wanted previous host b (n ∷ ms))) (sym (some_inj.0 e))
        (IsFull-both _ _ (new_job id host b m ∷ model_candidates id wanted previous host b ms) _
          (ap not ((str_eq_iff m.id wanted).1 asked)) (ap not same) (omega arith))
  model_candidates-lt host b (n ∷ ms) m (suc i, e) asked same =
      let rest = model_candidates-lt host b ms m (i, e) asked same in
      if-either IsFull (not (str_eq n.id wanted)) _ _ (λ _. rest)
        (λ _.
          if-either IsFull (not (is_compatible previous b n)) _ _ (λ _. rest) (λ _. omega arith))

  backend_candidates-lt :
      (h : Host) (bs : List Backend) (b : Backend)
      → Occurs b bs
      → b.ready ≡ true
      → leb_ℤ b.capacity (pos (active b.id h.jobs)) ≡ false
      → IsFull (model_candidates id wanted previous h.id b b.models)
      → IsFull (backend_candidates id wanted previous h bs)
  unfolding backend_candidates
  backend_candidates-lt h [] b (i, e) ready free some_model = ground arith
  backend_candidates-lt h (c ∷ bs) b (zero, e) ready free some_model =
      subst (λ c. IsFull (backend_candidates id wanted previous h (c ∷ bs))) (sym (some_inj.0 e))
        (IsFull-both _ _ _ _ (ap not ready) free (IsFull-append_left _ _ some_model))
  backend_candidates-lt h (c ∷ bs) b (suc i, e) ready free some_model =
      let rest = backend_candidates-lt h bs b (i, e) ready free some_model in
      if-either IsFull (not c.ready) _ _ (λ _. rest)
        (λ _.
          if-either IsFull (leb_ℤ c.capacity (pos (active c.id h.jobs))) _ _ (λ _. rest)
            (λ _. IsFull-append_right _ _ rest))

count_by-host :
    (hosts : List Host) (id : String) (h : Host)
    → find_host hosts id ≡ some h
    → 0 < count_by (λ k. str_eq k id) (map (λ (h : Host). h.id) hosts)
count_by-host [] id h e = ground arith
count_by-host (g ∷ hosts) id h e = grind (arith, count_by-host hosts id h)

host_candidates-lt :
    (id wanted : String) (previous : Option Job) (now : ℕ) (excluded : String) (hosts : List Host)
    (h : Host) (b : Backend) (m : Model)
    → IsChoice wanted previous now excluded hosts h b m
    → IsFull (host_candidates id wanted previous now excluded (some h))
unfolding host_candidates
host_candidates-lt id wanted previous now excluded hosts h b m c =
    let models = model_candidates-lt id wanted previous h.id b b.models m c.model c.asked c.same in
    let full =
      backend_candidates-lt id wanted previous h h.backends b c.backend c.ready c.free models in
    if-either IsFull (str_eq h.id excluded || is_stale now h) _ _
      (λ skipped. absurd (grind (arith, str_eq_iff h.id excluded, c.other, c.alive))) (λ _. full)

candidates-lt :
    (id wanted : String) (previous : Option Job) (now : ℕ) (excluded : String) (hosts : List Host)
    (h : Host) (b : Backend) (m : Model) (ks : List String)
    → IsChoice wanted previous now excluded hosts h b m
    → 0 < count_by (λ k. str_eq k h.id) ks
    → IsFull (candidates id wanted previous now excluded hosts ks)
unfolding candidates host_candidates
candidates-lt id wanted previous now excluded hosts h b m [] c p = ground arith
candidates-lt id wanted previous now excluded hosts h b m (k ∷ ks) c p =
    let here = host_candidates id wanted previous now excluded (find_host hosts k) in
    let rest = candidates id wanted previous now excluded hosts ks in
    elim (Bool-cases (str_eq k h.id)) [
      | inl own ↦ IsFull-append_left here rest (
          subst (λ o. IsFull (host_candidates id wanted previous now excluded o))
            (sym (ap (find_host hosts) ((str_eq_iff k h.id).0 own) ∙ c.connected))
            (host_candidates-lt id wanted previous now excluded hosts h b m c))
      | inr other ↦
          IsFull-append_right here rest
            (candidates-lt id wanted previous now excluded hosts h b m ks c (ground arith))
    ]

IsFull-cases : (js : List Job) → IsFull js ⊎ (¬ IsFull js)
IsFull-cases [] = inr (λ h. omega arith)
IsFull-cases (j ∷ js) = inl (omega arith)

not-==_zero : (n : ℕ) → 0 < n → (n == 0) ≡ false
not-==_zero n h = ground arith

-- The round robin takes one of the candidates if there are any.
pick-All :
    (P : Job → Type 0) (found : List Job) (s : Coordinator)
    → All P found
    → IsFull found
    → (j : Job) × P j × (pick found s ≡ some (j, take_job j s))
unfolding pick taken
pick-All P found s all full =
    let i = s.cursor % length found in
    let (j, e) = get_elem?-lt found i (mod-lt s.cursor full) in
    (j, All-get_elem? P found i all e, rw (not-==_zero (length found) full) (ap (λ o. taken o s) e))

pick-nil : (found : List Job) (s : Coordinator) → ¬ IsFull found → pick found s ≡ none
unfolding pick
pick-nil [] s h = refl
pick-nil (j ∷ js) s h = absurd (h (omega arith))

-- What a result has to be: there is no choice, or the job is one of a choice, and is put to the
-- others of its host, and the wanted model is listed.
abbrev pub IsSelection :
    String → ℕ → String → String → Option Job → Coordinator → Option (Job × Coordinator) → Type 0
IsSelection id now wanted excluded previous s none =
    (j : Job) → ¬ IsChosen id wanted previous now excluded s.hosts j
IsSelection id now wanted excluded previous s (some (j, t)) =
    IsChosen id wanted previous now excluded s.hosts j
    × (t ≡ take_job j s)
    × (has_key (models s) wanted ≡ true)

-- Where `selectJob` gives no job there is no choice: a host that is connected, not the excluded one,
-- and heard from in the last ten seconds; a backend of it that is ready and has fewer jobs than its
-- capacity; and a model of that with the wanted id that, after an earlier attempt, has the same source,
-- kind and, where it is local, digest. The job that it gives is one of such a choice, it is added to the
-- jobs of its host and nothing but the cursor changes besides, and `models` lists the wanted model.
pub select_job_lem :
    (id : String) (now : ℕ) (wanted excluded : String) (previous : Option Job) (s : Coordinator)
    → IsSelection id now wanted excluded previous s (select_job id now wanted excluded previous s)
unfolding select_job
select_job_lem id now wanted excluded previous s =
    let ids = sort text_le (map (λ (h : Host). h.id) s.hosts) in
    let found = candidates id wanted previous now excluded s.hosts ids in
    let all = All-candidates id wanted previous now excluded s.hosts ids in
    let Goal = IsSelection id now wanted excluded previous s in
    elim (IsFull-cases found) [
      | inl full ↦
          let (j, chosen, e) = pick-All _ found s all full in
          let (g, b, m, c, _) = chosen in
          subst Goal (sym e) (chosen, refl, models-IsChoice wanted previous now excluded s g b m c)
      | inr empty ↦ subst Goal (sym (pick-nil found s empty)) (λ j chosen.
          let (g, b, m, c, _) = chosen in
          empty (
            candidates-lt id wanted previous now excluded s.hosts g b m ids c (
              subst (λ n. 0 < n) (sym (count_by-sort text_le (λ k. str_eq k g.id) _))
                (count_by-host s.hosts g.id g c.connected))))
    ]

pub select_job-take :
    (id : String) (now : ℕ) (wanted excluded : String) (previous : Option Job) (s : Coordinator)
    (j : Job) (t : Coordinator)
    → select_job id now wanted excluded previous s ≡ some (j, t)
    → IsChosen id wanted previous now excluded s.hosts j × (t ≡ take_job j s)
select_job-take id now wanted excluded previous s j t h =
    let (chosen, to, _) =
      subst (IsSelection id now wanted excluded previous s) h
        (select_job_lem id now wanted excluded previous s) in
    (chosen, to)
