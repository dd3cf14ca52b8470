-- ===== src/Coordinator/Select/Choice.antt =====
-- The choice that `selectJob` of internal/coordinator/coordinator.go makes, and when it makes none.
use relay_local.Prelude.{
  ℕ, suc, ◌≡◌, ◌≢◌, refl, ap, ◌∙◌, inl, inr, true, false, not, ◌||◌, Option, some, List, [], ◌∷◌,
  ◌++◌, String, All, Occurs, if-either, str_eq, str_eq_iff, Option-cases, arith,
}
use relay_local.Prelude.Int.{pos, leb_ℤ}
use relay_local.Protocol.{Model, Backend}
use relay_local.Coordinator.Job.{Job, new_job}
use relay_local.Coordinator.Select.{
  Host, find_host, active, is_compatible, model_candidates, backend_candidates, is_stale,
  host_candidates, candidates,
}

-- The conditions under which a model of a backend of a host may serve a request.
pub record IsChoice (wanted : String) (previous : Option Job) (now : ℕ) (excluded : String)
    (hosts : List Host) (h : Host) (b : Backend) (m : Model) : Type 0 where
  pub connected : find_host hosts h.id ≡ some h
  pub backend : Occurs b h.backends
  pub model : Occurs m b.models
  pub other : h.id ≢ excluded
  pub alive : is_stale now h ≡ false
  pub ready : b.ready ≡ true
  pub free : leb_ℤ b.capacity (pos (active b.id h.jobs)) ≡ false
  pub asked : m.id ≡ wanted
  pub same : is_compatible previous b m ≡ true

-- A job that follows from such a choice.
abbrev pub IsChosen : String → String → Option Job → ℕ → String → List Host → Job → Type 0
IsChosen id wanted previous now excluded hosts j =
    (h : Host) × (b : Backend) × (m : Model) × IsChoice wanted previous now excluded hosts h b m
    × (j ≡ new_job id h.id b m)

All-append {ℓ κ} :
    {A : Type ℓ} (P : A → Type κ) (xs ys : List A) → All P xs → All P ys → All P (xs ++ ys)
All-append P [] ys a b = b
All-append P (x ∷ xs) ys (p, a) b = (p, All-append P xs ys a b)

module _ (P : Job → Type 0) (id wanted : String) (previous : Option Job) where
  All-model_candidates :
      (host : String) (b : Backend) (ms : List Model)
      → ((m : Model)
          → Occurs m ms
          → m.id ≡ wanted
          → is_compatible previous b m ≡ true
          → P (new_job id host b m))
      → All P (model_candidates id wanted previous host b ms)
  unfolding model_candidates
  All-model_candidates host b [] f = tt
  All-model_candidates host b (m ∷ ms) f =
      let rest = All-model_candidates host b ms (λ n (i, e). f n (suc i, e)) in
      if-either (All P) (not (str_eq m.id wanted)) _ _ (λ _. rest)
        (λ asked.
          if-either (All P) (not (is_compatible previous b m)) _ _ (λ _. rest)
            (λ same.
              (f m (0, refl) ((str_eq_iff m.id wanted).0 (ground arith)) (ground arith), rest)))

  All-backend_candidates :
      (h : Host) (bs : List Backend)
      → ((b : Backend)
          → Occurs b bs
          → b.ready ≡ true
          → leb_ℤ b.capacity (pos (active b.id h.jobs)) ≡ false
          → All P (model_candidates id wanted previous h.id b b.models))
      → All P (backend_candidates id wanted previous h bs)
  unfolding backend_candidates
  All-backend_candidates h [] f = tt
  All-backend_candidates h (b ∷ bs) f =
      let rest = All-backend_candidates h bs (λ c (i, e). f c (suc i, e)) in
      if-either (All P) (not b.ready) _ _ (λ _. rest)
        (λ ready.
          if-either (All P) (leb_ℤ b.capacity (pos (active b.id h.jobs))) _ _ (λ _. rest)
            (λ free. All-append P _ _ (f b (0, refl) (ground arith) free) rest))

pub find_host-id :
    (hosts : List Host) (id : String) (h : Host) → find_host hosts id ≡ some h → h.id ≡ id
find_host-id [] id h e = ground arith
find_host-id (g ∷ hosts) id h e = grind (arith, str_eq_iff g.id id, find_host-id hosts id h)

All-host_candidates :
    (id wanted : String) (previous : Option Job) (now : ℕ) (excluded : String) (hosts : List Host)
    (h : Host)
    → find_host hosts h.id ≡ some h
    → All
        (IsChosen id wanted previous now excluded hosts)
        (host_candidates id wanted previous now excluded (some h))
unfolding host_candidates
All-host_candidates id wanted previous now excluded hosts h e =
    let P = IsChosen id wanted previous now excluded hosts in
    if-either (All P) (str_eq h.id excluded || is_stale now h) _ _ (λ _. tt)
      (λ in_use. All-backend_candidates P id wanted previous h h.backends (λ b ob ready free.
        All-model_candidates P id wanted previous h.id b b.models (λ m om asked same. (
          h,
          b,
          m,
          record {
            connected = e;
            backend = ob;
            model = om;
            other = λ x. ground (arith, (str_eq_iff h.id excluded).1 x);
            alive = ground arith;
            ready = ready;
            free = free;
            asked = asked;
            same = same;
          },
          refl,
        ))))

pub All-candidates :
    (id wanted : String) (previous : Option Job) (now : ℕ) (excluded : String) (hosts : List Host)
    (ks : List String)
    → All
        (IsChosen id wanted previous now excluded hosts)
        (candidates id wanted previous now excluded hosts ks)
unfolding candidates host_candidates
All-candidates id wanted previous now excluded hosts [] = tt
All-candidates id wanted previous now excluded hosts (k ∷ ks) =
    let P = IsChosen id wanted previous now excluded hosts in
    All-append P _ _
      (elim (Option-cases (find_host hosts k)) [
        | inl gone ↦ rw gone tt
        | inr (h, e) ↦ rw e (
            All-host_candidates id wanted previous now excluded hosts h
              (ap (find_host hosts) (find_host-id hosts k h e) ∙ e))
      ])
      (All-candidates id wanted previous now excluded hosts ks)
