-- ===== src/Coordinator/Select/Served.antt =====
-- What `models` of internal/coordinator/coordinator.go lists, against what `selectJob` may choose.
use mathlib.Core.Option.{some_inj}
use relay_local.Prelude.{
  ℕ, zero, suc, ◌<◌, ◌≡◌, sym, subst, inl, inr, true, Option, some, List, [], ◌∷◌, String, Occurs,
  if◌then◌else◌, if-either, str_eq, str_eq_iff, Bool-cases, arith,
}
use relay_local.Prelude.Sort.{count_by, sort, count_by-sort}
use relay_local.Protocol.{Model, Backend, has_key}
use relay_local.Coordinator.Job.{Job}
use relay_local.Coordinator.Select.{
  Host, Coordinator, find_host, text_le, see_models, see_backends, see_hosts, models,
}
use relay_local.Coordinator.Select.Choice.{IsChoice}

has_key-count_by :
    (ks : List String) (x : String) → has_key ks x ≡ true → 0 < count_by (λ k. str_eq k x) ks
has_key-count_by [] x h = ground arith
has_key-count_by (k ∷ ks) x h = ground (arith, has_key-count_by ks x)

has_key-of_count_by :
    (ks : List String) (x : String) → 0 < count_by (λ k. str_eq k x) ks → has_key ks x ≡ true
has_key-of_count_by [] x h = ground arith
has_key-of_count_by (k ∷ ks) x h = ground (arith, has_key-of_count_by ks x)

has_key-sort :
    (ks : List String) (x : String) → has_key ks x ≡ true → has_key (sort text_le ks) x ≡ true
has_key-sort ks x h = has_key-of_count_by _ x (
    subst (λ n. 0 < n) (sym (count_by-sort text_le (λ k. str_eq k x) ks)) (has_key-count_by ks x h))

abbrev see : String → List String → List String
see id seen = if has_key seen id then seen else id ∷ seen

has_key-see :
    (seen : List String) (id x : String) → has_key seen x ≡ true → has_key (see id seen) x ≡ true
has_key-see seen id x h = ground arith

has_key-see_own : (seen : List String) (id : String) → has_key (see id seen) id ≡ true
has_key-see_own seen id = grind (arith, str_eq_iff id id)

-- What was seen stays seen.
has_key-see_models :
    (ms : List Model) (seen : List String) (x : String)
    → has_key seen x ≡ true
    → has_key (see_models ms seen) x ≡ true
unfolding see_models
has_key-see_models [] seen x h = h
has_key-see_models (m ∷ ms) seen x h =
    has_key-see_models ms (see m.id seen) x (has_key-see seen m.id x h)

has_key-see_backends :
    (bs : List Backend) (seen : List String) (x : String)
    → has_key seen x ≡ true
    → has_key (see_backends bs seen) x ≡ true
unfolding see_backends
has_key-see_backends [] seen x h = h
has_key-see_backends (b ∷ bs) seen x h = has_key-see_backends bs _ x (
    if-either (λ ks. has_key ks x ≡ true) b.ready _ seen (λ _. has_key-see_models b.models seen x h)
      (λ _. h))

has_key-see_hosts :
    (hs : List Host) (seen : List String) (x : String)
    → has_key seen x ≡ true
    → has_key (see_hosts hs seen) x ≡ true
unfolding see_hosts
has_key-see_hosts [] seen x h = h
has_key-see_hosts (g ∷ hs) seen x h =
    has_key-see_hosts hs _ x (has_key-see_backends g.backends seen x h)

see_models-Occurs :
    (ms : List Model) (m : Model) (seen : List String)
    → Occurs m ms
    → has_key (see_models ms seen) m.id ≡ true
unfolding see_models
see_models-Occurs [] m seen (i, e) = ground arith
see_models-Occurs (n ∷ ms) m seen (zero, e) = has_key-see_models ms _ m.id (
    subst (λ (n : Model). has_key (see n.id seen) m.id ≡ true) (sym (some_inj.0 e))
      (has_key-see_own seen m.id))
see_models-Occurs (n ∷ ms) m seen (suc i, e) = see_models-Occurs ms m _ (i, e)

see_backends-Occurs :
    (bs : List Backend) (b : Backend) (m : Model) (seen : List String)
    → Occurs b bs
    → b.ready ≡ true
    → Occurs m b.models
    → has_key (see_backends bs seen) m.id ≡ true
unfolding see_backends
see_backends-Occurs [] b m seen (i, e) r o = ground arith
see_backends-Occurs (c ∷ bs) b m seen (zero, e) r o = has_key-see_backends bs _ m.id (
    subst
      (λ (c : Backend). has_key (if c.ready then see_models c.models seen else seen) m.id ≡ true)
      (sym (some_inj.0 e))
      (if-either (λ ks. has_key ks m.id ≡ true) b.ready _ seen
        (λ _. see_models-Occurs b.models m seen o) (λ no_one. absurd (ground arith))))
see_backends-Occurs (c ∷ bs) b m seen (suc i, e) r o = see_backends-Occurs bs b m _ (i, e) r o

see_hosts-find_host :
    (hs : List Host) (id : String) (h : Host) (b : Backend) (m : Model) (seen : List String)
    → find_host hs id ≡ some h
    → Occurs b h.backends
    → b.ready ≡ true
    → Occurs m b.models
    → has_key (see_hosts hs seen) m.id ≡ true
unfolding see_hosts
see_hosts-find_host [] id h b m seen e ob r om = ground arith
see_hosts-find_host (g ∷ hs) id h b m seen e ob r om = elim (Bool-cases (str_eq g.id id)) [
  | inl own ↦ has_key-see_hosts hs _ m.id (
      subst (λ (g : Host). has_key (see_backends g.backends seen) m.id ≡ true)
        (sym (the_host g hs id h own e)) (see_backends-Occurs h.backends b m seen ob r om))
  | inr other ↦ see_hosts-find_host hs id h b m _ (ground arith) ob r om
]
  where
    the_host :
        (g : Host) (hs : List Host) (id : String) (h : Host)
        → str_eq g.id id ≡ true
        → find_host (g ∷ hs) id ≡ some h
        → g ≡ h
    the_host g hs id h own e = ground arith

-- A model that may be chosen is one that the coordinator lists.
pub models-IsChoice :
    (wanted : String) (previous : Option Job) (now : ℕ) (excluded : String) (s : Coordinator)
    (h : Host) (b : Backend) (m : Model)
    → IsChoice wanted previous now excluded s.hosts h b m
    → has_key (models s) wanted ≡ true
unfolding models
models-IsChoice wanted previous now excluded s h b m c =
    subst (λ x. has_key (sort text_le (see_hosts s.hosts [])) x ≡ true) c.asked
      (has_key-sort _ m.id
        (see_hosts-find_host s.hosts h.id h b m [] c.connected c.backend c.ready c.model))
