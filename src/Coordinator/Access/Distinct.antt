-- ===== src/Coordinator/Access/Distinct.antt =====
-- The keys that `New` of internal/coordinator/coordinator.go takes are all different.
use mathlib.Core.Option.{some-injective}
use relay_local.Prelude.{
  ◌≡◌, ◌≢◌, refl, subst, ap, inl, inr, Bool, true, false, Option, none, some, List, [], ◌∷◌, String,
  map, All, str_eq_iff, Option-cases, arith,
}
use relay_local.Protocol.{has_key}
use relay_local.Protocol.Catalog.{IsDistinct, IsNew, IsNew-cons}
use relay_local.Config.Urls.{Net, is_identifier}
use relay_local.Config.Listener.{
  Coordinator, validate_coordinator, IsListener, validate_coordinator-IsListener, IsHost,
}
use relay_local.Coordinator.Access.{
  secret, key_entry, host_keys, Keys, with_buyer, keys_of, new_coordinator,
}

abbrev pub keys : List (String × String) → List String
keys = map λ (h : String × String). h.1

abbrev pub ids : List (String × String) → List String
ids = map λ (h : String × String). h.0

-- The keys of the hosts are new, and the hosts are those of the configuration.
abbrev AreKeysOf : List String → List (String × String) → List (String × String) → Type 0
AreKeysOf seen hosts ks = IsNew seen (keys ks) × (ids ks ≡ ids hosts)

key_entry-some :
    (id key : String) (seen : Bool) (rest : Option (List (String × String)))
    (ks : List (String × String))
    → key_entry id seen rest key ≡ some ks
    → (seen ≡ false)
      × ((others : List (String × String)) × (rest ≡ some others) × ((id, key) ∷ others ≡ ks))
key_entry-some id key true rest ks h = absurd (ground arith)
key_entry-some id key false none ks h = absurd (ground arith)
key_entry-some id key false (some others) ks h = (refl, (others, refl, some-injective _ _ h))

host_keys-AreKeysOf :
    (environment : String → String) (seen : List String) (hosts ks : List (String × String))
    → host_keys environment seen hosts ≡ some ks
    → AreKeysOf seen hosts ks
unfolding host_keys IsNew
host_keys-AreKeysOf environment seen [] ks h =
    subst (AreKeysOf seen []) (some-injective _ _ h) (unfold IsNew in ((tt, tt), refl))
host_keys-AreKeysOf environment seen ((id, env) ∷ hosts) ks h =
    elim (Option-cases (secret environment env)) [
      | inl missing ↦ absurd (ground (arith, rw missing at h))
      | inr (key, found) ↦
          let h' : key_entry id (has_key seen key) (host_keys environment (key ∷ seen) hosts) key
              ≡ some ks =
            rw found at h in
          let (new, (others, rest, e)) =
            key_entry-some id key (has_key seen key) (host_keys environment (key ∷ seen) hosts) ks
              h' in
          let (news, same) = host_keys-AreKeysOf environment (key ∷ seen) hosts others rest in
          subst (AreKeysOf seen ((id, env) ∷ hosts)) e
            ((IsNew-cons seen key (keys others)).1 (new, news), ap (λ is. id ∷ is) same)
    ]

-- All keys are different, also from the buyer's, and the hosts have identifiers.
pub record AreDistinct (k : Keys) : Type 0 where
  pub apart : IsDistinct (k.buyer ∷ keys k.hosts)
  pub named : All (λ (h : String × String). is_identifier h.0 ≡ true) k.hosts

named_of :
    (hosts ks : List (String × String))
    → ids ks ≡ ids hosts
    → All IsHost hosts
    → All (λ (h : String × String). is_identifier h.0 ≡ true) ks
named_of hosts [] e a = tt
named_of [] (k ∷ ks) e a = absurd (ground arith)
named_of ((id, env) ∷ hosts) ((j, key) ∷ ks) e ((i, _), a) =
    let same : j ≡ id = ground arith in
    let rest : ids ks ≡ ids hosts = ground arith in (rw same i, named_of hosts ks rest a)

apart_of : (buyer : String) (ks : List String) → IsNew (buyer ∷ []) ks → IsDistinct (buyer ∷ ks)
unfolding IsNew
apart_of buyer ks (free, d) = (others ks free, d)
  where
    others :
        (ks : List String) → All (λ k. has_key (buyer ∷ []) k ≡ false) ks → All (λ k. buyer ≢ k) ks
    others [] free = tt
    others (k ∷ ks) (f, free) = (grind (arith, str_eq_iff buyer k), others ks free)

with_buyer-AreDistinct :
    (environment : String → String) (hosts : List (String × String)) (o : Option String) (k : Keys)
    → All IsHost hosts
    → with_buyer environment hosts o ≡ some k
    → AreDistinct k
with_buyer-AreDistinct environment hosts none k a h = absurd (ground arith)
with_buyer-AreDistinct environment hosts (some buyer) k a h =
    elim (Option-cases (host_keys environment (buyer ∷ []) hosts)) [
      | inl missing ↦ absurd (ground (arith, rw missing at h))
      | inr (ks, found) ↦
          let (new, same) = host_keys-AreKeysOf environment (buyer ∷ []) hosts ks found in
          let e : some (record { buyer = buyer; hosts = ks }) ≡ some k = rw found at h in
          subst AreDistinct (some-injective _ _ e)
            (record { apart = apart_of buyer (keys ks) new; named = named_of hosts ks same a })
    ]

keys_of-AreDistinct :
    (net : Net) (environment : String → String) (r : Coordinator × Option String) (k : Keys)
    → (r.1 ≡ none → IsListener net r.0)
    → keys_of environment r ≡ some k
    → AreDistinct k
keys_of-AreDistinct net environment (c, some e) k valid h = absurd (ground arith)
keys_of-AreDistinct net environment (c, none) k valid h =
    let (_, _, _, _, hosts, _, _, _) = valid refl in
    with_buyer-AreDistinct environment c.hosts (secret environment c.buyer_token_env) k hosts h

pub new_coordinator-AreDistinct :
    (net : Net) (environment : String → String) (c : Coordinator) (k : Keys)
    → new_coordinator net environment c ≡ some k
    → AreDistinct k
unfolding new_coordinator
new_coordinator-AreDistinct net environment c k h =
    keys_of-AreDistinct net environment (validate_coordinator net c) k
      (validate_coordinator-IsListener net c) h
