-- ===== src/Coordinator/Access/Identity.antt =====
-- What a key gives access to: each host its own identity, and the buyer the API
-- (internal/coordinator/coordinator.go).
use mathlib.Core.Option
use mathlib.Core.Option.{some-injective}
use relay_local.Prelude.{
  ℕ, zero, suc, ◌≡◌, ◌≢◌, ◌↔◌, ◌⊎◌, refl, sym, ap, ◌∙◌, inl, inr, true, false, Option, none, some,
  List, [], ◌∷◌, String, foldl, get_elem?, All, All-get_elem?, get_elem?-map, Occurs, if◌then◌else◌,
  str_eq_iff, Bool-cases, arith,
}
use relay_local.Protocol.Catalog.{IsDistinct}
use relay_local.Config.Urls.{Net, is_identifier, is_identifier_nonempty}
use relay_local.Config.Listener.{Coordinator}
use relay_local.Coordinator.Access.{
  Keys, new_coordinator, strip_prefix, is_key, key_matches, Request, secure, allowed, authorize,
  host_of_key, connect_as,
}
use relay_local.Coordinator.Access.Distinct.{keys, AreDistinct, new_coordinator-AreDistinct}

-- The loop over the keys, from any identity on.
abbrev last_match : String → String → List (String × String) → String
last_match authorization id hosts =
    foldl (λ id h. if key_matches authorization h.1 then h.0 else id) id hosts

no_match :
    (authorization id : String) (hosts : List (String × String))
    → All (λ k. key_matches authorization k ≡ false) (keys hosts)
    → last_match authorization id hosts ≡ id
no_match authorization id [] a = refl
no_match authorization id ((j, k) ∷ hosts) (m, a) = rw m (no_match authorization id hosts a)

found_match :
    (authorization id j : String) (hosts : List (String × String))
    → last_match authorization id hosts ≡ j
    → (id ≡ j) ⊎ ((key : String) × Occurs (j, key) hosts × (key_matches authorization key ≡ true))
found_match authorization id j [] e = inl e
found_match authorization id j ((i, key) ∷ hosts) e =
    elim (Bool-cases (key_matches authorization key)) [
      | inl hit ↦ elim (found_match authorization i j hosts (rw hit at e)) [
        | inl same ↦ inr (key, (0, ap (λ n. some (n, key)) same), hit)
        | inr (k, (n, at'), m) ↦ inr (k, (suc n, at'), m)
      ]
      | inr miss ↦ elim (found_match authorization id j hosts (rw miss at e)) [
        | inl same ↦ inl same
        | inr (k, (n, at'), m) ↦ inr (k, (suc n, at'), m)
      ]
    ]

key_matches_iff :
    (authorization key : String)
    → (key_matches authorization key ≡ true) ↔ (strip_prefix "Bearer " authorization ≡ some key)
unfolding key_matches
key_matches_iff authorization key = is_key_iff (strip_prefix "Bearer " authorization)
  where
    is_key_iff : (o : Option String) → (is_key o key ≡ true) ↔ (o ≡ some key)
    is_key_iff none = ground arith
    is_key_iff (some got) = grind (arith, str_eq_iff got key)

-- A key that is none of these does not match.
no_matches :
    (authorization key : String) (ks : List String)
    → key_matches authorization key ≡ true
    → All (λ k. key ≢ k) ks
    → All (λ k. key_matches authorization k ≡ false) ks
no_matches authorization key [] m a = tt
no_matches authorization key (k ∷ ks) m (ne, a) = (
  elim (Bool-cases (key_matches authorization k)) [
    | inr miss ↦ miss
    | inl hit ↦ absurd (
        ne (
          some-injective _ _ (
            sym ((key_matches_iff authorization key).0 m)
            ∙ (key_matches_iff authorization k).0 hit)))
  ],
  no_matches authorization key ks m a,
)

pair_of :
    {i j k l : String}
    → ◌≡◌ {A = Option (String × String)} (some (i, k)) (some (j, l))
    → (i ≡ j) × (k ≡ l)
pair_of e = ground arith

only_match :
    (authorization id j key : String) (hosts : List (String × String)) (n : ℕ)
    → IsDistinct (keys hosts)
    → get_elem? hosts n ≡ some (j, key)
    → key_matches authorization key ≡ true
    → last_match authorization id hosts ≡ j
only_match authorization id j key [] n d e m = absurd (ground arith)
only_match authorization id j key ((i, k) ∷ hosts) zero (ne, d) e m =
    let (same, key_same) = pair_of e in
    let hit : key_matches authorization k ≡ true = rw key_same m in
    rw (hit, same) (no_match authorization j hosts (no_matches authorization k (keys hosts) hit ne))
only_match authorization id j key ((i, k) ∷ hosts) (suc n) (ne, d) e m =
    only_match authorization (if key_matches authorization k then i else id) j key hosts n d e m

abbrev pub Holds : Request → String → Type 0
Holds r key = (secure r ≡ true) × (strip_prefix "Bearer " r.authorization ≡ some key)

authorize_iff : (k : Keys) (r : Request) → (authorize k r ≡ allowed "") ↔ Holds r k.buyer
unfolding authorize
authorize_iff k r = ground (arith, key_matches_iff r.authorization k.buyer)

connect_as-allowed :
    (k : Keys) (r : Request) (id : String)
    → connect_as k r ≡ allowed id
    → (secure r ≡ true) × (host_of_key r.authorization k.hosts ≡ id) × (id ≢ "")
unfolding connect_as
connect_as-allowed k r id h = grind (arith, str_eq_iff (host_of_key r.authorization k.hosts) "")

connects :
    (k : Keys) (r : Request) (id : String)
    → secure r ≡ true
    → host_of_key r.authorization k.hosts ≡ id
    → id ≢ ""
    → connect_as k r ≡ allowed id
unfolding connect_as
connects k r id safe found some_id = ground (arith, str_eq_iff id "")

connect_as_iff :
    (k : Keys) (r : Request) (id : String)
    → AreDistinct k
    → (connect_as k r ≡ allowed id) ↔ ((key : String) × Occurs (id, key) k.hosts × Holds r key)
unfolding host_of_key
connect_as_iff k r id d = (
  λ h.
      let (safe, same, some_id) = connect_as-allowed k r id h in
      elim (found_match r.authorization "" id k.hosts same) [
        | inl no_host ↦ absurd (some_id (sym no_host))
        | inr (key, at, hit) ↦ (key, at, (safe, (key_matches_iff r.authorization key).0 hit))
      ],
  λ h.
      let (key, (n, at), (safe, got)) = h in
      let hit = (key_matches_iff r.authorization key).1 got in
      let found = only_match r.authorization "" id key k.hosts n d.apart.1 at hit in
      let some_id =
        is_identifier_nonempty id (
          All-get_elem? (λ (h : String × String). is_identifier h.0 ≡ true) k.hosts n d.named at) in
      connects k r id safe found some_id,
)

-- If `New` succeeds, then for every request: `connect` accepts it as a host exactly if it comes over TLS
-- or from the loopback and carries the key of that host; `authorize` passes it on exactly if it comes so
-- and carries the key of the buyer; and no request is both.
pub connect_as-Identifies :
    (net : Net) (environment : String → String) (c : Coordinator) (k : Keys)
    → new_coordinator net environment c ≡ some k
    → (r : Request)
    → ((id : String)
        → (connect_as k r ≡ allowed id) ↔ ((key : String) × Occurs (id, key) k.hosts × Holds r key))
      × ((authorize k r ≡ allowed "") ↔ Holds r k.buyer)
      × ((id : String) → connect_as k r ≡ allowed id → authorize k r ≢ allowed "")
connect_as-Identifies net environment c k made r =
    let d = new_coordinator-AreDistinct net environment c k made in
    (
      λ id. connect_as_iff k r id d,
      authorize_iff k r,
      λ id h buys.
          let (key, (n, at), (_, got)) = (connect_as_iff k r id d).0 h in
          let (_, paid) = (authorize_iff k r).0 buys in
          All-get_elem? (λ key. k.buyer ≢ key) (keys k.hosts) n d.apart.0
            (get_elem?-map (λ (h : String × String). h.1) k.hosts n
              ∙ ap (Option.map λ (h : String × String). h.1) at)
            (some-injective _ _ (sym paid ∙ got)),
    )
