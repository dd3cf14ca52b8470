-- ===== src/Discovery/Offered.antt =====
-- The backend that `discover` of internal/backend/backend.go announces for a checked configuration is
-- one that the coordinator accepts.
use relay_local.Prelude.{
  ℕ, ◌≡◌, refl, inl, inr, Bool, true, false, Option, none, some, List, [], String, length,
  length-map, All-imp, All-map, if◌then◌else◌, ltb, ◌==◌, str_eq, str_eq_iff, Bool-cases, arith,
}
use relay_local.Prelude.Int.{ℤ, pos, ◌≤ℤ◌}
use relay_local.Protocol.{Model, Backend, has_key, max_request_bytes}
use relay_local.Protocol.Catalog.{IsServed, IsBackend, IsNew}
use relay_local.Config
use relay_local.Config.Accepted
use relay_local.Discovery.{
  OllamaModel, Listings, Reply, unreachable, replied, advertised, ollama_models, proxy_models,
  with_models, from_ollama, from_proxy, from_body, discover,
}
use relay_local.Discovery.Listed.{
  names, AreOf, length-le-keys, ollama_models-AreOf, proxy_models-AreOf, name_of_key,
  ids-IsDistinct,
}

-- A backend that belongs to a configured one and may be announced with any room that it has.
pub record IsAnnounced (c : Config.Backend) (b : Backend) : Type 0 where
  pub identity : b.id ≡ c.id
  pub room : b.capacity ≡ c.concurrency
  pub accepted : (n : ℤ) → pos 0 ≤ℤ n → n ≤ℤ c.concurrency → IsBackend (record b { available = n })

served :
    (net : Config.Urls.Net) (c : Config.Backend) (ms : List Model) (n : ℤ)
    → Config.Accepted.IsBackend net c
    → IsServed (record (with_models c ms) { available = n })
unfolding advertised
served net c ms n (_, inl e, _, _, _, _, _, _, _, _) =
    inl (e, ground (arith, str_eq_iff c.kind "ollama"))
served net c ms n (_, inr e, _, _, _, _, _, _, _, _) =
    inr (e, ground (arith, str_eq_iff c.kind "ollama", str_eq_iff "cliproxyapi" "ollama"))

source_of : Bool → String
source_of t = if t then "local" else "provider"

source-local : (t : Bool) → source_of t ≡ "local" → t ≡ true
unfolding source_of
source-local true e = refl
source-local false e = ground (arith, str_eq_iff "provider" "local")

with_models-IsAnnounced :
    (net : Config.Urls.Net) (c : Config.Backend) (digests : Bool) (ms : List Model)
    → Config.Accepted.IsBackend net c
    → (str_eq c.kind "ollama" ≡ true → digests ≡ true)
    → AreOf c digests [] ms
    → IsAnnounced c (with_models c ms)
unfolding advertised IsNew source_of
with_models-IsAnnounced net c digests ms valid local (new, own) =
    let (id, _, _, _, _, low, high, few, _, allowed) = valid in
    let keys =
      All-map (λ k. has_key c.models k ≡ true) (λ (m : Model). m.name) ms
        (All-imp (λ (m : Model). has_key c.models m.name ≡ true) (λ m o. o.1) ms own) in
    let count = length-le-keys (names ms) c.models new.1 keys in
    record {
      identity = refl;
      room = refl;
      accepted = λ n h k. (
        Config.Urls.is_identifier_nonempty c.id id,
        low,
        high,
        h,
        k,
        omega (arith, length-map (λ (m : Model). m.name) ms),
        served net c ms n valid,
        ids-IsDistinct c digests ms new.1 own,
        All-imp _
            (λ m o.
              (o.0, name_of_key c.models m.name allowed o.1, λ e. o.2 (local (source-local _ e))))
            ms own,
      );
    }

-- With each way the function returns.
abbrev Announces : Config.Backend → Backend × Option String → Type 0
Announces c r = IsAnnounced c r.0

advertised-IsAnnounced :
    (net : Config.Urls.Net) (c : Config.Backend)
    → Config.Accepted.IsBackend net c
    → IsAnnounced c (advertised c)
unfolding advertised IsNew
advertised-IsAnnounced net c valid =
    with_models-IsAnnounced net c true [] valid (λ _. refl) ((tt, tt), tt)

from_ollama-Announces :
    (net : Config.Urls.Net) (c : Config.Backend) (o : Option (List OllamaModel))
    → Config.Accepted.IsBackend net c
    → Announces c (from_ollama c false o)
unfolding from_ollama
from_ollama-Announces net c none valid = advertised-IsAnnounced net c valid
from_ollama-Announces net c (some ms) valid =
    with_models-IsAnnounced net c true (ollama_models c false [] ms) valid (λ _. refl)
      (ollama_models-AreOf c [] ms)

from_proxy-Announces :
    (net : Config.Urls.Net) (c : Config.Backend) (o : Option (List String))
    → str_eq c.kind "ollama" ≡ false
    → Config.Accepted.IsBackend net c
    → Announces c (from_proxy c false o)
unfolding from_proxy
from_proxy-Announces net c none remote valid = advertised-IsAnnounced net c valid
from_proxy-Announces net c (some ids) remote valid =
    with_models-IsAnnounced net c false (proxy_models c false [] ids) valid (λ e. ground arith)
      (proxy_models-AreOf c [] ids)

from_body-Announces :
    (json : Listings) (net : Config.Urls.Net) (c : Config.Backend) (body : Option (List ℕ))
    → Config.Accepted.IsBackend net c
    → Announces c (from_body json c false body)
unfolding from_body
from_body-Announces json net c none valid = advertised-IsAnnounced net c valid
from_body-Announces json net c (some bytes) valid =
    elim (Bool-cases (ltb max_request_bytes (length bytes))) [
      | inl long ↦ rw long (advertised-IsAnnounced net c valid)
      | inr short ↦ rw short (elim (Bool-cases (str_eq c.kind "ollama")) [
        | inl local ↦ rw local (from_ollama-Announces net c (json.ollama bytes) valid)
        | inr remote ↦ rw remote (from_proxy-Announces net c (json.proxy bytes) remote valid)
      ])
    ]

pub discover-IsAnnounced :
    (json : Listings) (net : Config.Urls.Net) (c : Config.Backend) (reply : Reply)
    → Config.Accepted.IsBackend net c
    → IsAnnounced c (discover json c false reply).0
unfolding discover
discover-IsAnnounced json net c (unreachable e) valid = advertised-IsAnnounced net c valid
discover-IsAnnounced json net c (replied status body) valid = elim (Bool-cases (status == 200)) [
  | inl good ↦ rw good (from_body-Announces json net c body valid)
  | inr bad ↦ rw bad (advertised-IsAnnounced net c valid)
]
