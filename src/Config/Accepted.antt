-- ===== src/Config/Accepted.antt =====
-- What `Agent.Validate` of internal/config/config.go accepts: a description of the configurations that
-- it leaves when it returns no error.
use relay_local.Prelude.{
  ◌≤◌, ◌≡◌, ◌≢◌, ◌↔◌, ◌⊎◌, refl, ap, suc, Bool, true, false, Option, none, some, List, [], ◌∷◌,
  String, map, length, All, str_eq_iff, arith,
}
use relay_local.Prelude.Int.{ℤ, pos, ◌≤ℤ◌}
use relay_local.Protocol.{has_key}
use relay_local.Protocol.Catalog.{IsDistinct, IsNew, IsNew-cons, IsNew-nil, or_else-none}
use relay_local.Config.Urls.{Net, is_identifier, has_break, trim_right, trim_right_idem}
use relay_local.Config.{
  Backend, Agent, fail_if, agent_error, is_root, backend_error, settled, default_to, name_error,
  names_error, settled_error, settle, validate_backend, after_pass, validate_backends, total_of,
}
use Prim.Native.String.{len}

-- The name of a model on the list of those that are offered.
abbrev pub IsName : String → Type 0
IsName m = (m ≢ "") × (len m ≤ 256) × (has_break m ≡ false)

abbrev pub IsBackend : Net → Backend → Type 0
IsBackend net b =
    (is_identifier b.id ≡ true)
    × ((b.kind ≡ "ollama") ⊎ (b.kind ≡ "cliproxyapi"))
    × ((b.key_env ≡ "") ⊎ (is_identifier b.key_env ≡ true))
    × (is_root (net.parse b.url) ≡ true)
    × (trim_right b.url ≡ b.url)
    × (pos 1 ≤ℤ b.concurrency)
    × (b.concurrency ≤ℤ pos 64)
    × (length b.models ≤ 1024)
    × IsDistinct b.models
    × All IsName b.models

abbrev pub IsConfig : Net → Agent → Type 0
IsConfig net c =
    (agent_error net c ≡ none)
    × (pos 1 ≤ℤ c.start_timeout_seconds)
    × (c.start_timeout_seconds ≤ℤ c.total_timeout_seconds)
    × (c.total_timeout_seconds ≤ℤ pos 86400)
    × (1 ≤ length c.backends)
    × (length c.backends ≤ 64)
    × IsDistinct (map (λ (b : Backend). b.id) c.backends)
    × All (IsBackend net) c.backends
    × (total_of c.backends ≤ℤ pos 64)

-- What the code relies on: a URL of nothing but a scheme and a host stays one without its slashes.
abbrev pub TrimsRoots : Net → Type 0
TrimsRoots net =
    (s : String) → is_root (net.parse s) ≡ true → is_root (net.parse (trim_right s)) ≡ true

pub fail_if-none : (t : Bool) (e : String) → (fail_if t e ≡ none) ↔ (t ≡ false)
fail_if-none t e = ground arith

name_error-false :
    (seen : List String) (m : String)
    → (name_error seen m ≡ false) ↔ ((has_key seen m ≡ false) × IsName m)
name_error-false seen m = grind (arith, str_eq_iff m "")

names_error_iff :
    (seen ms : List String) → (names_error seen ms ≡ none) ↔ (IsNew seen ms × All IsName ms)
unfolding names_error IsNew
names_error_iff seen [] = (λ _. ((tt, tt), tt), λ _. refl)
names_error_iff seen (m ∷ ms) =
    let test = name_error-false seen m in
    let rest = names_error_iff (m ∷ seen) ms in
    let keys = IsNew-cons seen m ms in
    (
      λ h.
          let (t, r) = (or_else-none _ _).0 h in
          let (n, own) = test.0 ((fail_if-none _ _).0 t) in
          let (ns, owns) = rest.0 r in (keys.1 (n, ns), (own, owns)),
      λ h.
          let (news, (own, owns)) = h in
          let (n, ns) = keys.0 news in
          (or_else-none _ _).1 ((fail_if-none _ _).1 (test.1 (n, own)), rest.1 (ns, owns)),
    )

abbrev IsNamed : Net → Backend → Type 0
IsNamed net b =
    (is_identifier b.id ≡ true)
    × ((b.kind ≡ "ollama") ⊎ (b.kind ≡ "cliproxyapi"))
    × ((b.key_env ≡ "") ⊎ (is_identifier b.key_env ≡ true))
    × (is_root (net.parse b.url) ≡ true)

abbrev IsSettled : Backend → Type 0
IsSettled b =
    (pos 1 ≤ℤ b.concurrency)
    × (b.concurrency ≤ℤ pos 64)
    × (length b.models ≤ 1024)
    × IsDistinct b.models
    × All IsName b.models

backend_error-none :
    (net : Net) (seen : List String) (b : Backend)
    → (backend_error net seen b ≡ none) ↔ ((has_key seen b.id ≡ false) × IsNamed net b)
unfolding backend_error
backend_error-none net seen b =
    grind
      (arith, str_eq_iff b.kind "ollama", str_eq_iff b.kind "cliproxyapi", str_eq_iff b.key_env "")

IsNew-IsDistinct : (ks : List String) → IsDistinct ks ↔ IsNew [] ks
unfolding IsNew
IsNew-IsDistinct ks = (IsNew-nil ks, λ h. h.1)

settled_error-none : (b : Backend) → (settled_error b ≡ none) ↔ IsSettled b
unfolding settled_error
settled_error-none b =
    let names = names_error_iff [] b.models in
    let keys = IsNew-IsDistinct b.models in
    (
      λ h.
          let (range, h') = (or_else-none _ _).0 h in
          let (few, h'') = (or_else-none _ _).0 h' in
          let (new, own) = names.0 h'' in
          let in_range = (fail_if-none _ _).0 range in
          let not_many = (fail_if-none _ _).0 few in
          (ground arith, ground arith, ground arith, keys.1 new, own),
      λ h.
          let (low, high, few, ids, own) = h in
          (or_else-none _ _).1
            (ground arith, (or_else-none _ _).1 (ground arith, names.1 (keys.0 ids, own))),
    )

-- The result of one pass and of the loop, taken apart.
settle-none :
    (b : Backend) (o : Option String)
    → (settle b o).1 ≡ none
    → (o ≡ none) × ((settle b o).0 ≡ settled b) × (settled_error (settled b) ≡ none)
settle-none b (some e) h = ground arith
settle-none b none h = (refl, refl, h)

after_pass-none :
    (bs : List Backend) (p : Backend × Option String) (rest : List Backend × Option String)
    → (after_pass bs p rest).1 ≡ none
    → (p.1 ≡ none) × (rest.1 ≡ none) × ((after_pass bs p rest).0 ≡ p.0 ∷ rest.0)
after_pass-none bs (b, some e) rest h = ground arith
after_pass-none bs (b, none) (bs', e) h = (refl, h, refl)

IsBackend-settled :
    (net : Net) (b : Backend)
    → TrimsRoots net
    → IsNamed net b
    → IsSettled (settled b)
    → IsBackend net (settled b)
IsBackend-settled net b trims (i, k, e, u) (low, high, few, ids, own) =
    (i, k, e, trims b.url u, trim_right_idem b.url, low, high, few, ids, own)

pub validate_backend-none :
    (net : Net) (seen : List String) (b : Backend)
    → TrimsRoots net
    → (validate_backend net seen b).1 ≡ none
    → (has_key seen b.id ≡ false)
      × ((validate_backend net seen b).0 ≡ settled b)
      × IsBackend net (settled b)
unfolding validate_backend
validate_backend-none net seen b trims h =
    let (first, same, last) = settle-none b (backend_error net seen b) h in
    let (new, named) = (backend_error-none net seen b).0 first in
    (new, same, IsBackend-settled net b trims named ((settled_error-none (settled b)).0 last))

abbrev pub AreAccepted : Net → List String → List Backend → List Backend → Type 0
AreAccepted net seen bs r =
    IsNew seen (map (λ (b : Backend). b.id) r) × All (IsBackend net) r × (length r ≡ length bs)

pub validate_backends-none :
    (net : Net) (seen : List String) (bs : List Backend)
    → TrimsRoots net
    → (validate_backends net seen bs).1 ≡ none
    → AreAccepted net seen bs (validate_backends net seen bs).0
unfolding validate_backends IsNew
validate_backends-none net seen [] trims h = ((tt, tt), tt, refl)
validate_backends-none net seen (b ∷ bs) trims h =
    let rest = validate_backends net (b.id ∷ seen) bs in
    let (one, more, result) = after_pass-none bs (validate_backend net seen b) rest h in
    let (new, same, own) = validate_backend-none net seen b trims one in
    let (news, owns, count) = validate_backends-none net (b.id ∷ seen) bs trims more in
    let keys = IsNew-cons seen b.id (map (λ (b : Backend). b.id) rest.0) in
    rw (result, same) (keys.1 (new, news), (own, owns), ap suc count)

-- Conversely: one pass leaves a backend of this form as it is.
pub default_to-pos : (default n : ℤ) → pos 1 ≤ℤ n → default_to default n ≡ n
default_to-pos default n h = ground arith

pub settled_lem : (net : Net) (b : Backend) → IsBackend net b → settled b ≡ b
settled_lem net b (_, _, _, _, trimmed, low, _, _, _, _) =
    rw (trimmed, default_to-pos (pos 1) b.concurrency low) refl

pub validate_backend_valid :
    (net : Net) (seen : List String) (b : Backend)
    → has_key seen b.id ≡ false
    → IsBackend net b
    → validate_backend net seen b ≡ (b, none)
unfolding validate_backend
validate_backend_valid net seen b new own =
    let (i, k, e, u, trimmed, low, high, few, ids, names) = own in
    let first = (backend_error-none net seen b).1 (new, (i, k, e, u)) in
    let last = (settled_error-none b).1 (low, high, few, ids, names) in
    rw (first, settled_lem net b own, last) refl
