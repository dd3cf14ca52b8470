-- ===== src/Protocol/Catalog.antt =====
-- Which catalogues a host may announce: `ValidateCatalog` of protocol/protocol.go against a
-- description of them that does not loop.
use relay_local.Prelude.{
  ◌≤◌, ◌≡◌, ◌≢◌, ◌↔◌, ◌⊎◌, refl, Bool, false, Option, none, some, List, [], ◌∷◌, String, map,
  length, All, if◌then◌else◌, str_eq, str_eq_iff, arith,
}
use relay_local.Prelude.Int.{ℤ, pos, ltb_ℤ, ◌≤ℤ◌}
use relay_local.Protocol.{
  Model, Backend, has_key, any, model_error, backend_error, source_error, or_else, validate_models,
  validate_backends, validate_catalog,
}
use Prim.Native.String.{◌++◌ as append}

-- No text of the list occurs again later in it.
abbrev pub IsDistinct : List String → Type 0
IsDistinct [] = Unit
IsDistinct (k ∷ ks) = All (λ l. k ≢ l) ks × IsDistinct ks

abbrev pub IsModelOf : Backend → Model → Type 0
IsModelOf b m =
    (m.id ≡ append b.id (append "/" m.name)) × (m.name ≢ "") × (b.source ≡ "local" → m.digest ≢ "")

abbrev pub IsServed : Backend → Type 0
IsServed b =
    ((b.kind ≡ "ollama") × (b.source ≡ "local"))
    ⊎ ((b.kind ≡ "cliproxyapi") × (b.source ≡ "provider"))

abbrev pub IsBackend : Backend → Type 0
IsBackend b =
    (b.id ≢ "")
    × (pos 1 ≤ℤ b.capacity)
    × (b.capacity ≤ℤ pos 64)
    × (pos 0 ≤ℤ b.available)
    × (b.available ≤ℤ b.capacity)
    × (length b.models ≤ 1024)
    × IsServed b
    × IsDistinct (map (λ (m : Model). m.id) b.models)
    × All (IsModelOf b) b.models

abbrev pub IsCatalog : List Backend → Type 0
IsCatalog bs = (length bs ≤ 64) × IsDistinct (map (λ (b : Backend). b.id) bs) × All IsBackend bs

-- One line each for the tests of the code.
str_eq-false : (s t : String) → (str_eq s t ≡ false) ↔ (s ≢ t)
str_eq-false s t = grind (arith, str_eq_iff s t)

any-false : (b : Bool) (bs : List Bool) → (any (b ∷ bs) ≡ false) ↔ ((b ≡ false) × (any bs ≡ false))
any-false b bs = ground arith

source_error-false : (b : Backend) → (source_error b ≡ false) ↔ IsServed b
unfolding source_error
source_error-false b = grind (
  arith,
  str_eq_iff b.kind "ollama",
  str_eq_iff b.source "local",
  str_eq_iff b.kind "cliproxyapi",
  str_eq_iff b.source "provider",
)

-- The keys that are still free, one after the other, in a map that has some keys.
unfoldable pub IsNew : List String → List String → Type 0
IsNew seen ks = All (λ k. has_key seen k ≡ false) ks × IsDistinct ks

All-has_key-cons :
    (seen : List String) (k : String) (ks : List String)
    → All (λ l. has_key (k ∷ seen) l ≡ false) ks
      ↔ (All (λ l. k ≢ l) ks × All (λ l. has_key seen l ≡ false) ks)
All-has_key-cons seen k [] = ground arith
All-has_key-cons seen k (l ∷ ks) = grind (arith, str_eq_iff k l, All-has_key-cons seen k ks)

pub IsNew-cons :
    (seen : List String) (k : String) (ks : List String)
    → IsNew seen (k ∷ ks) ↔ ((has_key seen k ≡ false) × IsNew (k ∷ seen) ks)
unfolding IsNew
IsNew-cons seen k ks = ground (arith, All-has_key-cons seen k ks)

model_error-false :
    (b : Backend) (seen : List String) (m : Model)
    → (model_error b seen m ≡ false) ↔ ((has_key seen m.id ≡ false) × IsModelOf b m)
unfolding model_error
model_error-false b seen m = grind (
  arith,
  str_eq_iff m.id (append b.id (append "/" m.name)),
  str_eq_iff m.name "",
  str_eq_iff b.source "local",
  str_eq_iff m.digest "",
)

ltb_ℤ-false : (a b : ℤ) → (ltb_ℤ a b ≡ false) ↔ (b ≤ℤ a)
ltb_ℤ-false a b = ground arith

backend_error-false :
    (seen : List String) (b : Backend)
    → (backend_error seen b ≡ false) ↔ (
        (has_key seen b.id ≡ false)
        × (b.id ≢ "")
        × (pos 1 ≤ℤ b.capacity)
        × (b.capacity ≤ℤ pos 64)
        × (pos 0 ≤ℤ b.available)
        × (b.available ≤ℤ b.capacity)
        × (length b.models ≤ 1024))
unfolding backend_error
backend_error-false seen b = grind (
  arith,
  str_eq_iff b.id "",
  ltb_ℤ-false b.capacity (pos 1),
  ltb_ℤ-false (pos 64) b.capacity,
  ltb_ℤ-false b.available (pos 0),
  ltb_ℤ-false b.capacity b.available,
)

-- A statement that returns an error under a condition, before the others.
pub if-none :
    (t : Bool) (e : String) (rest : Option String)
    → ((if t then some e else rest) ≡ none) ↔ ((t ≡ false) × (rest ≡ none))
if-none t e rest = ground arith

pub or_else-none :
    (first rest : Option String) → (or_else first rest ≡ none) ↔ ((first ≡ none) × (rest ≡ none))
or_else-none first rest = ground arith

-- The inner loop accepts the models of a backend whose identities are new and made of its own.
validate_models_iff :
    (b : Backend) (seen : List String) (ms : List Model)
    → (validate_models b seen ms ≡ none)
      ↔ (IsNew seen (map (λ (m : Model). m.id) ms) × All (IsModelOf b) ms)
unfolding validate_models IsNew
validate_models_iff b seen [] = (λ _. ((tt, tt), tt), λ _. refl)
validate_models_iff b seen (m ∷ ms) =
    let test = model_error-false b seen m in
    let rest = validate_models_iff b (m.id ∷ seen) ms in
    let keys = IsNew-cons seen m.id (map (λ (m : Model). m.id) ms) in
    (
      λ h.
          let (t, r) = (if-none _ _ _).0 h in
          let (n, own) = test.0 t in let (ns, owns) = rest.0 r in (keys.1 (n, ns), (own, owns)),
      λ h.
          let (news, (own, owns)) = h in
          let (n, ns) = keys.0 news in (if-none _ _ _).1 (test.1 (n, own), rest.1 (ns, owns)),
    )

-- Every text is new in an empty map.
pub IsNew-nil : (ks : List String) → IsDistinct ks → IsNew [] ks
unfolding IsNew
IsNew-nil [] d = (tt, tt)
IsNew-nil (k ∷ ks) (h, d) = let (free, _) = IsNew-nil ks d in ((refl, free), (h, d))

-- What the code tests of one backend, apart from its key.
backend_iff :
    (seen : List String) (b : Backend)
    → ((backend_error seen b ≡ false)
        × (source_error b ≡ false)
        × (validate_models b [] b.models ≡ none))
      ↔ ((has_key seen b.id ≡ false) × IsBackend b)
unfolding IsNew
backend_iff seen b =
    let test = backend_error-false seen b in
    let served = source_error-false b in
    let inner = validate_models_iff b [] b.models in
    (
      λ h.
          let (t, s, ms) = h in
          let (n, i, c, d, e, f, g) = test.0 t in
          let ((_, ds), own) = inner.0 ms in (n, (i, c, d, e, f, g, served.0 s, ds, own)),
      λ h.
          let (n, own) = h in
          let (i, c, d, e, f, g, s, ds, owns) = own in
          (test.1 (n, i, c, d, e, f, g), served.1 s, inner.1 (IsNew-nil _ ds, owns)),
    )

validate_backends_iff :
    (seen : List String) (bs : List Backend)
    → (validate_backends seen bs ≡ none)
      ↔ (IsNew seen (map (λ (b : Backend). b.id) bs) × All IsBackend bs)
unfolding validate_backends IsNew
validate_backends_iff seen [] = (λ _. ((tt, tt), tt), λ _. refl)
validate_backends_iff seen (b ∷ bs) =
    let one = backend_iff seen b in
    let rest = validate_backends_iff (b.id ∷ seen) bs in
    let keys = IsNew-cons seen b.id (map (λ (b : Backend). b.id) bs) in
    (
      λ h.
          let (t, h') = (if-none _ _ _).0 h in
          let (s, h'') = (if-none _ _ _).0 h' in
          let (ms, r) = (or_else-none _ _).0 h'' in
          let (n, own) = one.0 (t, s, ms) in
          let (ns, owns) = rest.0 r in (keys.1 (n, ns), (own, owns)),
      λ h.
          let (news, (own, owns)) = h in
          let (n, ns) = keys.0 news in
          let (t, s, ms) = one.1 (n, own) in
          (if-none _ _ _).1
            (t, (if-none _ _ _).1 (s, (or_else-none _ _).1 (ms, rest.1 (ns, owns)))),
    )

-- `ValidateCatalog` accepts a catalogue exactly if: it has at most 64 backends, with different ids
-- that are not empty; each has a capacity from 1 to 64 and no more available than that, is an
-- Ollama that is local or a CLIProxyAPI that is a provider, and has at most 1024 models; these have
-- different ids, each made of the backend's id, a slash and a name that is not empty, and those of
-- a local backend have a digest.
pub validate_catalog_iff : (bs : List Backend) → (validate_catalog bs ≡ none) ↔ IsCatalog bs
unfolding validate_catalog IsNew
validate_catalog_iff bs =
    let loop = validate_backends_iff [] bs in
    (
      λ h.
          let (few, h') = (if-none _ _ _).0 h in
          let ((_, ids), own) = loop.0 h' in (ground arith, ids, own),
      λ h.
          let (few, ids, own) = h in
          (if-none _ _ _).1 (ground arith, loop.1 (IsNew-nil _ ids, own)),
    )
