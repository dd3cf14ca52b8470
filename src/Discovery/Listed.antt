-- ===== src/Discovery/Listed.antt =====
-- The models that the two loops of `discover` (internal/backend/backend.go) take.
use relay_local.Prelude.{
  suc, ◌≤◌, ◌≡◌, ◌≢◌, refl, ◌∙◌, sym, inl, inr, Bool, true, false, List, [], ◌∷◌, String, map,
  length, All, All-both, if◌then◌else◌, str_eq, str_eq_iff, Bool-cases, arith,
}
use relay_local.Protocol.{Model, has_key}
use relay_local.Protocol.Catalog.{IsDistinct, IsNew, IsNew-cons}
use relay_local.Config
use relay_local.Config.Accepted
use relay_local.Discovery.{OllamaModel, takes_ollama, takes_proxy, ollama_models, proxy_models}
use Prim.Native.String.{◌++◌ as append}
use text.Mathlib.TextLemmas.{append_cancel_left}

-- Distinct keys of a map are no more than the map has.
remove : String → List String → List String
remove k [] = []
remove k (l ∷ ls) = let rest = remove k ls in if str_eq l k then ls else l ∷ rest

length-remove :
    (k : String) (ls : List String) → has_key ls k ≡ true → suc (length (remove k ls)) ≡ length ls
unfolding remove
length-remove k [] h = ground arith
length-remove k (l ∷ ls) h = ground (arith, length-remove k ls)

has_key-remove :
    (k j : String) (ls : List String) → k ≢ j → has_key ls j ≡ true → has_key (remove k ls) j ≡ true
unfolding remove
has_key-remove k j [] ne h = h
has_key-remove k j (l ∷ ls) ne h =
    grind (arith, str_eq_iff l k, str_eq_iff l j, has_key-remove k j ls ne)

pub length-le-keys :
    (ks ls : List String)
    → IsDistinct ks
    → All (λ k. has_key ls k ≡ true) ks
    → length ks ≤ length ls
length-le-keys [] ls d h = omega arith
length-le-keys (k ∷ ks) ls (new, d) (first, rest) = omega (
  arith,
  length-remove k ls first,
  length-le-keys ks (remove k ls) d (
      All-both (λ j. has_key (remove k ls) j ≡ true) (λ j ne h. has_key-remove k j ls ne h) ks new
        rest),
)

abbrev pub names : List Model → List String
names = map λ (m : Model). m.name

-- A model of the list that the loops take, where `digests` says whether each has a digest.
abbrev pub IsOf : Config.Backend → Bool → Model → Type 0
IsOf c digests m =
    (m.id ≡ append c.id (append "/" m.name))
    × (has_key c.models m.name ≡ true)
    × (digests ≡ true → m.digest ≢ "")

abbrev pub AreOf : Config.Backend → Bool → List String → List Model → Type 0
AreOf c digests seen ms = IsNew seen (names ms) × All (IsOf c digests) ms

takes_ollama-true :
    (c : Config.Backend) (seen : List String) (m : OllamaModel)
    → takes_ollama c false seen m ≡ true
    → (has_key c.models m.name ≡ true) × (has_key seen m.name ≡ false) × (m.digest ≢ "")
unfolding takes_ollama
takes_ollama-true c seen m h = grind (arith, str_eq_iff m.digest "")

takes_proxy-true :
    (c : Config.Backend) (seen : List String) (id : String)
    → takes_proxy c false seen id ≡ true
    → (has_key c.models id ≡ true) × (has_key seen id ≡ false)
unfolding takes_proxy
takes_proxy-true c seen id h = ground arith

pub ollama_models-AreOf :
    (c : Config.Backend) (seen : List String) (ms : List OllamaModel)
    → AreOf c true seen (ollama_models c false seen ms)
unfolding ollama_models IsNew
ollama_models-AreOf c seen [] = ((tt, tt), tt)
ollama_models-AreOf c seen (m ∷ ms) = elim (Bool-cases (takes_ollama c false seen m)) [
  | inl kept ↦
      let (allowed, new, digest) = takes_ollama-true c seen m kept in
      let (news, own) = ollama_models-AreOf c (m.name ∷ seen) ms in
      let keys = IsNew-cons seen m.name (names (ollama_models c false (m.name ∷ seen) ms)) in
      rw kept (keys.1 (new, news), ((refl, allowed, λ _. digest), own))
  | inr skipped ↦ rw skipped (ollama_models-AreOf c seen ms)
]

pub proxy_models-AreOf :
    (c : Config.Backend) (seen ids : List String)
    → AreOf c false seen (proxy_models c false seen ids)
unfolding proxy_models IsNew
proxy_models-AreOf c seen [] = ((tt, tt), tt)
proxy_models-AreOf c seen (id ∷ ids) = elim (Bool-cases (takes_proxy c false seen id)) [
  | inl kept ↦
      let (allowed, new) = takes_proxy-true c seen id kept in
      let (news, own) = proxy_models-AreOf c (id ∷ seen) ids in
      let keys = IsNew-cons seen id (names (proxy_models c false (id ∷ seen) ids)) in
      rw kept (keys.1 (new, news), ((refl, allowed, λ e. ground arith), own))
  | inr skipped ↦ rw skipped (proxy_models-AreOf c seen ids)
]

-- Names are on the list of those that are offered, which has no empty one.
pub name_of_key :
    (ls : List String) (k : String) → All Config.Accepted.IsName ls → has_key ls k ≡ true → k ≢ ""
name_of_key [] k own h = ground arith
name_of_key (l ∷ ls) k (own, owns) h = grind (arith, str_eq_iff l k, name_of_key ls k owns, own.0)

-- Different names make different identities.
pub ids-IsDistinct :
    (c : Config.Backend) (digests : Bool) (ms : List Model)
    → IsDistinct (names ms)
    → All (IsOf c digests) ms
    → IsDistinct (map (λ (m : Model). m.id) ms)
ids-IsDistinct c digests [] d own = tt
ids-IsDistinct c digests (m ∷ ms) (new, d) (own, owns) =
    (other_ids ms new owns, ids-IsDistinct c digests ms d owns)
  where
    other_ids :
        (ns : List Model)
        → All (λ k. m.name ≢ k) (names ns)
        → All (IsOf c digests) ns
        → All (λ k. m.id ≢ k) (map (λ (n : Model). n.id) ns)
    other_ids [] new owns = tt
    other_ids (n ∷ ns) (ne, new) (own', owns) = (
      λ e. ne (
          append_cancel_left "/" m.name n.name (
            append_cancel_left c.id (append "/" m.name) (append "/" n.name)
              (sym own.0 ∙ (e ∙ own'.0)))),
      other_ids ns new owns,
    )
