-- ===== src/App/Refusal.antt =====
-- A refresh that the agent refuses is seen on the page.
use Prim.Native.String
use Prim.Native.Char.{Char}
use text.Mathlib.TextLemmas.{cons-append}
use relay_local.Prelude.{
  ℕ, ◌≡◌, refl, sym, ap, subst, ◌∙◌, Bool, true, false, not, ◌||◌, none, some, String, is_some,
  str_eq, str_eq_iff, cons≢nil, if◌then◌else◌, Bool-cases, inl, inr, arith,
}
use relay_local.Api.Server.{
  Result, Thrown, answered, failed, error, other, error_message, auth_required_message,
}
use relay_local.Api.Names.Titles.{text_or_nonempty}
use relay_local.Api.Request.{Response, responded, refusal_text, api}
use relay_local.App.{App, settle, alert}

cons_nonempty : (c : Char) (s : String) → str_eq (String.◌∷◌ c s) "" ≡ false
cons_nonempty c s =
    ground (arith, str_eq_iff (String.◌∷◌ c s) "", λ (e : String.◌∷◌ c s ≡ ""). cons≢nil e)

refusal_text_nonempty :
    {A : Type 0} (digits : ℕ → String) (r : Response A) → str_eq (refusal_text digits r) "" ≡ false
refusal_text_nonempty digits r =
    let number = String.◌++◌ (digits r.status) ")" in
    text_or_nonempty r.error_field (String.◌++◌ "Request failed (" number) (
      ap (λ t. str_eq t "") (cons-append "R" "equest failed (" number)
      ∙ cons_nonempty "R" (String.◌++◌ "equest failed (" number))

or_true : (b : Bool) → (b || true) ≡ true
or_true b = ground arith

-- An alert unless the gate is there, or the gate.
either :
    {A : Type 0} (a : A) (gate : Bool)
    → (is_some (if not gate then some a else none) || gate) ≡ true
either a true = refl
either a false = refl

settle-shows :
    (message : String) (now : ℕ) (s : App)
    → str_eq message "" ≡ false
    → let s' = settle (failed (error message)) now s in
      (is_some (alert s') || s'.auth_required) ≡ true
unfolding settle alert error_message
settle-shows message now s h = elim (Bool-cases (str_eq message auth_required_message)) [
  | inl gate ↦ rw gate (or_true _)
  | inr no_gate ↦ rw (no_gate, h) (either message s.auth_required)
]

abbrev thrown_of : {A : Type 0} → Result A → Thrown
thrown_of (answered a) = other
thrown_of (failed t) = t

-- If the first of its requests that fails came back with a status that is not a success, whatever
-- its body, the refresh leaves an alert on the page or the gate that asks for a token.
pub refused-refresh_shows :
    {B : Type 0} (digits : ℕ → String) (r : Response B) (t : Thrown) (now : ℕ) (s : App)
    → r.ok ≡ false
    → api digits (responded r) ≡ failed t
    → let s' = settle (failed t) now s in (is_some (alert s') || s'.auth_required) ≡ true
unfolding api
refused-refresh_shows digits r t now s h e =
    let refused : api digits (responded r) ≡ failed (error (refusal_text digits r)) = rw h refl in
    let same : error (refusal_text digits r) ≡ t = ap thrown_of (sym refused ∙ e) in
    subst (λ t. let s' = settle (failed t) now s in (is_some (alert s') || s'.auth_required) ≡ true)
      same (settle-shows (refusal_text digits r) now s (refusal_text_nonempty digits r))
