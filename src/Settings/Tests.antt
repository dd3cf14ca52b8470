-- ===== src/Settings/Tests.antt =====
-- Each theorem at a concrete input, with numbers written as strokes.
use relay_local.Prelude.{
  ℕ, zero, suc, ◌+◌, ◌≡◌, refl, sym, ap, ◌∙◌, none, some, List, [], ◌∷◌, String, arith,
}
use relay_local.Api.Server.{AgentConfig, BackendConfig, answered}
use relay_local.Settings.{Settings, opened, deliver, edit, save, stored, handle, run, add_proxy}
use relay_local.Settings.Endpoints.{has_id, has_distinct_ids, IsFaithful, IsNumbered}
use relay_local.Settings.Form.{typing-is_lost}

abbrev strokes : String → ℕ → String
strokes s zero = s
strokes s (suc n) = String.◌∷◌ "|" (strokes s n)

abbrev letters : String → ℕ
letters String.[] = 0
letters (String.◌∷◌ c s) = suc (letters s)

letters-strokes : (s : String) (n : ℕ) → letters (strokes s n) ≡ n + letters s
letters-strokes s zero = omega arith
letters-strokes s (suc n) = omega (arith, letters-strokes s n)

strokes-IsFaithful : IsFaithful strokes
strokes-IsFaithful s m n e =
    let same = sym (letters-strokes s m) ∙ ap letters e ∙ letters-strokes s n in omega arith

abbrev config : List BackendConfig → AgentConfig
config backends = record {
  coordinator_url = "wss://relay.example";
  host_id = "box";
  token_env = "RELAY_TOKEN";
  start_timeout_seconds = 30;
  total_timeout_seconds = 600;
  backends = backends;
  prices = none;
  availability = none;
}

no_backends-IsNumbered : IsNumbered strokes (config [])
unfolding has_id has_distinct_ids
no_backends-IsNumbered = record { distinct = refl; below = λ n h. refl }

abbrev open_form : Settings
open_form = handle (deliver (some (config []))) opened

open_form-draft : open_form.draft ≡ some (config [])
unfolding handle opened
open_form-draft = refl

typing-is_lost_example :
    handle
      (stored (answered (config [])))
      (run (edit (add_proxy strokes) ∷ []) (handle save open_form))
    ≡ handle (stored (answered (config []))) (handle save open_form)
typing-is_lost_example =
    typing-is_lost (config []) (edit (add_proxy strokes) ∷ []) open_form (tt, tt)
