-- ===== src/Settings/Form.antt =====
-- Who owns the draft.
use relay_local.Prelude.{◌≡◌, refl, sym, ap, ◌∙◌, none, some, List, [], ◌∷◌, All}
use relay_local.Api.Server.{AgentConfig, answered}
use relay_local.Settings.{Settings, Event, deliver, edit, save, stored, cleared, adopt, handle, run}

-- What is not a change by the user nor an answer to a save; and what is not the form's own doing but
-- typing, with what the poller delivers meanwhile.
abbrev pub IsOutside : Event → Type 0
IsOutside (deliver config) = Unit
IsOutside cleared = Unit
IsOutside save = Unit
IsOutside _ = ⊥

abbrev pub IsTyping : Event → Type 0
IsTyping (edit patch) = Unit
IsTyping (deliver config) = Unit
IsTyping _ = ⊥

handle-draft_kept :
    (e : Event) (s : Settings) (d : AgentConfig)
    → IsOutside e
    → s.draft ≡ some d
    → (handle e s).draft ≡ some d
unfolding handle
handle-draft_kept (deliver config) s d o h = ap (λ draft. adopt draft config) h
handle-draft_kept cleared s d o h = h
handle-draft_kept save s d o h = h
handle-draft_kept (edit patch) s d o h = absurd o
handle-draft_kept (stored r) s d o h = absurd o

-- Once there is a draft, the form owns it: no configuration that the poller delivers, no timer and
-- no click on the save button changes it.
pub run-draft_kept :
    (events : List Event) (s : Settings) (d : AgentConfig)
    → All IsOutside events
    → s.draft ≡ some d
    → (run events s).draft ≡ some d
run-draft_kept [] s d o h = h
run-draft_kept (e ∷ events) s d (o, os) h =
    run-draft_kept events (handle e s) d os (handle-draft_kept e s d o h)

-- The form apart from its draft.
abbrev pub blank : Settings → Settings
blank s = record s { draft = none }

handle-blank : (e : Event) (s : Settings) → IsTyping e → blank (handle e s) ≡ blank s
unfolding handle
handle-blank (edit patch) s t = refl
handle-blank (deliver config) s t = refl
handle-blank cleared s t = absurd t
handle-blank save s t = absurd t
handle-blank (stored r) s t = absurd t

run-blank : (typed : List Event) (s : Settings) → All IsTyping typed → blank (run typed s) ≡ blank s
run-blank [] s t = refl
run-blank (e ∷ typed) s (t, ts) = run-blank typed (handle e s) ts ∙ handle-blank e s t

stored-blank :
    (config : AgentConfig) (s : Settings)
    → handle (stored (answered config)) s ≡ handle (stored (answered config)) (blank s)
unfolding handle
stored-blank config s = refl

-- What is typed between a click on the save button and the answer of the agent leaves no trace: the
-- form is then as if nothing had been typed.
pub typing-is_lost :
    (config : AgentConfig) (typed : List Event) (s : Settings)
    → All IsTyping typed
    → handle (stored (answered config)) (run typed (handle save s))
      ≡ handle (stored (answered config)) (handle save s)
typing-is_lost config typed s t =
    stored-blank config (run typed (handle save s))
    ∙ ap (handle (stored (answered config))) (run-blank typed (handle save s) t)
    ∙ sym (stored-blank config (handle save s))
