-- ===== src/Finance/Saving/Notice.antt =====
-- That the notice of a saved price goes away again.
use relay_local.Prelude.{
  ◌≡◌, refl, subst, Bool, true, false, ◌||◌, List, [], ◌∷◌, ◌++◌, String, if-either, str_eq,
  str_eq_iff, arith,
}
use relay_local.Api.{Prices}
use relay_local.Api.Server.{Result, answered, failed}
use relay_local.Finance.Saving.{
  Saving, Event, save, answer, timeout, answer_with, timeout_of, handle, opened, run,
}

-- That a timer was set for a model.
abbrev pub is_timed : List String → String → Bool
is_timed [] model = false
is_timed (t ∷ ts) model = str_eq model t || is_timed ts model

is_timed-append : (ts : List String) (model : String) → is_timed (ts ++ (model ∷ [])) model ≡ true
is_timed-append [] model = grind (arith, str_eq_iff model model)
is_timed-append (t ∷ ts) model = ground (arith, is_timed-append ts model)

-- There is no notice, or a timer that will end it.
abbrev pub Ends : Saving → Type 0
Ends s = (str_eq s.saved_model "" || is_timed s.timers s.saved_model) ≡ true

answer_with-Ends :
    (model : String) (r : Result Prices) (s : Saving) → Ends s → Ends (answer_with model r s)
unfolding answer_with
answer_with-Ends model (answered prices) s v = ground (arith, is_timed-append s.timers model)
answer_with-Ends model (failed e) s v = v

timeout_of-Ends : (ts : List String) (s : Saving) → s.timers ≡ ts → Ends s → Ends (timeout_of ts s)
unfolding timeout_of
timeout_of-Ends [] s e v = v
timeout_of-Ends (t ∷ ts) s e v =
    let timed = subst (λ ts. (str_eq s.saved_model "" || is_timed ts s.saved_model) ≡ true) e v in
    if-either (λ m. (str_eq m "" || is_timed ts m) ≡ true) (str_eq s.saved_model t) "" s.saved_model
      (λ _. refl) (λ other. ground arith)

handle-Ends : (e : Event) (s : Saving) → Ends s → Ends (handle e s)
unfolding handle
handle-Ends (save model draft) s v = v
handle-Ends (answer model r) s v = answer_with-Ends model r s v
handle-Ends timeout s v = timeout_of-Ends s.timers s refl v

run-Ends : (es : List Event) (s : Saving) → Ends s → Ends (run es s)
unfolding run
run-Ends [] s v = v
run-Ends (e ∷ es) s v = run-Ends es (handle e s) (handle-Ends e s v)

-- After any clicks, answers and timeouts there is no notice of a saved price, or a timer is set that
-- will end it.
pub opened-Ends : (es : List Event) → Ends (run es opened)
unfolding opened
opened-Ends es = run-Ends es opened refl
