-- ===== src/App/Busy.antt =====
-- The buttons of the agent while an action is under way, and what the page shows while it asks for
-- a token.
use relay_local.Prelude.{
  ℕ, ◌+◌, ◌-◌, ◌<◌, ◌≡◌, refl, Bool, true, false, ◌&&◌, none, List, if◌then◌else◌, ltb→lt, arith,
}
use relay_local.Api.Server.{Thrown, answered, failed}
use relay_local.App.{
  App, Event, poll, select, dismiss, report, enter, press, linked, opened, acted, refreshed, ended,
  Action, pause, resume, stop, start, settle, handle, can, is_enabled, Run, begin, next, alert,
  refused_token,
}

-- The actions that wait for their request or for the refresh after it.
abbrev pub under_way : App → ℕ
under_way s = s.waiting.acting + s.waiting.ending

abbrev pub IsAccounted : App → Type 0
IsAccounted s = under_way s ≡ (if s.busy then 1 else 0)

idle-is_enabled : (a : Action) (s : App) → is_enabled a s ≡ true → s.busy ≡ false
unfolding is_enabled
idle-is_enabled pause s h = ground arith
idle-is_enabled resume s h = ground arith
idle-is_enabled stop s h = ground arith

last-under_way :
    (s : App) → IsAccounted s → 0 < s.waiting.ending → s.waiting.acting + (s.waiting.ending - 1) ≡ 0
last-under_way s h k = ground arith

busy-under_way : (s : App) → IsAccounted s → 0 < under_way s → (under_way s ≡ 1) × (s.busy ≡ true)
busy-under_way s h k = ground arith

handle-IsAccounted :
    (e : Event) (s : App) → can e s ≡ true → IsAccounted s → IsAccounted (handle e s)
unfolding handle can settle
handle-IsAccounted poll s c h = h
handle-IsAccounted (select t) s c h = h
handle-IsAccounted dismiss s c h = h
handle-IsAccounted (report m) s c h = h
handle-IsAccounted (enter t) s c h = h
handle-IsAccounted (press a) s c h = ground (arith, idle-is_enabled a s c)
handle-IsAccounted (linked (answered _)) s c h = h
handle-IsAccounted (linked (failed _)) s c h = h
handle-IsAccounted (opened (answered _)) s c h = h
handle-IsAccounted (opened (failed _)) s c h = h
handle-IsAccounted (acted (answered _)) s c h = ground (arith, ltb→lt 0 s.waiting.acting c)
handle-IsAccounted (acted (failed _)) s c h = omega (
  arith,
  busy-under_way s h (omega (arith, ltb→lt 0 s.waiting.acting c)),
  ltb→lt 0 s.waiting.acting c,
)
handle-IsAccounted (refreshed (answered a) now) s c h = h
handle-IsAccounted (refreshed (failed t) now) s c h = h
handle-IsAccounted (ended (answered a) now) s c h = last-under_way s h (ltb→lt 0 s.waiting.ending c)
handle-IsAccounted (ended (failed t) now) s c h = last-under_way s h (ltb→lt 0 s.waiting.ending c)

Run-IsAccounted : {token : Bool} {es : List Event} {s : App} → Run token es s → IsAccounted s
unfolding start
Run-IsAccounted begin = refl
Run-IsAccounted (next {s} e r c) = handle-IsAccounted e s c (Run-IsAccounted r)

busy-disables : (a : Action) (s : App) → (s.busy && is_enabled a s) ≡ false
unfolding is_enabled
busy-disables pause s = ground arith
busy-disables resume s = ground arith
busy-disables stop s = ground arith

-- On every run, the page is busy exactly while one action waits for its request or for the refresh
-- after it, and never do two; all buttons of the agent are disabled meanwhile.
pub Run-busy :
    {token : Bool} {es : List Event} {s : App} (a : Action)
    → Run token es s
    → (under_way s ≡ (if s.busy then 1 else 0)) × ((s.busy && is_enabled a s) ≡ false)
Run-busy {s} a r = (Run-IsAccounted r, busy-disables a s)

-- While the page asks for a token, a token that the agent refuses leaves it as it is: the text of
-- the refusal is kept in the state, but no alert is shown, and the page still asks for a token.
pub refused-is_hidden :
    (t : Thrown) (s : App)
    → s.auth_required ≡ true
    → let s' = handle (opened (failed t)) s in
      (s'.error ≡ refused_token) × (alert s' ≡ none) × (alert s ≡ none) × (s'.auth_required ≡ true)
unfolding handle alert
refused-is_hidden t s h = ground arith
