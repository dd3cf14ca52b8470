-- ===== src/App/Trace.antt =====
-- What the page knows, told from what has happened: the data of the latest answer, and whether the
-- page asks for a token.
use relay_local.Prelude.{
  ℕ, ◌≡◌, refl, Bool, true, false, Option, none, some, List, [], ◌∷◌, if◌then◌else◌, str_eq,
}
use relay_local.Api.Server.{Result, answered, failed, error_message, auth_required_message}
use relay_local.App.{
  Data, Answer, App, empty_data, data_of, Event, poll, select, dismiss, report, enter, press,
  linked, opened, acted, refreshed, ended, start, settle, handle, Run, begin, next,
}

-- The outcome of a refresh, if the event is the end of one.
abbrev pub refresh_of : Event → Option (Result Answer × ℕ)
refresh_of (refreshed r now) = some (r, now)
refresh_of (ended r now) = some (r, now)
refresh_of _ = none

-- The data of the last refresh that succeeded, the latest event standing first.
unfoldable pub latest_data : List Event → Data
latest_data [] = empty_data
latest_data (e ∷ es) =
    let before = latest_data es in
    elim (refresh_of e) [ some (answered a, now) ↦ data_of a now | _ ↦ before ]

-- Does the event let the page in, or shut it out?
abbrev pub lets_in : Event → Bool
lets_in (opened (answered _)) = true
lets_in e = elim (refresh_of e) [ some (answered _, _) ↦ true | _ ↦ false ]

abbrev pub shuts_out : Event → Bool
shuts_out e = elim (refresh_of e) [
  | some (failed t, _) ↦ str_eq (error_message t "Dashboard unavailable") auth_required_message
  | _ ↦ false
]

-- The page asks for a token from a refusal on, until a token or a refresh is accepted.
unfoldable pub is_shut_out : List Event → Bool
is_shut_out [] = false
is_shut_out (e ∷ es) =
    let before = is_shut_out es in if lets_in e then false else if shuts_out e then true else before

handle-data :
    (e : Event) (s : App) (es : List Event)
    → s.data_ ≡ latest_data es
    → (handle e s).data_ ≡ latest_data (e ∷ es)
unfolding handle settle latest_data
handle-data poll s es h = h
handle-data (select t) s es h = h
handle-data dismiss s es h = h
handle-data (report m) s es h = h
handle-data (enter t) s es h = h
handle-data (press a) s es h = h
handle-data (linked (answered _)) s es h = h
handle-data (linked (failed _)) s es h = h
handle-data (opened (answered _)) s es h = h
handle-data (opened (failed _)) s es h = h
handle-data (acted (answered _)) s es h = h
handle-data (acted (failed _)) s es h = h
handle-data (refreshed (answered a) now) s es h = refl
handle-data (refreshed (failed t) now) s es h = h
handle-data (ended (answered a) now) s es h = refl
handle-data (ended (failed t) now) s es h = h

handle-auth_required :
    (e : Event) (s : App) (es : List Event)
    → s.auth_required ≡ is_shut_out es
    → (handle e s).auth_required ≡ is_shut_out (e ∷ es)
unfolding handle settle is_shut_out
handle-auth_required poll s es h = h
handle-auth_required (select t) s es h = h
handle-auth_required dismiss s es h = h
handle-auth_required (report m) s es h = h
handle-auth_required (enter t) s es h = h
handle-auth_required (press a) s es h = h
handle-auth_required (linked (answered _)) s es h = h
handle-auth_required (linked (failed _)) s es h = h
handle-auth_required (opened (answered _)) s es h = refl
handle-auth_required (opened (failed _)) s es h = h
handle-auth_required (acted (answered _)) s es h = h
handle-auth_required (acted (failed _)) s es h = h
handle-auth_required (refreshed (answered a) now) s es h = refl
handle-auth_required (refreshed (failed t) now) s es h = rw h refl
handle-auth_required (ended (answered a) now) s es h = refl
handle-auth_required (ended (failed t) now) s es h = rw h refl

-- On every run: the data on the page is that of the last refresh that succeeded, or the empty data
-- where none has; and the page asks for a token exactly if a refresh was refused for want of one
-- and since then neither a token nor a refresh was accepted.
pub Run-shows :
    {token : Bool} {es : List Event} {s : App}
    → Run token es s
    → (s.data_ ≡ latest_data es) × (s.auth_required ≡ is_shut_out es)
unfolding start latest_data is_shut_out
Run-shows begin = (refl, refl)
Run-shows (next {es} {s} e r c) =
    let (d, a) = Run-shows r in (handle-data e s es d, handle-auth_required e s es a)
