-- ===== src/App/Tests.antt =====
-- A run of the application, and each theorem at a concrete input.
use relay_local.Prelude.{
  ◌≡◌, refl, true, false, none, some, List, [], ◌∷◌, if◌then◌else◌, is_some, ◌||◌, ◌&&◌,
}
use relay_local.Api.Server.{
  Backend, empty_status, Thrown, error, other, answered, failed, error_message,
  auth_required_message,
}
use relay_local.App.{
  Answer, App, Event, enter, press, opened, refreshed, pause, start, settle, handle, can,
  is_enabled, alert, data_of, Run, begin, next, refused_token,
}
use relay_local.App.Trace.{Run-shows, latest_data, is_shut_out}
use relay_local.App.Busy.{Run-busy, under_way, refused-is_hidden}
use relay_local.Api.Request.{Response, api}
use relay_local.App.Refusal.{refused-refresh_shows}
use relay_local.Stats.Price.{is_blank}

abbrev box : Backend
box = record {
  id = "box";
  kind = "ollama";
  source = "local";
  ready = true;
  capacity = 4;
  available = 1;
  models = [];
}

abbrev answer : Answer
answer = record {
  status = record empty_status { sharing = true; running = true };
  backends = some (box ∷ []);
  offers = none;
  usage = none;
  events = none;
  prices = none;
  config = none;
}

abbrev refusal : Thrown
refusal = error auth_required_message

-- A first visit without a link: the page asks for a token, which is accepted, and pauses the agent.
abbrev visit : List Event
visit =
    press pause
    ∷ refreshed (answered answer) 5
    ∷ opened (answered tt)
    ∷ enter "rly_1"
    ∷ refreshed (failed refusal) 1
    ∷ []

abbrev asked : App
asked = handle (refreshed (failed refusal) 1) (start false)

abbrev paused : App
paused = handle (press pause) (
    handle (refreshed (answered answer) 5)
      (handle (opened (answered tt)) (handle (enter "rly_1") asked)))

visit-Run : Run false visit paused
unfolding start settle handle can is_enabled is_blank error_message data_of
visit-Run =
    next (press pause)
      (next (refreshed (answered answer) 5)
        (next (opened (answered tt))
          (next (enter "rly_1") (next (refreshed (failed refusal) 1) begin refl) refl) refl)
        refl)
      refl

Run-shows_example : (paused.data_ ≡ data_of answer 5) × (paused.auth_required ≡ false)
unfolding latest_data is_shut_out
Run-shows_example = Run-shows visit-Run

Run-busy_example :
    (under_way paused ≡ (if paused.busy then 1 else 0))
    × ((paused.busy && is_enabled pause paused) ≡ false)
Run-busy_example = Run-busy pause visit-Run

asked-auth_required : asked.auth_required ≡ true
unfolding start settle handle error_message
asked-auth_required = refl

refused-is_hidden_example :
    let s' = handle (opened (failed other)) asked in
    (s'.error ≡ refused_token)
    × (alert s' ≡ none)
    × (alert asked ≡ none)
    × (s'.auth_required ≡ true)
refused-is_hidden_example = refused-is_hidden other asked asked-auth_required

abbrev busy_agent : Response Backend
busy_agent = record { ok = false; status = 503; json = failed other; error_field = none }

refused-refresh_shows_example :
    let s' = settle (failed (error "Request failed (503)")) 7 asked in
    (is_some (alert s') || s'.auth_required) ≡ true
unfolding api
refused-refresh_shows_example =
    refused-refresh_shows (λ n. "503") busy_agent (error "Request failed (503)") 7 asked refl refl
