-- ===== src/App.antt =====
-- The state of `App` in frontend/src/main.tsx: polling, access to the dashboard, and the buttons
-- that pause, resume and stop the agent. Requests overlap, so each one that waits is counted, and
-- its answer is an event of its own.
pub mod Trace
pub mod Busy
pub mod Slots
pub mod Refusal
mod Tests
use relay_local.Prelude.{
  ℕ, ◌+◌, ◌-◌, ◌≡◌, Bool, true, false, not, ◌&&◌, ◌||◌, Option, none, some, List, [], ◌∷◌, String,
  if◌then◌else◌, str_eq, ltb, foldl,
}
use relay_local.Prelude.Int.{ℤ, pos, ◌+ℤ◌, ◌-ℤ◌}
use relay_local.Api.{HistoryEvent, Prices}
use relay_local.Api.Server.{
  Status, Backend, Offers, Usage, AgentConfig, empty_status, empty_usage, Result, answered, failed,
  error_message, auth_required_message,
}
use relay_local.Stats.Price.{is_blank}

pub record Data : Type 0 where
  pub status : Status
  pub backends : List Backend
  pub offers : Offers
  pub usage : Usage
  pub events : List HistoryEvent
  pub prices : Prices
  pub config : Option AgentConfig
  pub refreshed_at : ℕ

abbrev pub empty_data : Data
empty_data = record {
  status = empty_status;
  backends = [];
  offers = [];
  usage = empty_usage;
  events = [];
  prices = [];
  config = none;
  refreshed_at = 0;
}

-- The six answers of a refresh; a part that the code has a value for may be missing.
pub record Answer : Type 0 where
  pub status : Status
  pub backends : Option (List Backend)
  pub offers : Option Offers
  pub usage : Option Usage
  pub events : Option (List HistoryEvent)
  pub prices : Option Prices
  pub config : Option AgentConfig

-- `value || fallback` of an object or array.
abbrev pub or_else {ℓ} : {A : Type ℓ} → Option A → A → A
or_else none a = a
or_else (some b) a = b

unfoldable pub data_of : Answer → ℕ → Data
data_of a now = record {
  status = a.status;
  backends = or_else a.backends [];
  offers = or_else a.offers [];
  usage = or_else a.usage empty_usage;
  events = or_else a.events [];
  prices = or_else a.prices [];
  config = a.config;
  refreshed_at = now;
}

pub data Action : Type 0 where
  pause resume stop : Action

-- How many of the asynchronous functions wait, and where: `linking` for the session that the link
-- opens, `opening` for the one of `authenticate`, `acting` for the request of `availability`,
-- `ending` for its refresh, `refreshing` for any other refresh.
pub record Waiting : Type 0 where
  pub linking : ℕ
  pub opening : ℕ
  pub acting : ℕ
  pub ending : ℕ
  pub refreshing : ℕ

pub record App : Type 0 where
  pub data_ : Data
  pub tab : String
  pub error : String
  pub auth_required : Bool
  pub busy : Bool
  pub token_in_url : Bool
  pub waiting : Waiting

-- What goes on: the timer or a view calls `refresh`; the user acts; an `await` of `App` is over.
pub data Event : Type 0 where
  poll : Event
  select : String → Event
  dismiss : Event
  report : String → Event
  enter : String → Event
  press : Action → Event
  linked : Result {0} Unit → Event
  opened : Result {0} Unit → Event
  acted : Result {0} Unit → Event
  refreshed : Result Answer → ℕ → Event
  ended : Result Answer → ℕ → Event

-- The first render and its effect, for a page whose address has a token or none.
unfoldable pub start : Bool → App
start token = record {
  data_ = empty_data;
  tab = "Overview";
  error = "";
  auth_required = false;
  busy = false;
  token_in_url = token;
  waiting = record {
    linking = if token then 1 else 0;
    opening = 0;
    acting = 0;
    ending = 0;
    refreshing = if token then 0 else 1;
  };
}

-- The body of `refresh`, once `Promise.all` is over.
unfoldable pub settle : Result Answer → ℕ → App → App
settle (answered a) now s = record s { data_ = data_of a now; error = ""; auth_required = false }
settle (failed e) now s =
    let message = error_message e "Dashboard unavailable" in
    record s {
      error = message;
      auth_required = if str_eq message auth_required_message then true else s.auth_required;
    }

abbrev pub refused_token : String
refused_token =
    "That dashboard token was not accepted. Run relay dashboard to get a new access link."

abbrev pub expired_link : String
expired_link = "The dashboard link has expired. Run relay dashboard to get a new link."

abbrev pub call_refresh : Waiting → Waiting
call_refresh w = record w { refreshing = w.refreshing + 1 }

unfoldable pub handle : Event → App → App
unfolding settle
handle poll s = record s { waiting = call_refresh s.waiting }
handle (select tab) s = record s { tab = tab }
handle dismiss s = record s { error = "" }
handle (report message) s = record s { error = message }
handle (enter token) s =
    let w = s.waiting in record s { waiting = record w { opening = w.opening + 1 } }
handle (press action) s =
    let w = s.waiting in record s { busy = true; waiting = record w { acting = w.acting + 1 } }
handle (linked (answered _)) s =
    let w = s.waiting in
    record s { token_in_url = false; waiting = call_refresh (record w { linking = w.linking - 1 }) }
handle (linked (failed _)) s =
    let w = s.waiting in
    record s { error = expired_link; waiting = call_refresh (record w { linking = w.linking - 1 }) }
handle (opened (answered _)) s =
    let w = s.waiting in
    record s {
      token_in_url = false;
      error = "";
      auth_required = false;
      waiting = call_refresh (record w { opening = w.opening - 1 });
    }
handle (opened (failed _)) s =
    let w = s.waiting in
    record s { error = refused_token; waiting = record w { opening = w.opening - 1 } }
handle (acted (answered _)) s =
    let w = s.waiting in
    record s { waiting = record w { acting = w.acting - 1; ending = w.ending + 1 } }
handle (acted (failed e)) s =
    let w = s.waiting in
    record s {
      error = error_message e "Action failed";
      busy = false;
      waiting = record w { acting = w.acting - 1 };
    }
handle (refreshed r now) s =
    let w = s.waiting in
    settle r now (record s { waiting = record w { refreshing = w.refreshing - 1 } })
handle (ended r now) s =
    let w = s.waiting in
    settle r now (record s { busy = false; waiting = record w { ending = w.ending - 1 } })

-- Which buttons the page has, and which of them are enabled.
unfoldable pub is_enabled : Action → App → Bool
is_enabled pause s = s.data_.status.sharing && not (s.busy || s.auth_required)
is_enabled resume s = not s.data_.status.sharing && not (s.busy || s.auth_required)
is_enabled stop s = s.data_.status.running && not (s.busy || s.auth_required)

-- What the page shows of errors and of access.
unfoldable pub alert : App → Option String
alert s = if not (str_eq s.error "") && not s.auth_required then some s.error else none

-- The events that a page in this state allows. The gate passes on no blank token.
unfoldable pub can : Event → App → Bool
unfolding is_enabled alert
can poll s = true
can (select tab) s = true
can dismiss s = elim (alert s) [ none ↦ false | some _ ↦ true ]
can (report message) s = true
can (enter token) s = s.auth_required && not (is_blank token)
can (press action) s = is_enabled action s
can (linked _) s = ltb 0 s.waiting.linking
can (opened _) s = ltb 0 s.waiting.opening
can (acted _) s = ltb 0 s.waiting.acting
can (refreshed _ _) s = ltb 0 s.waiting.refreshing
can (ended _ _) s = ltb 0 s.waiting.ending

-- The states that a page reaches, with what has happened, the latest first.
pub data Run (token : Bool) : List Event → App → Type 0 where
  begin : Run token [] (start token)
  next :
      {es : List Event} {s : App} (e : Event)
      → Run token es s
      → can e s ≡ true
      → Run token (e ∷ es) (handle e s)

-- The slots of all backends, and those in use: below zero where more are free than there are.
unfoldable pub capacity : List Backend → ℕ
capacity = foldl (λ n b. n + b.capacity) 0

unfoldable pub busy_slots : List Backend → ℤ
busy_slots = foldl (λ n b. n +ℤ (pos b.capacity -ℤ pos b.available)) (pos 0)
