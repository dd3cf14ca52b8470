-- ===== src/Installer.antt =====
-- `Installer` of frontend/src/views/Models.tsx: a model is pulled by the agent, and the job of that is
-- polled every second. Requests overlap: a poll that waits is kept with the id of the job it asks for.
pub mod Polling
mod Tests
use relay_local.Prelude.{
  ℕ, suc, ◌+◌, Bool, true, false, not, ◌&&◌, ◌||◌, Option, none, some, List, [], ◌∷◌, ◌++◌, String,
  if◌then◌else◌, str_eq,
}
use relay_local.Api.Server.{Result, answered, failed, error_message}
use relay_local.Stats.Price.{is_blank}

pub record ModelJob : Type 0 where
  pub id : String
  pub model : String
  pub status : String
  pub progress : ℕ
  pub error : Option String

-- The state, with the requests that wait and the number of calls of `onDone`.
pub record Installer : Type 0 where
  pub model : String
  pub job : Option ModelJob
  pub posts : List String
  pub polls : List String
  pub done : ℕ

abbrev pub no_job : Installer
no_job = record { model = ""; job = none; posts = []; polls = []; done = 0 }

-- Does the effect of the shown job set a timer?
abbrev pub is_polled : ModelJob → Bool
is_polled j = not (str_eq j.id "") && not (str_eq j.status "complete" || str_eq j.status "failed")

unfoldable pub find_job : String → List ModelJob → Option ModelJob
find_job id [] = none
find_job id (j ∷ js) = let rest = find_job id js in if str_eq j.id id then some j else rest

abbrev pub failed_job : String → String → ModelJob
failed_job model message = record {
  id = "";
  model = model;
  status = message;
  progress = 0;
  error = none;
}

-- The first waiting request that is this one is over.
unfoldable pub remove : String → List String → List String
remove x [] = []
remove x (y ∷ ys) = let rest = remove x ys in if str_eq y x then ys else y ∷ rest

-- The user types or presses Install; the timer of the shown job; and answers: to the install of a
-- model, and to the poll of a job, the list of all jobs.
pub data Event : Type 0 where
  type_name : String → Event
  install : Event
  posted : String → Result ModelJob → Event
  tick : Event
  polled : String → Result (List ModelJob) → Event

abbrev pub show_found : Option ModelJob → Installer → Installer
show_found none s = s
show_found (some current) s = record s {
  job = some current;
  done = if str_eq current.status "complete" then suc s.done else s.done;
}

abbrev pub poll_shown : Option ModelJob → List String → List String
poll_shown none polls = polls
poll_shown (some j) polls = if is_polled j then polls ++ (j.id ∷ []) else polls

unfoldable pub handle : Event → Installer → Installer
unfolding is_blank
handle (type_name text) s = record s { model = text }
handle install s = if is_blank s.model then s else record s { posts = s.posts ++ (s.model ∷ []) }
handle (posted model (answered j)) s = record s {
  job = some j;
  model = "";
  posts = remove model s.posts;
}
handle (posted model (failed e)) s = record s {
  job = some (failed_job model (error_message e "Install failed"));
  posts = remove model s.posts;
}
handle tick s = record s { polls = poll_shown s.job s.polls }
handle (polled id (answered jobs)) s =
    show_found (find_job id jobs) (record s { polls = remove id s.polls })
handle (polled id (failed e)) s = record s { polls = remove id s.polls }

unfoldable pub waits : String → List String → Bool
waits x [] = false
waits x (y ∷ ys) = str_eq y x || waits x ys

-- Answers come to requests that wait only.
unfoldable pub can : Event → Installer → Bool
can (posted model r) s = waits model s.posts
can (polled id r) s = waits id s.polls
can _ s = true
