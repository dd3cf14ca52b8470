-- ===== src/Coordinator/Chat.antt =====
-- A request of a client: `chat` of internal/coordinator/chat.go, with the guard `authorize` and what it
-- asks of internal/coordinator/coordinator.go.
pub mod Answers
use relay_local.Prelude.{
  ℕ, zero, suc, ◌+◌, ◌^◌, Bool, true, false, not, ◌&&◌, ◌||◌, Option, none, some, List, [], ◌∷◌,
  ◌++◌, String, length, if◌then◌else◌, ◌==◌, str_eq,
}
use relay_local.Prelude.Int.{ℤ, pos, ltb_ℤ}
use relay_local.Coordinator.Job.{Job}
use relay_local.Coordinator.Forward.{
  Context, is_live, Event, Write, api_error, Outcome, returned, aborted, Finish, forward,
}
use relay_local.Coordinator.Select.{Coordinator, select_job}

-- The fields of the body that are read. `messages` is the text of its value.
pub record Request : Type 0 where
  pub model : String
  pub stream : Bool
  pub messages : List ℕ

-- The two calls of `json.Unmarshal`; none for its error.
pub record Decoder : Type 0 where
  pub request : List ℕ → Option Request
  pub elements : List ℕ → Option (List (List ℕ))

-- What the attempt with each number meets: the hosts, the time and the id that `selectJob` sees, the
-- nanoseconds left, whether `Send` succeeds, the context after it failed, and the events of `forward`.
pub record World : Type 0 where
  pub coordinator : ℕ → Coordinator
  pub now : ℕ → ℕ
  pub new_id : ℕ → String
  pub remaining : ℕ → ℤ
  pub sends : ℕ → Bool
  pub context : ℕ → Context
  pub events : ℕ → List Event

-- The calls on the client's writer, whether the handler panicked, and the hosts that it called `Send` for.
pub record Response : Type 0 where
  pub writes : List Write
  pub panicked : Bool
  pub asked : List String

abbrev pub respond : List Write → List String → Option Response
respond writes asked = some (record { writes = writes; panicked = false; asked = asked })

abbrev pub millisecond : ℤ
millisecond = pos (10 ^ 6)

abbrev pub host_of : Option Job → String
host_of none = ""
host_of (some j) = j.host

-- After `forward`; `again` is the rest of the loop.
unfoldable pub ended :
    (List Write → Option Response) → Outcome → List Write → List String → Option Response
ended again (returned true) writes asked = again writes
ended again (returned false) writes asked = respond writes asked
ended again aborted writes asked = some (record { writes = writes; panicked = true; asked = asked })

unfoldable pub after_forward :
    (List Write → Option Response)
    → Option (Finish × List Event)
    → List Write
    → List String
    → Option Response
unfolding ended
after_forward again none writes asked = none
after_forward again (some (f, _)) writes asked = ended again f.outcome (writes ++ f.writes) asked

-- One pass of the loop with the job that was selected. It has no result where `forward` waits for ever.
unfoldable pub attempt_with :
    Request
    → World
    → ℕ
    → (Job → List String → List Write → Option Response)
    → Option (Job × Coordinator)
    → List Write
    → List String
    → Option Response
unfolding after_forward
attempt_with r w i again none writes asked =
    respond (writes ++ (api_error (pos 503) "no_capacity" ∷ [])) asked
attempt_with r w i again (some (j, _)) writes asked =
    let hosts = asked ++ (j.host ∷ []) in
    if ltb_ℤ (w.remaining i) millisecond
    then respond (writes ++ (api_error (pos 504) "deadline_exceeded" ∷ [])) asked
    else if not (w.sends i)
    then if (i == 0) && is_live (w.context i)
      then again j hosts writes
      else respond (writes ++ (api_error (pos 502) "host_disconnected" ∷ [])) hosts
    else after_forward (again j hosts) (forward r.stream (i == 0) (w.events i)) writes hosts

-- The loop, with the number of passes left and of this one, and the calls and hosts so far.
unfoldable pub attempts :
    Request → World → ℕ → ℕ → Option Job → List Write → List String → Option Response
attempts r w zero i previous writes asked = respond writes asked
attempts r w (suc n) i previous writes asked =
    attempt_with r w i (λ j hosts ws. attempts r w n (i + 1) (some j) ws hosts)
      (select_job (w.new_id i) (w.now i) r.model (host_of previous) previous (w.coordinator i))
      writes asked

-- `len(messages) == 0` counts the elements, `len(request.Messages) == 0` the bytes.
unfoldable pub has_messages : Option (List (List ℕ)) → Bool
has_messages none = false
has_messages (some ms) = not (length ms == 0)

unfoldable pub answer : Decoder → World → Option Request → Option Response
unfolding has_messages
answer d w none = respond (api_error (pos 400) "invalid_request" ∷ []) []
answer d w (some r) =
    if str_eq r.model "" || (length r.messages == 0)
    then respond (api_error (pos 400) "invalid_request" ∷ []) []
    else if not (has_messages (d.elements r.messages))
    then respond (api_error (pos 400) "invalid_messages" ∷ []) []
    else attempts r w 2 0 none [] []

-- The body, or none where it cannot be read or is too long.
unfoldable pub chat : Decoder → World → Option (List ℕ) → Option Response
chat d w none = respond (api_error (pos 413) "request_too_large" ∷ []) []
chat d w (some body) = answer d w (d.request body)
