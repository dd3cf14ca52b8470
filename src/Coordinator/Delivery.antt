-- ===== src/Coordinator/Delivery.antt =====
-- From the host's connection to the client's: `deliver` of internal/coordinator/coordinator.go feeds
-- `forward` of internal/coordinator/chat.go.
use mathlib.Core.List.{append-nil}
use relay_local.Prelude.{◌≡◌, sym, subst, ◌∙◌, Bool, some, List, [], ◌∷◌, ◌++◌, String, All}
use relay_local.Protocol.{Backend, Model, Json}
use relay_local.Coordinator.Job.{new_job}
use relay_local.Coordinator.Attempt.{Attempt, Action, begin, run}
use relay_local.Coordinator.Attempt.Response.{waiting, IsResponse, append-IsResponse}
use relay_local.Coordinator.Attempt.Invariant.{Inv, Sound}
use relay_local.Coordinator.Attempt.Runs.{run-Inv}
use relay_local.Coordinator.Forward.{Event, Finish, forward}
use relay_local.Coordinator.Forward.Reply.{Reply}
use relay_local.Coordinator.Forward.Rounds.{messages, chunks, losses_of, IsFed, forward-Reply}

All-left : {A : Type 0} (P : A → Type 0) (xs ys : List A) → All P (xs ++ ys) → All P xs
All-left P [] ys a = tt
All-left P (x ∷ xs) ys (p, a) = (p, All-left P xs ys a)

-- The messages that a run of an attempt lets through.
pub record IsDelivered (es : List Event) : Type 0 where
  pub json : Json
  pub actions : List Action
  pub id : String
  pub host : String
  pub backend : Backend
  pub model : Model
  pub consumed : messages es ≡ (run json actions (begin (new_job id host backend model))).consumed

-- What was consumed is the beginning of what was accepted.
consumed-IsFed :
    (a : Attempt) (es : List Event) → Inv a → messages es ≡ a.consumed → IsFed waiting es
consumed-IsFed a es v e =
    let begun = append-IsResponse a.consumed a.job.events (subst IsResponse v.fifo v.begun) in
    let sound = All-left Sound a.consumed a.job.events (subst (All Sound) v.fifo v.sound) in
    (subst IsResponse (sym e) begun, subst (All Sound) (sym e) sound)

pub IsDelivered-IsFed : (es : List Event) → IsDelivered es → IsFed waiting es
IsDelivered-IsFed es d =
    consumed-IsFed _ es (run-Inv d.json d.actions d.id d.host d.backend d.model) d.consumed

-- Whatever a host sends and however the two goroutines of an attempt take turns: where `forward` ends
-- on the messages it consumed, it either asks for another attempt, which it may, and has written
-- nothing; or writes one error with a status of 400 or more; or one header with a status from 200 to
-- 299 and the chunks consumed, all and in order, to which only a stream adds the text that ends it
-- early, while any other unfinished response is aborted, unless a write of a chunk failed; or nothing,
-- where the client gave up.
pub forward-IsDelivered :
    (stream can_retry : Bool) (es : List Event) (f : Finish)
    → IsDelivered es
    → forward stream can_retry es ≡ some (f, [])
    → Reply stream can_retry (losses_of es) (chunks es) f
forward-IsDelivered stream can_retry es f d h =
    let (used, split, reply) = forward-Reply stream can_retry es f [] (IsDelivered-IsFed es d) h in
    let all = split ∙ append-nil used in
    subst (λ es. Reply stream can_retry (losses_of es) (chunks es) f) (sym all) reply
