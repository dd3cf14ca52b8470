-- ===== src/Coordinator/Attempt/Runs.antt =====
-- The invariant of an attempt through any run of its two goroutines.
use relay_local.Prelude.{◌≡◌, refl, true, List, [], ◌∷◌, if-either, arith, String}
use relay_local.Protocol.{Backend, Model, Json}
use relay_local.Coordinator.Job.{new_job}
use relay_local.Coordinator.Attempt.{
  Attempt, Reader, idle, found, ordered, examined, passed, counted, refused, full, abandoning,
  cancelling, stopped, Answerer, ready, Action, reads, goes_on, consumes, proceeds, takes_failure,
  leaves, removes, is_done, is_idle, consume, take_failure, go_on, step, begin, run,
}
use relay_local.Coordinator.Attempt.Response.{waiting, replay}
use relay_local.Coordinator.Attempt.Invariant.{
  Inv, Inv-drop_job, Inv-admit, Inv-count, Inv-enqueue, Inv-uncount, Inv-overflow, Inv-abandon,
  Inv-cancel, Inv-consume_from, Inv-take_from, Inv-leave, Inv-proceed, Inv-remove,
}
use relay_local.Coordinator.Attempt.Checks.{Inv-inspect, Inv-receive}

Inv-go_on : (r : Reader) (a : Attempt) → a.reader ≡ r → Inv a → Inv (go_on r a)
unfolding go_on
Inv-go_on idle a e v = v
Inv-go_on (found m) a e v = Inv-inspect m a e v
Inv-go_on (ordered m) a e v = Inv-drop_job m a e v
Inv-go_on (examined m) a e v = Inv-admit m a e v
Inv-go_on (passed m) a e v = Inv-count m a e v
Inv-go_on (counted m queued) a e v = Inv-enqueue m queued a e v
Inv-go_on (refused m) a e v = Inv-uncount m a e v
Inv-go_on full a e v = Inv-overflow a e v
Inv-go_on abandoning a e v = Inv-abandon a e v
Inv-go_on cancelling a e v = Inv-cancel a e v
Inv-go_on stopped a e v = v

Inv-consume : (r : Answerer) (a : Attempt) → a.answerer ≡ r → Inv a → Inv (consume r a)
unfolding consume
Inv-consume ready a e v = Inv-consume_from a.job.events a e refl v
Inv-consume _ a e v = v

Inv-take_failure : (r : Answerer) (a : Attempt) → a.answerer ≡ r → Inv a → Inv (take_failure r a)
unfolding take_failure
Inv-take_failure ready a e v = Inv-take_from a.job.failure a e v
Inv-take_failure _ a e v = v

idle_of : (r : Reader) → is_idle r ≡ true → r ≡ idle
idle_of idle h = refl
idle_of _ h = ground arith

pub Inv-step : (json : Json) (x : Action) (a : Attempt) → Inv a → Inv (step json x a)
unfolding step
Inv-step json (reads m) a v =
    if-either Inv (is_idle a.reader) _ a (λ h. Inv-receive json m a (idle_of a.reader h) v) (λ _. v)
Inv-step json goes_on a v = Inv-go_on a.reader a refl v
Inv-step json consumes a v = Inv-consume a.answerer a refl v
Inv-step json proceeds a v = Inv-proceed a.answerer a refl v
Inv-step json takes_failure a v = Inv-take_failure a.answerer a refl v
Inv-step json leaves a v = Inv-leave a.answerer a refl v
Inv-step json removes a v = if-either Inv (is_done a.reader) _ a (λ h. Inv-remove a h v) (λ _. v)

Inv-begin : (id host : String) (b : Backend) (m : Model) → Inv (begin (new_job id host b m))
unfolding begin new_job replay
Inv-begin id host b m = record {
  fifo = refl;
  counts = refl;
  slots = ground arith;
  bounded = ground arith;
  fits = tt;
  begun = (waiting, refl);
  tells = λ _. refl;
  awaits = tt;
  sound = tt;
  sound_in = tt;
  numbered = ground arith;
  once = ground arith;
}

Inv-run : (json : Json) (xs : List Action) (a : Attempt) → Inv a → Inv (run json xs a)
unfolding run
Inv-run json [] a v = v
Inv-run json (x ∷ xs) a v = Inv-run json xs (step json x a) (Inv-step json x a v)

pub run-Inv :
    (json : Json) (xs : List Action) (id host : String) (b : Backend) (m : Model)
    → Inv (run json xs (begin (new_job id host b m)))
run-Inv json xs id host b m = Inv-run json xs _ (Inv-begin id host b m)
