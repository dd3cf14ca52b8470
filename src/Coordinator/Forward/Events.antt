-- ===== src/Coordinator/Forward/Events.antt =====
-- What each event of the loop leads to.
use mathlib.Core.List.{append-nil}
use mathlib.Core.Option.{some_inj}
use relay_local.Prelude.{
  ℕ, ◌≡◌, subst, Bool, true, false, not, Option, some, List, [], ◌∷◌, ◌++◌, if-either, arith,
}
use relay_local.Protocol.{
  Kind, Kind.response_start, Kind.response_chunk, Kind.response_end, Kind.error, Message,
}
use relay_local.Protocol.Accepted.{IsSound}
use relay_local.Coordinator.Attempt.Response.{Phase, waiting, streaming, advance_by}
use relay_local.Coordinator.Forward.{
  Context, Event, done, start_expires, fails, arrives, Forward, goes_on, on_start, on_chunk, on_end,
  on_message, on_event, observable_code,
}
use relay_local.Coordinator.Forward.Reply.{Loss, loss, Tracks, Leads}
use relay_local.Coordinator.Forward.Messages.{
  Tracks-fail, Tracks-on_start, Tracks-on_chunk, Tracks-on_end,
}

abbrev pub chunk_of : Kind → Message → List (List ℕ)
chunk_of response_chunk m = m.bytes ∷ []
chunk_of _ m = []

-- The events that carry a message, and what the others leave as it is.
abbrev pub chunk : Event → List (List ℕ)
chunk (arrives m sent ctx) = chunk_of m.kind m
chunk _ = []

abbrev pub losses : Event → Loss
losses (done ctx) = loss ctx false
losses (start_expires ctx) = loss ctx false
losses (fails code ctx) = loss ctx false
losses (arrives m sent ctx) = loss ctx (not sent)

unfoldable pub advance_event : Event → Phase → Option Phase
advance_event (arrives m sent ctx) p = advance_by m.kind m.seq p
advance_event _ p = some p

unfoldable pub SoundEvent : Event → Type 0
SoundEvent (arrives m sent ctx) = IsSound m.kind m
SoundEvent _ = Unit

Tracks-on_message :
    (kind : Kind) (stream can_retry : Bool) (m : Message) (sent : Bool) (ctx : Context)
    (s : Forward) (cs : List (List ℕ)) (p q : Phase)
    → Tracks p s cs
    → IsSound kind m
    → advance_by kind m.seq p ≡ some q
    → Leads stream can_retry
        (loss ctx (not sent))
        q
        (cs ++ chunk_of kind m)
        (on_message kind stream can_retry m sent ctx s)
unfolding on_message advance_by
Tracks-on_message response_start stream can_retry m sent ctx s cs waiting q t c h =
    rw (append-nil cs) (
      subst
        (λ r. Leads stream can_retry (loss ctx (not sent)) r cs (on_start stream can_retry m ctx s))
        (some_inj.0 h) (Tracks-on_start (not sent) stream can_retry m ctx s cs c t))
Tracks-on_message response_chunk stream can_retry m sent ctx s cs (streaming k) q (g, t) c h =
    let same : streaming m.seq ≡ q = ground arith in
    subst
      (λ r.
        Leads stream can_retry (loss ctx (not sent)) r (cs ++ (m.bytes ∷ []))
          (on_chunk stream can_retry m sent ctx s))
      same (Tracks-on_chunk stream can_retry m sent ctx s cs m.seq g t)
Tracks-on_message response_end stream can_retry m sent ctx s cs (streaming k) q (g, t) c h =
    rw (append-nil cs) (
      subst (λ r. Leads stream can_retry (loss ctx (not sent)) r cs (on_end stream can_retry ctx s))
        (some_inj.0 h) (Tracks-on_end (not sent) stream can_retry ctx s cs g t))
Tracks-on_message error stream can_retry m sent ctx s cs p q t c h =
    rw (append-nil cs)
      (Tracks-fail (not sent) stream can_retry (observable_code m.code) m.retryable ctx s cs p q t)
Tracks-on_message _ stream can_retry m sent ctx s cs p q t c h = absurd (ground arith)

pub Tracks-on_event :
    (e : Event) (stream can_retry : Bool) (s : Forward) (cs : List (List ℕ)) (p q : Phase)
    → Tracks p s cs
    → SoundEvent e
    → advance_event e p ≡ some q
    → Leads stream can_retry (losses e) q (cs ++ chunk e) (on_event stream can_retry e s)
unfolding on_event advance_event SoundEvent
Tracks-on_event (done ctx) stream can_retry s cs p q t c h =
    rw (append-nil cs) (Tracks-fail false stream can_retry _ false ctx s cs p q t)
Tracks-on_event (start_expires ctx) stream can_retry s cs p q t c h = rw (append-nil cs) (
    if-either (Leads stream can_retry (loss ctx false) q cs) s.armed _ (goes_on s)
      (λ _. Tracks-fail false stream can_retry _ true ctx s cs p q t)
      (λ _. subst (λ r. Tracks r s cs) (some_inj.0 h) t))
Tracks-on_event (fails code ctx) stream can_retry s cs p q t c h =
    rw (append-nil cs) (Tracks-fail false stream can_retry code true ctx s cs p q t)
Tracks-on_event (arrives m sent ctx) stream can_retry s cs p q t c h =
    Tracks-on_message m.kind stream can_retry m sent ctx s cs p q t c h
