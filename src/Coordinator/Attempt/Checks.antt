-- ===== src/Coordinator/Attempt/Checks.antt =====
-- The invariant of an attempt through the checks of `deliver` and the loop of `connect`.
use relay_local.Prelude.{
  ◌≡◌, refl, ap, sym, ◌∙◌, inl, inr, true, false, ◌&&◌, some, ◌++◌, Bool-cases, Option-cases, arith,
  str_eq,
}
use relay_local.Protocol.{
  Kind, Kind.catalog, Kind.heartbeat, Kind.response_start, Kind.response_chunk, Kind.response_end,
  Kind.error, Message, Json, validate,
}
use relay_local.Protocol.Accepted.{IsSound, IsSound-validate}
use relay_local.Coordinator.Job.{Job}
use relay_local.Coordinator.Attempt.{
  Attempt, idle, found, check, check_order, ordered_as, inspect, look, dispatch, receive,
}
use relay_local.Coordinator.Attempt.Response.{
  waiting, replay, replay-snoc, advance, phase_of, IsCounted, is_reply, check_order-IsNumbered,
  check_order-advance,
}
use relay_local.Coordinator.Attempt.Invariant.{Sound, Inv, size, Inv-stopped}

IsCounted-sound : (kind : Kind) (m : Message) → IsSound kind m → IsCounted kind m.seq
IsCounted-sound response_chunk m c = c
IsCounted-sound response_start m c = tt
IsCounted-sound _ m c = tt

Inv-dropped :
    (m : Message) (k : Job) (a : Attempt)
    → a.reader ≡ found m
    → a.job.dropping ≡ true
    → Sound m
    → k ≡ a.job
    → Inv a
    → Inv (ordered_as m (some k) a)
unfolding ordered_as
Inv-dropped m k a e d c h v = ground arith

-- The checks change the two fields that follow the response.
check_order-same :
    (kind : Kind) (m : Message) (j k : Job)
    → check_order kind m j ≡ some k
    → (k.events ≡ j.events) × (k.queued ≡ j.queued) × (k.dropping ≡ j.dropping)
unfolding check_order
check_order-same response_start m j k h = ground arith
check_order-same response_chunk m j k h = ground arith
check_order-same response_end m j k h = ground arith
check_order-same _ m j k h = ground arith

Inv-ordered :
    (m : Message) (k : Job) (a : Attempt)
    → a.reader ≡ found m
    → is_reply m.kind ≡ true
    → Sound m
    → a.pending ≡ true
    → a.job.dropping ≡ false
    → check_order m.kind m a.job ≡ some k
    → Inv a
    → Inv (ordered_as m (some k) a)
unfolding ordered_as advance
Inv-ordered m k a e r c p d h v =
    let told : replay (some waiting) a.accepted ≡ some (phase_of true a.job.started a.job.seq) =
      ground arith in
    let next = check_order-advance m.kind m a.job k r (IsCounted-sound m.kind m c) v.numbered h in
    let step = replay-snoc (some waiting) a.accepted m ∙ ap (advance m) told ∙ next in
    let same = check_order-same m.kind m a.job k h in
    record {
      fifo = v.fifo ∙ ap (λ es. a.consumed ++ es) (sym same.0);
      counts = ground (arith, ap size same.0);
      slots = ground arith;
      bounded = ground arith;
      fits = tt;
      begun = v.begun;
      tells = λ _. rw p step;
      sound = v.sound;
      sound_in = c;
      awaits = tt;
      numbered = check_order-IsNumbered m.kind m a.job k v.numbered h;
      once = ground arith;
    }

Inv-checked :
    (m : Message) (k : Job) (a : Attempt)
    → a.reader ≡ found m
    → is_reply m.kind ≡ true
    → Sound m
    → a.pending ≡ true
    → check m a.job ≡ some k
    → Inv a
    → Inv (ordered_as m (some k) a)
unfolding check
Inv-checked m k a e r c p h v = elim (Bool-cases (a.job.dropping)) [
  | inl dropped ↦ Inv-dropped m k a e dropped c (ground arith) v
  | inr kept ↦ Inv-ordered m k a e r c p kept (ground arith) v
]

pub Inv-inspect : (m : Message) (a : Attempt) → a.reader ≡ found m → Inv a → Inv (inspect m a)
unfolding inspect ordered_as
Inv-inspect m a e v =
    let (p, r) : (a.pending ≡ true) × (is_reply m.kind ≡ true) = ground arith in
    let c : Sound m = ground arith in
    elim (Option-cases (check m a.job)) [
      | inl bad ↦ rw bad (ground arith)
      | inr (k, good) ↦ rw good (Inv-checked m k a e r c p good v)
    ]

Inv-look :
    (m : Message) (a : Attempt)
    → a.reader ≡ idle
    → is_reply m.kind ≡ true
    → Sound m
    → Inv a
    → Inv (look m a)
unfolding look
Inv-look m a e r c v = elim (Bool-cases (a.pending && str_eq m.attempt_id a.job.id)) [
  | inr other ↦ rw other v
  | inl own ↦ rw own (ground arith)
]

Inv-dispatch :
    (kind : Kind) (m : Message) (a : Attempt)
    → a.reader ≡ idle
    → m.kind ≡ kind
    → Sound m
    → Inv a
    → Inv (dispatch kind m a)
unfolding dispatch
Inv-dispatch response_start m a e k c v = Inv-look m a e (ap is_reply k) c v
Inv-dispatch response_chunk m a e k c v = Inv-look m a e (ap is_reply k) c v
Inv-dispatch response_end m a e k c v = Inv-look m a e (ap is_reply k) c v
Inv-dispatch error m a e k c v = Inv-look m a e (ap is_reply k) c v
Inv-dispatch heartbeat m a e k c v = v
Inv-dispatch catalog m a e k c v = v
Inv-dispatch _ m a e k c v = Inv-stopped a e v

pub Inv-receive :
    (json : Json) (m : Message) (a : Attempt) → a.reader ≡ idle → Inv a → Inv (receive json m a)
unfolding receive
Inv-receive json m a e v = elim (Option-cases (validate json m)) [
  | inr (text, bad) ↦ rw bad (Inv-stopped a e v)
  | inl good ↦ rw good (Inv-dispatch m.kind m a e refl (IsSound-validate json m good) v)
]
