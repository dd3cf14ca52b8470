-- ===== src/Coordinator/Attempt/Invariant.antt =====
-- What holds of an attempt whatever the order in which its two goroutines run.
use mathlib.Core.List.{append_assoc}
use relay_local.Prelude.{
  ℕ, ◌+◌, ◌≤◌, ◌<◌, ◌≡◌, ap, inl, inr, Bool, true, false, not, ◌&&◌, Option, some, none, String,
  List, [], ◌∷◌, ◌++◌, length, length-append, sum_by, sum_by-append, ltb, leb, if◌then◌else◌,
  Bool-cases, arith, All, All-snoc,
}
use relay_local.Protocol.{Message, queue_bytes}
use relay_local.Protocol.Accepted.{IsSound}
use relay_local.Coordinator.Job.{event_slots}
use relay_local.Coordinator.Attempt.{
  Attempt, Reader, idle, found, ordered, examined, passed, counted, refused, full, abandoning,
  cancelling, stopped, Answerer, ready, holding, failing, quitting, is_terminal, is_done, drop_job,
  admit, count, enqueue, uncount, overflow, abandon, cancel, consume_from, take_from, quit, leave,
  proceed, remove,
}
use relay_local.Coordinator.Attempt.Response.{
  Phase, waiting, replay, IsResponse, phase_of, IsNumbered, is_reply,
}

abbrev pub size : List Message → ℕ
size ms = sum_by (λ (m : Message). length m.bytes) ms

-- The bytes that are counted and not queued.
abbrev pub in_flight : Reader → ℕ
in_flight (counted m queued) = length m.bytes
in_flight (refused m) = length m.bytes
in_flight _ = 0

abbrev pub held : Answerer → ℕ
held (holding m) = length m.bytes
held _ = 0

abbrev pub Fits : Reader → List Message → Type 0
Fits (counted m queued) events = size events + length m.bytes ≤ queued
Fits _ events = Unit

-- Who has swapped `dropping` and not looked up the job yet.
abbrev pub reader_owes : Reader → ℕ
reader_owes cancelling = 1
reader_owes _ = 0

abbrev pub answerer_owes : Answerer → ℕ
answerer_owes quitting = 1
answerer_owes _ = 0

-- Whether the job is pending once the message that is being delivered is dealt with.
abbrev pub still_pending : Reader → Bool → Bool
still_pending (ordered m) pending = pending && not (is_terminal m.kind)
still_pending _ pending = pending

-- That the job's fields tell the phase of the response with the message that is being delivered.
abbrev pub Tells : Reader → Bool → List Message → Phase → Type 0
Tells idle dropping ms p = dropping ≡ false → replay (some waiting) ms ≡ some p
Tells (found m) dropping ms p = dropping ≡ false → replay (some waiting) ms ≡ some p
Tells (ordered m) dropping ms p = dropping ≡ false → replay (some waiting) (ms ++ (m ∷ [])) ≡ some p
Tells (examined m) dropping ms p =
    dropping ≡ false → replay (some waiting) (ms ++ (m ∷ [])) ≡ some p
Tells (passed m) dropping ms p = replay (some waiting) (ms ++ (m ∷ [])) ≡ some p
Tells (counted m queued) dropping ms p = replay (some waiting) (ms ++ (m ∷ [])) ≡ some p
Tells cancelling dropping ms p = dropping ≡ true
Tells _ dropping ms p = Unit

abbrev pub Sound : Message → Type 0
Sound m = IsSound m.kind m

abbrev pub SoundIn : Reader → Type 0
SoundIn (found m) = Sound m
SoundIn (ordered m) = Sound m
SoundIn (examined m) = Sound m
SoundIn (passed m) = Sound m
SoundIn (counted m queued) = Sound m
SoundIn (refused m) = Sound m
SoundIn _ = Unit

-- A message is looked at while the job is pending, and is one of a response.
abbrev pub Awaits : Reader → Bool → Type 0
Awaits (found m) pending = (pending ≡ true) × (is_reply m.kind ≡ true)
Awaits _ pending = Unit

pub record Inv (a : Attempt) : Type 0 where
  pub fifo : a.accepted ≡ a.consumed ++ a.job.events
  pub counts : a.job.queued ≡ size a.job.events + in_flight a.reader + held a.answerer
  pub slots : length a.job.events ≤ event_slots
  pub bounded : size a.job.events ≤ queue_bytes
  pub fits : Fits a.reader a.job.events
  pub begun : IsResponse a.accepted
  pub tells :
      Tells a.reader a.job.dropping a.accepted
        (phase_of (still_pending a.reader a.pending) a.job.started a.job.seq)
  pub awaits : Awaits a.reader a.pending
  pub sound : All Sound a.accepted
  pub sound_in : SoundIn a.reader
  pub numbered : IsNumbered a.job
  pub once :
      a.cancels + reader_owes a.reader + answerer_owes a.answerer
      ≤ (if a.job.dropping then 1 else 0)

pub Inv-drop_job : (m : Message) (a : Attempt) → a.reader ≡ ordered m → Inv a → Inv (drop_job m a)
unfolding drop_job
Inv-drop_job m a e v = ground arith

pub Inv-admit : (m : Message) (a : Attempt) → a.reader ≡ examined m → Inv a → Inv (admit m a)
unfolding admit
Inv-admit m a e v = ground arith

pub Inv-count : (m : Message) (a : Attempt) → a.reader ≡ passed m → Inv a → Inv (count m a)
unfolding count
Inv-count m a e v = ground arith

pub Inv-uncount : (m : Message) (a : Attempt) → a.reader ≡ refused m → Inv a → Inv (uncount m a)
unfolding uncount
Inv-uncount m a e v = ground arith

pub Inv-overflow : (a : Attempt) → a.reader ≡ full → Inv a → Inv (overflow a)
unfolding overflow
Inv-overflow a e v = ground arith

pub Inv-abandon : (a : Attempt) → a.reader ≡ abandoning → Inv a → Inv (abandon a)
unfolding abandon
Inv-abandon a e v = ground arith

pub Inv-cancel : (a : Attempt) → a.reader ≡ cancelling → Inv a → Inv (cancel a)
unfolding cancel
Inv-cancel a e v = ground arith

pushed : Message → Attempt → Attempt
pushed m a = record a {
  job = record (a.job) { events = a.job.events ++ (m ∷ []) };
  reader = idle;
  accepted = a.accepted ++ (m ∷ []);
}

Inv-pushed :
    (m : Message) (queued : ℕ) (a : Attempt)
    → a.reader ≡ counted m queued
    → queued ≤ queue_bytes
    → length a.job.events < event_slots
    → Inv a
    → Inv (pushed m a)
unfolding pushed
Inv-pushed m queued a e room slot v =
    let p = phase_of a.pending a.job.started a.job.seq in
    let told : replay (some waiting) (a.accepted ++ (m ∷ [])) ≡ some p = ground arith in
    let more = length-append a.job.events (m ∷ []) in
    let bytes = sum_by-append (λ (m : Message). length m.bytes) a.job.events (m ∷ []) in
    record {
      fifo = rw (v.fifo) (append_assoc a.consumed a.job.events (m ∷ []));
      counts = ground (arith, bytes);
      slots = ground (arith, more);
      bounded = ground (arith, bytes);
      fits = tt;
      begun = (p, told);
      tells = λ _. told;
      awaits = tt;
      sound = All-snoc Sound a.accepted m v.sound (ground arith);
      sound_in = tt;
      numbered = v.numbered;
      once = let o = v.once in ground arith;
    }

pub Inv-enqueue :
    (m : Message) (queued : ℕ) (a : Attempt)
    → a.reader ≡ counted m queued
    → Inv a
    → Inv (enqueue m queued a)
unfolding enqueue pushed
Inv-enqueue m queued a e v = elim (Bool-cases (leb queued queue_bytes)) [
  | inl room ↦ elim (Bool-cases (ltb (length a.job.events) event_slots)) [
    | inl slot ↦ rw room (rw slot (Inv-pushed m queued a e (ground arith) (ground arith) v))
    | inr taken ↦ rw room (rw taken (ground arith))
  ]
  | inr large ↦ rw large (ground arith)
]

pub Inv-consume_from :
    (events : List Message) (a : Attempt)
    → a.answerer ≡ ready
    → a.job.events ≡ events
    → Inv a
    → Inv (consume_from events a)
unfolding consume_from
Inv-consume_from [] a i e v = v
Inv-consume_from (m ∷ rest) a i e v = ground (arith, append_assoc a.consumed (m ∷ []) rest)

pub Inv-take_from :
    (o : Option String) (a : Attempt) → a.answerer ≡ ready → Inv a → Inv (take_from o a)
unfolding take_from
Inv-take_from none a i v = v
Inv-take_from (some code) a i v = ground arith

Inv-quit : (a : Attempt) → answerer_owes a.answerer ≡ 0 → held a.answerer ≡ 0 → Inv a → Inv (quit a)
Inv-quit a i h v = ground arith

pub Inv-leave : (r : Answerer) (a : Attempt) → a.answerer ≡ r → Inv a → Inv (leave r a)
unfolding leave
Inv-leave ready a e v = Inv-quit a (ap answerer_owes e) (ap held e) v
Inv-leave failing a e v = Inv-quit a (ap answerer_owes e) (ap held e) v
Inv-leave _ a e v = v

pub Inv-proceed : (r : Answerer) (a : Attempt) → a.answerer ≡ r → Inv a → Inv (proceed r a)
unfolding proceed
Inv-proceed (holding m) a e v = ground arith
Inv-proceed quitting a e v = ground arith
Inv-proceed _ a e v = v

pub Inv-remove : (a : Attempt) → is_done a.reader ≡ true → Inv a → Inv (remove a)
unfolding remove
Inv-remove a e v = ground arith

pub Inv-stopped : (a : Attempt) → a.reader ≡ idle → Inv a → Inv (record a { reader = stopped })
Inv-stopped a e v = ground arith
