-- ===== src/Coordinator/Forward/Rounds.antt =====
-- The whole loop of `forward`: it ends, and what it writes is a reply to the messages it received.
use mathlib.Core.List.{append-nil, append_assoc}
use mathlib.Core.Option.{some_inj}
use relay_local.Prelude.{
  ℕ, ◌≡◌, refl, subst, sym, ap, ◌∙◌, inl, inr, Bool, true, false, not, ◌&&◌, ◌||◌, some, List, [],
  ◌∷◌, ◌++◌, String, All, is_some, if-either, Option-cases, arith,
}
use relay_local.Protocol.{Message}
use relay_local.Protocol.Accepted.{IsSound}
use relay_local.Coordinator.Attempt.Response.{
  Phase, waiting, advance, advance_by, replay, replay-none,
}
use relay_local.Coordinator.Forward.{
  Context, stop, is_live, is_canceled, Event, done, start_expires, fails, arrives, Forward, Finish,
  Round, goes_on, finished, fail, on_event, rounds, begin, forward,
}
use relay_local.Coordinator.Forward.Reply.{
  Reply, again, silent, refuses, whole, unsent, ends_early, breaks_off, Leads, Loss, either,
}
use relay_local.Coordinator.Forward.Events.{
  chunk, losses, advance_event, SoundEvent, Tracks-on_event,
}

abbrev pub messages : List Event → List Message
messages [] = []
messages (arrives m sent ctx ∷ es) = m ∷ messages es
messages (_ ∷ es) = messages es

abbrev pub chunks : List Event → List (List ℕ)
chunks [] = []
chunks (e ∷ es) = chunk e ++ chunks es

abbrev pub any_gives_up : List Event → Bool
any_gives_up [] = false
any_gives_up (e ∷ es) = (losses e).gave_up || any_gives_up es

abbrev pub any_unwritten : List Event → Bool
any_unwritten [] = false
any_unwritten (e ∷ es) = (losses e).unwritten || any_unwritten es

abbrev pub losses_of : List Event → Loss
losses_of es = record { gave_up = any_gives_up es; unwritten = any_unwritten es }

-- The messages are the beginning of a response, and valid.
abbrev pub IsFed : Phase → List Event → Type 0
IsFed p es =
    ((q : Phase) × (replay (some p) (messages es) ≡ some q))
    × All (λ (m : Message). IsSound m.kind m) (messages es)

IsFed-cons :
    (e : Event) (es : List Event) (p : Phase)
    → IsFed p (e ∷ es)
    → (q : Phase) × (advance_event e p ≡ some q) × SoundEvent e × IsFed q es
unfolding advance_event SoundEvent replay advance
IsFed-cons (done ctx) es p f = (p, refl, tt, f)
IsFed-cons (start_expires ctx) es p f = (p, refl, tt, f)
IsFed-cons (fails code ctx) es p f = (p, refl, tt, f)
IsFed-cons (arrives m sent ctx) es p ((r, h), (c, cs)) =
    elim (Option-cases (advance_by m.kind m.seq p)) [
      | inl stuck ↦
          absurd (cc (h, ap (λ o. replay o (messages es)) stuck, replay-none (messages es)))
      | inr (q, next) ↦ (q, next, c, ((r, ap (λ o. replay o (messages es)) (sym next) ∙ h), cs))
    ]

or_comm : (a b : Bool) → (a || b) ≡ (b || a)
or_comm a b = ground arith

Reply-more :
    {stream can_retry : Bool} (gone more : Loss) {cs : List (List ℕ)} {f : Finish}
    → Reply stream can_retry more cs f
    → Reply stream can_retry (either gone more) cs f
Reply-more gone more (again a e) = again a e
Reply-more gone more (silent a e) = silent (ground arith) e
Reply-more gone more (refuses s c l e) = refuses s c l e
Reply-more gone more (whole s t g e) = whole s t g e
Reply-more gone more (unsent s t g l e) = unsent s t g (ground arith) e
Reply-more gone more (ends_early s t g a e) = ends_early s t g a e
Reply-more gone more (breaks_off s t g a e) = breaks_off s t g a e

either_comm : (a b : Loss) → either a b ≡ either b a
either_comm a b = cc (or_comm a.gave_up b.gave_up, or_comm a.unwritten b.unwritten)

Reply-more_right :
    {stream can_retry : Bool} (gone more : Loss) {cs : List (List ℕ)} {f : Finish}
    → Reply stream can_retry gone cs f
    → Reply stream can_retry (either gone more) cs f
Reply-more_right {stream} {can_retry} gone more {cs} {f} r =
    subst (λ b. Reply stream can_retry b cs f) (either_comm more gone) (Reply-more more gone r)

-- From a round on, the loop uses some of the events, and replies to what they carry.
rounds-Reply :
    (stream can_retry : Bool) (es : List Event) (r : Round) (gone : Loss) (q : Phase)
    (cs : List (List ℕ)) (f : Finish) (rest : List Event)
    → Leads stream can_retry gone q cs r
    → IsFed q es
    → rounds stream can_retry es r ≡ some (f, rest)
    → (used : List Event) × (es ≡ used ++ rest)
      × Reply stream can_retry (either gone (losses_of used)) (cs ++ chunks used) f
unfolding rounds
rounds-Reply stream can_retry es (finished g) gone q cs f rest led fed h =
    let same = some_inj.0 h in
    let reply = Reply-more_right gone (losses_of []) led in
    (
      [],
      ap (λ p. p.1) same,
      subst (λ g. Reply stream can_retry (either gone (losses_of [])) (cs ++ []) g)
          (ap (λ p. p.0) same) (rw (append-nil cs) reply),
    )
rounds-Reply stream can_retry [] (goes_on s) gone q cs f rest led fed h = absurd (ground arith)
rounds-Reply stream can_retry (e ∷ es) (goes_on s) gone q cs f rest led fed h =
    let (q', step, sound, fed') = IsFed-cons e es q fed in
    let led' = Tracks-on_event e stream can_retry s cs q q' led sound step in
    let (used, split, reply) =
      rounds-Reply stream can_retry es (on_event stream can_retry e s) (losses e) q' (cs ++ chunk e)
        f rest led' fed' h in
    (
      e ∷ used,
      ap (λ xs. e ∷ xs) split,
      rw⁻¹ (append_assoc cs (chunk e) (chunks used)) (Reply-more gone _ reply),
    )

-- Where `forward` returns or panics, after events whose messages are the beginning of a response and
-- valid: if it asks for another attempt it may, and has written nothing; if it writes an error that
-- is all, with a status of 400 or more; otherwise the calls on the client's writer are one header
-- with a status from 200 to 299 and the chunks it received, all and in order, to which only a stream
-- adds the text that ends it early, while any other response is aborted unless a write of a chunk
-- failed; and it writes nothing at all only where the client gave up.
pub forward-Reply :
    (stream can_retry : Bool) (es : List Event) (f : Finish) (rest : List Event)
    → IsFed waiting es
    → forward stream can_retry es ≡ some (f, rest)
    → (used : List Event) × (es ≡ used ++ rest)
      × Reply stream can_retry (losses_of used) (chunks used) f
unfolding forward begin
forward-Reply stream can_retry es f rest fed h =
    rounds-Reply stream can_retry es (goes_on begin) (losses_of []) waiting [] f rest
      (refl, refl, refl) fed h

Ends : Round → Type 0
Ends r = (f : Finish) × (r ≡ finished f)

fail-finished :
    (stream can_retry : Bool) (code : String) (retryable : Bool) (ctx : Context) (s : Forward)
    → Ends (fail stream can_retry code retryable ctx s)
unfolding Ends fail stop
fail-finished stream can_retry code retryable ctx s =
    if-either Ends (not s.committed) _ _
      (λ _.
        if-either Ends (can_retry && (retryable && is_live ctx)) _ _ (λ _. (_, refl))
          (λ _. if-either Ends (not (is_canceled ctx)) _ _ (λ _. (_, refl)) (λ _. (_, refl))))
      (λ _. if-either Ends stream _ _ (λ _. (_, refl)) (λ _. (_, refl)))

-- The context ends, which the `select` notices at last.
abbrev pub has_done : List Event → Bool
has_done [] = false
has_done (done ctx ∷ es) = true
has_done (_ ∷ es) = has_done es

rounds-finished :
    (stream can_retry : Bool) (es : List Event) (f : Finish)
    → rounds stream can_retry es (finished f) ≡ some (f, es)
unfolding rounds
rounds-finished stream can_retry [] f = refl
rounds-finished stream can_retry (e ∷ es) f = refl

is_some-rounds :
    (stream can_retry : Bool) (es : List Event) (r : Round)
    → has_done es ≡ true
    → is_some (rounds stream can_retry es r) ≡ true
unfolding rounds on_event Ends
is_some-rounds stream can_retry es (finished f) h =
    ap is_some (rounds-finished stream can_retry es f)
is_some-rounds stream can_retry [] (goes_on s) h = ground arith
is_some-rounds stream can_retry (done ctx ∷ es) (goes_on s) h =
    let (f, e) = fail-finished stream can_retry "deadline_exceeded" false ctx s in
    ap (λ r. is_some (rounds stream can_retry es r)) e
    ∙ ap is_some (rounds-finished stream can_retry es f)
is_some-rounds stream can_retry (e ∷ es) (goes_on s) h =
    is_some-rounds stream can_retry es (on_event stream can_retry e s) h

pub is_some-forward :
    (stream can_retry : Bool) (es : List Event)
    → has_done es ≡ true
    → is_some (forward stream can_retry es) ≡ true
unfolding forward
is_some-forward stream can_retry es h = is_some-rounds stream can_retry es (goes_on begin) h
