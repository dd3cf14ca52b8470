-- ===== src/Coordinator/Attempt/Response.antt =====
-- What the messages of a response look like in order, apart from the code: a start, chunks counted
-- from one, and an end; an error may take the place of any of them but the first message after an end.
use relay_local.Prelude.{
  ℕ, ◌+◌, ◌^◌, ◌<◌, ◌≡◌, ◌≢◌, refl, ap, Bool, true, false, not, Option, none, some, List, [], ◌∷◌,
  ◌++◌, if◌then◌else◌, ◌==◌, arith,
}
use relay_local.Protocol.{
  Kind, Kind.response_start, Kind.response_chunk, Kind.response_end, Kind.error, Message,
}
use relay_local.Coordinator.Job.{Job}
use relay_local.Coordinator.Attempt.{is_terminal, check_order}

pub data Phase : Type 0 where
  waiting : Phase
  streaming : ℕ → Phase
  over : Phase

unfoldable pub advance_by : Kind → ℕ → Phase → Option Phase
advance_by response_start n waiting = some (streaming 0)
advance_by response_chunk n (streaming k) = if n == (k + 1) then some (streaming n) else none
advance_by response_end n (streaming k) = some over
advance_by error n waiting = some over
advance_by error n (streaming k) = some over
advance_by _ n _ = none

unfoldable pub advance : Message → Option Phase → Option Phase
advance m none = none
advance m (some p) = advance_by m.kind m.seq p

-- The phase after some messages, or none where they are no response.
unfoldable pub replay : Option Phase → List Message → Option Phase
replay p [] = p
replay p (m ∷ ms) = replay (advance m p) ms

abbrev pub IsResponse : List Message → Type 0
IsResponse ms = (p : Phase) × (replay (some waiting) ms ≡ some p)

pub replay-append :
    (p : Option Phase) (ms ns : List Message) → replay p (ms ++ ns) ≡ replay (replay p ms) ns
unfolding replay
replay-append p [] ns = refl
replay-append p (m ∷ ms) ns = replay-append (advance m p) ms ns

pub replay-snoc :
    (p : Option Phase) (ms : List Message) (m : Message)
    → replay p (ms ++ (m ∷ [])) ≡ advance m (replay p ms)
unfolding replay
replay-snoc p ms m = replay-append p ms (m ∷ [])

pub replay-none : (ms : List Message) → replay none ms ≡ none
unfolding replay advance
replay-none [] = refl
replay-none (m ∷ ms) = replay-none ms

-- The first messages of a response are one.
pub append-IsResponse : (ms ns : List Message) → IsResponse (ms ++ ns) → IsResponse ms
append-IsResponse ms ns (p, h) = from (replay (some waiting) ms) refl
  where
    from : (q : Option Phase) → replay (some waiting) ms ≡ q → IsResponse ms
    from none e =
        absurd (cc (h, replay-append (some waiting) ms ns, ap (λ q. replay q ns) e, replay-none ns))
    from (some q) e = (q, e)

-- The phase that the coordinator keeps in the job's fields.
abbrev pub phase_of : Bool → Bool → ℕ → Phase
phase_of pending started seq =
    if pending then (if started then streaming seq else waiting) else over

-- The four types that `connect` hands to `deliver`.
abbrev pub is_reply : Kind → Bool
is_reply response_start = true
is_reply response_chunk = true
is_reply response_end = true
is_reply error = true
is_reply _ = false

abbrev pub IsCounted : Kind → ℕ → Type 0
IsCounted response_chunk n = n ≢ 0
IsCounted _ n = Unit

-- The chunks are counted from zero and the counter has 64 bits.
abbrev pub IsNumbered : Job → Type 0
IsNumbered j = (j.seq < 2 ^ 64) × (j.started ≡ false → j.seq ≡ 0)

pub check_order-IsNumbered :
    (kind : Kind) (m : Message) (j k : Job)
    → IsNumbered j
    → check_order kind m j ≡ some k
    → IsNumbered k
unfolding check_order
check_order-IsNumbered response_start m j k n h = ground arith
check_order-IsNumbered response_chunk m j k n h = ground arith
check_order-IsNumbered response_end m j k n h = ground arith
check_order-IsNumbered _ m j k n h = ground arith

-- The checks of `deliver` let through what the phase allows.
pub check_order-advance :
    (kind : Kind) (m : Message) (j k : Job)
    → is_reply kind ≡ true
    → IsCounted kind m.seq
    → IsNumbered j
    → check_order kind m j ≡ some k
    → advance_by kind m.seq (phase_of true j.started j.seq)
      ≡ some (phase_of (not (is_terminal kind)) k.started k.seq)
unfolding check_order advance_by
check_order-advance response_start m j k r c b h = ground arith
check_order-advance response_chunk m j k r c b h = ground arith
check_order-advance response_end m j k r c b h = ground arith
check_order-advance error m j k r c b h = ground arith
check_order-advance _ m j k r c b h = ground arith
