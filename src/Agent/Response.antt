-- ===== src/Agent/Response.antt =====
-- That what an agent sends for a request is a response as the coordinator takes it.
use Prim.Native.String.{len}
use relay_local.Prelude.{
  ℕ, ◌+◌, ◌≤◌, ◌≡◌, refl, ap, ◌∙◌, Bool, true, false, not, ◌&&◌, ◌||◌, Option, none, some, List, [],
  ◌∷◌, ◌++◌, String, length, All, All-snoc, if-either, ltb, str_eq, is_some, arith,
}
use relay_local.Prelude.Int.{pos, ltb_ℤ, leb_ℤ}
use relay_local.Protocol.{Kind.error, Message, Json, chunk_bytes, validate, valid_usage}
use relay_local.Coordinator.Attempt.Response.{
  Phase, waiting, streaming, over, advance, advance_by, replay, replay-snoc,
}
use relay_local.Agent.{
  Ended, live, deadline_exceeded, canceled, ReadError, eof, broken, Read, Exchange, Sent, start_of,
  chunk_of, failure, success, concluded, at_end, prepend, after_read, body_of, conclude, answer_of,
  execute,
}
use relay_local.Agent.Terminal.{
  IsValid, IsValid-start, IsValid-chunk, IsTerminal, succeeds, IsTerminal-failure,
  concluded-IsTerminal, IsTerminal-IsValid,
}

error_any_seq : (n : ℕ) (p : Phase) → advance_by error n p ≡ advance_by error 0 p
unfolding advance_by
error_any_seq n waiting = refl
error_any_seq n (streaming k) = refl
error_any_seq n over = refl

module _ (json : Json) (id : String) (named : str_eq id "" ≡ false)
    (short : ltb 128 (len id) ≡ false) where
  -- Messages that follow on a phase, and a last one that ends the response.
  record IsAnswer (p : Phase) (ms : List Message) (t : Message) : Type 0 where
    phase : Phase
    plays : replay (some p) ms ≡ some phase
    ends : advance t (some phase) ≡ some over
    still : advance (failure id "x" false []) (some phase) ≡ some over
    valid : All (IsValid json id named short) ms
    terminal : IsTerminal json id named short t

  Answered : Phase → Option (List Message × Message) → Type 0
  Answered p o = (ms : List Message) × (t : Message) × (o ≡ some (ms, t)) × IsAnswer p ms t

  Answered-failure :
      (p : Phase) (code : String) (retryable : Bool) (usage : List ℕ)
      → advance (failure id "x" false []) (some p) ≡ some over
      → IsTerminal json id named short (failure id code retryable usage)
      → Answered p (some ([], failure id code retryable usage))
  unfolding Answered replay advance
  Answered-failure p code retryable usage h t = (
    [],
    failure id code retryable usage,
    refl,
    record { phase = p; plays = refl; ends = h; still = h; valid = tt; terminal = t },
  )

  Answered-success :
      (n : ℕ) (usage : List ℕ)
      → valid_usage json usage ≡ true
      → Answered (streaming n) (some ([], success id usage))
  unfolding Answered replay advance advance_by
  Answered-success n usage c = (
    [],
    success id usage,
    refl,
    record {
      phase = streaming n;
      plays = refl;
      ends = refl;
      still = refl;
      valid = tt;
      terminal = succeeds usage refl c;
    },
  )

  Answered-prepend :
      (m : Message) (p q : Phase) (o : Option (List Message × Message))
      → advance m (some p) ≡ some q
      → IsValid json id named short m
      → Answered q o
      → Answered p (prepend m o)
  unfolding Answered replay
  Answered-prepend m p q o step v (ms, t, e, a) = (
    m ∷ ms,
    t,
    ap (prepend m) e,
    record {
      phase = a.phase;
      plays = ap (λ r. replay r ms) step ∙ a.plays;
      ends = a.ends;
      still = a.still;
      valid = (v, a.valid);
      terminal = a.terminal;
    },
  )

  at_end-Answered :
      (x : Exchange) (n : ℕ) (err : ReadError)
      → valid_usage json x.usage ≡ true
      → Answered (streaming n) (some ([], at_end id x err))
  unfolding at_end advance advance_by
  at_end-Answered x n broken c =
      Answered-failure (streaming n) "stream_interrupted" true x.usage refl
        (IsTerminal-failure json id named short "stream_interrupted" true x.usage refl refl c)
  at_end-Answered x n eof c =
      if-either (λ t. Answered (streaming n) (some ([], t))) _ _ _
        (λ _.
          Answered-failure (streaming n) "stream_interrupted" true x.usage refl
            (IsTerminal-failure json id named short "stream_interrupted" true x.usage refl refl c))
        (λ _. Answered-success n x.usage c)

  after_read-Answered :
      (x : Exchange) (n : ℕ) (err : Option ReadError) (rest : Option (List Message × Message))
      → valid_usage json x.usage ≡ true
      → (is_some err ≡ false → Answered (streaming n) rest)
      → Answered (streaming n) (after_read id x err rest)
  after_read-Answered x n none rest c more = more refl
  after_read-Answered x n (some err) rest c more = at_end-Answered x n err c

  -- Some read ends the body.
  abbrev pub has_end : List Read → Bool
  has_end [] = false
  has_end (r ∷ rs) = is_some r.err || has_end rs

  abbrev pub IsBuffered : List Read → Type 0
  IsBuffered rs = All (λ (r : Read). length r.bytes ≤ chunk_bytes) rs

  body_of-Answered :
      (x : Exchange) (n : ℕ) (rs : List Read)
      → valid_usage json x.usage ≡ true
      → valid_usage json [] ≡ true
      → IsBuffered rs
      → has_end rs ≡ true
      → Answered (streaming n) (body_of id x n rs)
  unfolding body_of advance advance_by
  body_of-Answered x n [] c d b h = absurd (ground arith)
  body_of-Answered x n (r ∷ rs) c d (b, bs) h =
      let rest : (k : ℕ) → is_some r.err ≡ false → Answered (streaming k) (body_of id x k rs) =
        λ k no_error. body_of-Answered x k rs c d bs (ground arith) in
      let Goal = Answered (streaming n) in
      if-either Goal (ltb 0 (length r.bytes)) _ _
        (λ full.
          if-either Goal r.sent _ _
            (λ _.
              Answered-prepend (chunk_of id (n + 1) r.bytes) (streaming n) (streaming (n + 1)) _
                (ground arith) (IsValid-chunk json id named short n r.bytes full b)
                (after_read-Answered x (n + 1) r.err _ c (rest (n + 1))))
            (λ _.
              Answered-failure (streaming n) "backend_failed" true [] refl
                (IsTerminal-failure json id named short "backend_failed" true [] refl refl d)))
        (λ _. after_read-Answered x n r.err _ c (rest n))

  answer_of-Answered :
      (x : Exchange)
      → valid_usage json x.usage ≡ true
      → IsBuffered x.reads
      → has_end x.reads ≡ true
      → ltb_ℤ (pos 599) x.status ≡ false
      → Answered waiting (answer_of id x)
  unfolding answer_of advance advance_by valid_usage
  answer_of-Answered x c b h top =
      let Goal = Answered waiting in
      let fails_with : (code : String)
          → str_eq code "" ≡ false
          → ltb 64 (len code) ≡ false
          → Goal (some ([], failure id code true [])) =
        λ code v w.
          Answered-failure waiting code true [] refl
            (IsTerminal-failure json id named short code true [] v w refl) in
      if-either Goal x.start_expired _ _ (λ _. fails_with "start_timeout" refl refl)
        (λ _.
          if-either Goal x.chat_fails _ _ (λ _. fails_with "backend_failed" refl refl)
            (λ _.
              if-either Goal (leb_ℤ (pos 400) x.status) _ _
                (λ high.
                  if-either Goal x.start_sent _ _
                    (λ _.
                      Answered-prepend (start_of id x.status "application/json") waiting
                        (streaming 0) (some ([], success id [])) refl
                        (IsValid-start json id named short x.status "application/json"
                          (ground arith) top refl)
                        (Answered-success 0 [] refl))
                    (λ _. fails_with "backend_failed" refl refl))
                (λ _.
                  if-either Goal
                    (not (str_eq x.content_type "text/event-stream")
                      && not (str_eq x.content_type "application/json"))
                    _ _ (λ _. fails_with "invalid_backend_response" refl refl)
                    (λ kind.
                      if-either Goal (ltb_ℤ x.status (pos 200) || ltb_ℤ (pos 599) x.status) _ _
                        (λ _. fails_with "invalid_backend_response" refl refl)
                        (λ range.
                          if-either Goal x.start_sent _ _
                            (λ _.
                              Answered-prepend (start_of id x.status x.content_type) waiting
                                (streaming 0) (body_of id x 0 x.reads) refl
                                (IsValid-start json id named short x.status x.content_type
                                  (ground arith) top kind)
                                (body_of-Answered x 0 x.reads c refl b h))
                            (λ _. fails_with "backend_failed" refl refl))))))

  advance-concluded :
      (ended : Ended) (t : Message) (p : Phase)
      → advance t (some p) ≡ some over
      → advance (failure id "x" false []) (some p) ≡ some over
      → advance (concluded ended t) (some p) ≡ some over
  unfolding concluded advance
  advance-concluded live t p e s = e
  advance-concluded canceled t p e s = error_any_seq t.seq p ∙ s
  advance-concluded deadline_exceeded t p e s = error_any_seq t.seq p ∙ s

  -- If the attempt's id is one that the protocol accepts, every read fits the buffer, some read ends
  -- the body, the observer's usage is valid, and the backend answers with a status of at most 599, then
  -- `execute` returns, and the messages sent are a response that is over with the last one, each of
  -- them one that the coordinator accepts.
  pub execute-IsOver :
      (x : Exchange)
      → valid_usage json x.usage ≡ true
      → IsBuffered x.reads
      → has_end x.reads ≡ true
      → ltb_ℤ (pos 599) x.status ≡ false
      → (r : Sent) × (execute id x ≡ some r)
        × (replay (some waiting) (r.before ++ (r.terminal ∷ [])) ≡ some over)
        × All (λ m. validate json m ≡ none) (r.before ++ (r.terminal ∷ []))
  unfolding execute Answered
  execute-IsOver x c b h top =
      let (ms, t, e, a) = answer_of-Answered x c b h top in
      let last = concluded x.ended t in
      (
        _,
        ap (conclude x.ended) e,
        replay-snoc (some waiting) ms last
            ∙ ap (advance last) a.plays
            ∙ advance-concluded x.ended t a.phase a.ends a.still,
        All-snoc (IsValid json id named short) ms last a.valid (
            IsTerminal-IsValid json id named short last
              (concluded-IsTerminal json id named short x.ended t a.terminal)),
      )
