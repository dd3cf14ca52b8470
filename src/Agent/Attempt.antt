-- ===== src/Agent/Attempt.antt =====
-- The last message of `execute` of internal/agent/agent.go names the attempt that it ends.
use relay_local.Prelude.{
  ℕ, ◌+◌, ◌≡◌, refl, sym, ap, ◌∙◌, true, not, ◌&&◌, ◌||◌, Option, none, some, List, [], ◌∷◌, String,
  length, if-either, ltb, str_eq, arith,
}
use relay_local.Prelude.Int.{pos, ltb_ℤ, leb_ℤ}
use relay_local.Protocol.{Message}
use mathlib.Core.Option.{some-injective}
use relay_local.Agent.{
  Ended, live, canceled, deadline_exceeded, ReadError, eof, broken, Read, Exchange, Sent, failure,
  success, concluded, at_end, prepend, after_read, body_of, conclude, answer_of, execute,
}

abbrev EndsAs : String → Option (List Message × Message) → Type 0
EndsAs id none = Unit
EndsAs id (some (ms, t)) = t.attempt_id ≡ id

EndsAs-prepend :
    (id : String) (m : Message) (o : Option (List Message × Message))
    → EndsAs id o
    → EndsAs id (prepend m o)
EndsAs-prepend id m none h = tt
EndsAs-prepend id m (some (ms, t)) h = h

at_end-attempt_id : (id : String) (x : Exchange) (e : ReadError) → (at_end id x e).attempt_id ≡ id
unfolding at_end
at_end-attempt_id id x broken = refl
at_end-attempt_id id x eof =
    if-either (λ (m : Message). m.attempt_id ≡ id) _ (failure id "stream_interrupted" true x.usage)
      (success id x.usage) (λ _. refl) (λ _. refl)

EndsAs-after_read :
    (id : String) (x : Exchange) (e : Option ReadError) (o : Option (List Message × Message))
    → EndsAs id o
    → EndsAs id (after_read id x e o)
EndsAs-after_read id x none o h = h
EndsAs-after_read id x (some e) o h = at_end-attempt_id id x e

body_of-EndsAs :
    (id : String) (x : Exchange) (seq : ℕ) (rs : List Read) → EndsAs id (body_of id x seq rs)
unfolding body_of
body_of-EndsAs id x seq [] = tt
body_of-EndsAs id x seq (r ∷ rs) =
    if-either (EndsAs id) (ltb 0 (length r.bytes)) _ _
      (λ _.
        if-either (EndsAs id) r.sent _ _
          (λ _.
            EndsAs-prepend id _ _
              (EndsAs-after_read id x r.err _ (body_of-EndsAs id x (seq + 1) rs)))
          (λ _. refl))
      (λ _. EndsAs-after_read id x r.err _ (body_of-EndsAs id x seq rs))

answer_of-EndsAs : (id : String) (x : Exchange) → EndsAs id (answer_of id x)
unfolding answer_of
answer_of-EndsAs id x =
    if-either (EndsAs id) x.start_expired _ _ (λ _. refl)
      λ _.
        if-either (EndsAs id) x.chat_fails _ _ (λ _. refl)
          λ _.
            if-either (EndsAs id) (leb_ℤ (pos 400) x.status) _ _
              (λ _. if-either (EndsAs id) x.start_sent _ _ (λ _. refl) (λ _. refl))
              λ _.
                if-either (EndsAs id)
                  (not (str_eq x.content_type "text/event-stream")
                    && not (str_eq x.content_type "application/json"))
                  _ _ (λ _. refl)
                  λ _.
                    if-either (EndsAs id) (ltb_ℤ x.status (pos 200) || ltb_ℤ (pos 599) x.status) _ _
                      (λ _. refl)
                      λ _.
                        if-either (EndsAs id) x.start_sent _ _
                          (λ _. EndsAs-prepend id _ _ (body_of-EndsAs id x 0 x.reads)) (λ _. refl)

concluded-attempt_id : (ended : Ended) (t : Message) → (concluded ended t).attempt_id ≡ t.attempt_id
unfolding concluded
concluded-attempt_id live t = refl
concluded-attempt_id canceled t = refl
concluded-attempt_id deadline_exceeded t = refl

conclude-attempt_id :
    (id : String) (ended : Ended) (o : Option (List Message × Message)) (r : Sent)
    → EndsAs id o
    → conclude ended o ≡ some r
    → r.terminal.attempt_id ≡ id
conclude-attempt_id id ended none r h e = ground arith
conclude-attempt_id id ended (some (ms, t)) r h e =
    ap (λ (r : Sent). r.terminal.attempt_id) (sym (some-injective _ _ e))
    ∙ (concluded-attempt_id ended t ∙ h)

pub execute-attempt_id :
    (id : String) (x : Exchange) (r : Sent) → execute id x ≡ some r → r.terminal.attempt_id ≡ id
unfolding execute
execute-attempt_id id x r e =
    conclude-attempt_id id x.ended (answer_of id x) r (answer_of-EndsAs id x) e
