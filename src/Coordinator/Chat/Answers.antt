-- ===== src/Coordinator/Chat/Answers.antt =====
-- That `chat` of internal/coordinator/chat.go always answers, once, after at most two attempts.
use relay_local.Prelude.{
  ◌≤◌, Option-cases, ℕ, ◌≡◌, refl, ap, sym, subst, ◌∙◌, inl, inr, Bool, true, false, not, ◌&&◌,
  ◌||◌, Option, none, some, List, [], ◌∷◌, ◌++◌, String, length, map, if-either, ◌==◌, str_eq,
  arith,
}
use relay_local.Prelude.Int.{ℤ, pos, ltb_ℤ, ◌≤ℤ◌}
use relay_local.Coordinator.Job.{Job, new_job}
use relay_local.Coordinator.Forward.{
  is_live, Event, Write, api_error, header, body, interrupted, Finish, forward,
}
use relay_local.Coordinator.Forward.Reply.{
  IsSuccess, Loss, Reply, again, silent, refuses, whole, unsent, ends_early, breaks_off,
}
use relay_local.Coordinator.Forward.Rounds.{
  chunks, has_done, any_gives_up, losses_of, forward-Reply, is_some-forward,
}
use relay_local.Coordinator.Delivery.{IsDelivered, IsDelivered-IsFed}
use relay_local.Coordinator.Select.{Coordinator}
use relay_local.Coordinator.Select.Found.{select_job-take}
use relay_local.Protocol.Catalog.{IsDistinct}
use relay_local.Coordinator.Chat.{
  Request, Decoder, World, Response, respond, millisecond, ended, after_forward, attempt_with,
  attempts, has_messages, answer, chat,
}

-- One error, or one header and chunks of a body; nothing only where the client gave up, in one of
-- the attempts.
pub data IsOneReply (gone : Type 0) (r : Response) : Type 0 where
  nothing : gone → r.writes ≡ [] → IsOneReply gone r
  one_error :
      (s : ℤ) (code : String)
      → pos 400 ≤ℤ s
      → r.writes ≡ api_error s code ∷ []
      → r.panicked ≡ false
      → IsOneReply gone r
  one_body :
      (s : ℤ) (t : String) (cs : List (List ℕ))
      → IsSuccess s
      → r.writes ≡ header s t ∷ map body cs
      → IsOneReply gone r
  cut_stream :
      (s : ℤ) (t : String) (cs : List (List ℕ))
      → IsSuccess s
      → r.writes ≡ header s t ∷ map body cs ++ (interrupted ∷ [])
      → r.panicked ≡ false
      → IsOneReply gone r

-- The messages of each attempt come through a run of it, and its context ends at some time.
pub record IsServing (w : World) : Type 0 where
  pub delivered : (i : ℕ) → IsDelivered (w.events i)
  pub ends : (i : ℕ) → has_done (w.events i) ≡ true

abbrev pub Gone : World → Type 0
Gone w = (i : ℕ) × (any_gives_up (w.events i) ≡ true)

-- The hosts that were asked: two at most, and different.
abbrev pub IsSpread : List String → Type 0
IsSpread hosts = IsDistinct hosts × (length hosts ≤ 2)

abbrev pub Answers : World → Option Response → Type 0
Answers w o = (r : Response) × (o ≡ some r) × IsOneReply (Gone w) r × IsSpread r.asked

module _ (w : World) where
  error-Answers :
      (s : ℤ) (code : String) (asked : List String)
      → pos 400 ≤ℤ s
      → IsSpread asked
      → Answers w (respond (api_error s code ∷ []) asked)
  error-Answers s code asked low spread = (_, refl, one_error s code low refl refl, spread)

  ended_at :
      (next : List Write → Option Response) (asked : List String) {f g : Finish}
      → f ≡ g
      → Answers w (ended next g.outcome g.writes asked)
      → Answers w (ended next f.outcome f.writes asked)
  ended_at next asked e =
      subst (λ (f : Finish). Answers w (ended next f.outcome f.writes asked)) (sym e)

  Reply-ended :
      (again : List Write → Option Response) (stream can_retry : Bool) (gone : Loss)
      (cs : List (List ℕ)) (f : Finish) (asked : List String)
      → Reply stream can_retry gone cs f
      → (gone.gave_up ≡ true → Gone w)
      → IsSpread asked
      → (can_retry ≡ true → Answers w (again []))
      → Answers w (ended again f.outcome f.writes asked)
  unfolding ended
  Reply-ended next stream can_retry gone cs f asked (again c e) g spread more =
      ended_at next asked e (more c)
  Reply-ended next stream can_retry gone cs f asked (silent c e) g spread more =
      ended_at next asked e (_, refl, nothing (g c) refl, spread)
  Reply-ended next stream can_retry gone cs f asked (refuses s code low e) g spread more =
      ended_at next asked e (error-Answers s code asked low spread)
  Reply-ended next stream can_retry gone cs f asked (whole s t ok e) g spread more =
      ended_at next asked e (_, refl, one_body s t cs ok refl, spread)
  Reply-ended next stream can_retry gone cs f asked (unsent s t ok l e) g spread more =
      ended_at next asked e (_, refl, one_body s t cs ok refl, spread)
  Reply-ended next stream can_retry gone cs f asked (ends_early s t ok live e) g spread more =
      ended_at next asked e (_, refl, cut_stream s t cs ok refl refl, spread)
  Reply-ended next stream can_retry gone cs f asked (breaks_off s t ok one e) g spread more =
      ended_at next asked e (_, refl, one_body s t cs ok refl, spread)

  any_gives_up-left :
      (used rest : List Event) → any_gives_up used ≡ true → any_gives_up (used ++ rest) ≡ true
  any_gives_up-left [] rest h = ground arith
  any_gives_up-left (e ∷ used) rest h = ground (arith, any_gives_up-left used rest)

  after_forward-Answers :
      (loop : List Write → Option Response) (stream can_retry : Bool) (i : ℕ) (asked : List String)
      → IsServing w
      → IsSpread asked
      → (can_retry ≡ true → Answers w (loop []))
      → Answers w (after_forward loop (forward stream can_retry (w.events i)) [] asked)
  unfolding after_forward
  after_forward-Answers loop stream can_retry i asked v spread more =
      elim (Option-cases (forward stream can_retry (w.events i))) [
        | inl waits ↦
            absurd (ground (arith, is_some-forward stream can_retry (w.events i) (v.ends i), waits))
        | inr ((f, rest), e) ↦
            let (used, split, reply) =
              forward-Reply stream can_retry (w.events i) f rest
                (IsDelivered-IsFed (w.events i) (v.delivered i)) e in
            let gone : any_gives_up used ≡ true → Gone w =
              λ g. (i, ap any_gives_up split ∙ any_gives_up-left used rest g) in
            subst (λ o. Answers w (after_forward loop o [] asked)) (sym e)
              (Reply-ended loop stream can_retry (losses_of used) (chunks used) f asked reply gone
                spread more)
      ]

  attempt_with-Answers :
      (r : Request) (i : ℕ) (loop : Job → List String → List Write → Option Response)
      (o : Option (Job × Coordinator)) (asked : List String)
      → IsServing w
      → IsSpread asked
      → ((j : Job) (s : Coordinator) → o ≡ some (j, s) → IsSpread (asked ++ (j.host ∷ [])))
      → ((j : Job) (s : Coordinator)
          → o ≡ some (j, s)
          → (i == 0) ≡ true
          → Answers w (loop j (asked ++ (j.host ∷ [])) []))
      → Answers w (attempt_with r w i loop o [] asked)
  unfolding attempt_with
  attempt_with-Answers r i loop none asked v spread wider more =
      error-Answers (pos 503) "no_capacity" asked (ground arith) spread
  attempt_with-Answers r i loop (some (j, s)) asked v spread wider more =
      let hosts = asked ++ (j.host ∷ []) in
      if-either (Answers w) (ltb_ℤ (w.remaining i) millisecond) _ _
        (λ _. error-Answers (pos 504) "deadline_exceeded" asked (ground arith) spread)
        (λ _.
          if-either (Answers w) (not (w.sends i)) _ _
            (λ _.
              if-either (Answers w) ((i == 0) && is_live (w.context i)) _ _
                (λ first. more j s refl (ground arith))
                (λ _.
                  error-Answers (pos 502) "host_disconnected" hosts (ground arith)
                    (wider j s refl)))
            (λ _.
              after_forward-Answers (loop j hosts) r.stream (i == 0) i hosts v (wider j s refl)
                (more j s refl)))

  -- The second attempt goes to another host, and is the last.
  second-Answers :
      (r : Request) (p : Job) → IsServing w → Answers w (attempts r w 1 1 (some p) [] (p.host ∷ []))
  unfolding attempts new_job
  second-Answers r p v =
      attempt_with-Answers r 1 _ _ (p.host ∷ []) v (((tt, tt)), omega arith)
        (λ j s e.
          let ((h, b, m, c, is), _) = select_job-take _ _ _ _ _ _ j s e in
          (
            ((λ same. c.other (ap (λ (j : Job). j.host) (sym is) ∙ sym same), tt), (tt, tt)),
            omega arith,
          ))
        (λ j s e last. absurd (ground arith))

  -- Both attempts.
  attempts-Answers : (r : Request) → IsServing w → Answers w (attempts r w 2 0 none [] [])
  unfolding attempts
  attempts-Answers r v =
      attempt_with-Answers r 0 _ _ [] v (tt, omega arith) (λ j s e. ((tt, tt), omega arith))
        (λ j s e _. second-Answers r j v)

  answer-Answers : (d : Decoder) (o : Option Request) → IsServing w → Answers w (answer d w o)
  unfolding answer
  answer-Answers d none v =
      error-Answers (pos 400) "invalid_request" [] (ground arith) (tt, omega arith)
  answer-Answers d (some r) v =
      if-either (Answers w) (str_eq r.model "" || (length r.messages == 0)) _ _
        (λ _. error-Answers (pos 400) "invalid_request" [] (ground arith) (tt, omega arith))
        (λ _.
          if-either (Answers w) (not (has_messages (d.elements r.messages))) _ _
            (λ _. error-Answers (pos 400) "invalid_messages" [] (ground arith) (tt, omega arith))
            (λ _. attempts-Answers r v))

-- If the messages of each attempt come from a host through some run of it, and each context ends at
-- some time, then `chat` returns or panics, for every body, after it asked at most two hosts, which
-- are different; and the client gets one reply: an error alone, with a status of 400 or more; or one
-- header with a status from 200 to 299 and chunks of a body, after which a stream may end early; or
-- nothing at all, where the client gave up.
pub chat-Answers :
    (d : Decoder) (w : World) (body : Option (List ℕ)) → IsServing w → Answers w (chat d w body)
unfolding chat
chat-Answers d w none v =
    error-Answers w (pos 413) "request_too_large" [] (ground arith) (tt, omega arith)
chat-Answers d w (some bytes) v = answer-Answers w d (d.request bytes) v
