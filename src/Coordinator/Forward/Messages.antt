-- ===== src/Coordinator/Forward/Messages.antt =====
-- What a failure and each type of message lead to, before and after the response began.
use relay_local.Prelude.{
  ℕ, ◌≡◌, refl, ap, ◌⊎◌, inl, inr, Bool, true, false, not, ◌&&◌, List, [], ◌∷◌, ◌++◌, String, map,
  if◌then◌else◌, if-either, arith,
}
use relay_local.Prelude.Int.{pos, leb_ℤ, eq_ℤ, ◌≤ℤ◌}
use relay_local.Protocol.{Message}
use relay_local.Coordinator.Attempt.Response.{Phase, waiting, streaming, over}
use relay_local.Coordinator.Forward.{
  Context, is_canceled, is_live, header, body, returned, Forward, goes_on, stop, transient, fail,
  gateway_status, is_wrong, headed, on_start, on_chunk, on_end,
}
use relay_local.Coordinator.Forward.Reply.{
  IsSuccess, ending, again, silent, refuses, whole, unsent, ends_early, breaks_off, Untouched, Open,
  Tracks, Leads, Loss, loss,
}

gateway_status-le : (code : String) → pos 400 ≤ℤ gateway_status code
gateway_status-le code = ground arith

-- A failure before anything was written.
Untouched-fail :
    (lost stream can_retry : Bool) (code : String) (retryable : Bool) (ctx : Context) (s : Forward)
    (cs : List (List ℕ)) (q : Phase)
    → Untouched s cs
    → Leads stream can_retry (loss ctx lost) q cs (fail stream can_retry code retryable ctx s)
unfolding fail stop
Untouched-fail lost stream can_retry code retryable ctx s cs q (c, w, n) =
    let Goal = Leads stream can_retry (loss ctx lost) q cs in
    rw c (
      rw w (
        if-either Goal (can_retry && (retryable && is_live ctx)) _ _
          (λ free. again (ground arith) refl)
          (λ _.
            if-either Goal (not (is_canceled ctx)) _ _
              (λ _. refuses (gateway_status code) code (gateway_status-le code) refl)
              (λ left. silent (ground arith) refl))))

-- A failure after the response began.
Open-fail :
    (stream can_retry : Bool) (code : String) (retryable : Bool) (ctx : Context) (s : Forward)
    (cs : List (List ℕ)) (gone : Loss) (q : Phase)
    → IsSuccess s.status
    → Open s cs
    → Leads stream can_retry gone q cs (fail stream can_retry code retryable ctx s)
unfolding fail stop
Open-fail true can_retry code retryable ctx s cs gone q g (c, w) =
    rw c (rw w (ends_early s.status s.content_type g refl refl))
Open-fail false can_retry code retryable ctx s cs gone q g (c, w) =
    rw c (rw w (breaks_off s.status s.content_type g refl refl))

pub Tracks-fail :
    (lost stream can_retry : Bool) (code : String) (retryable : Bool) (ctx : Context) (s : Forward)
    (cs : List (List ℕ)) (p q : Phase)
    → Tracks p s cs
    → Leads stream can_retry (loss ctx lost) q cs (fail stream can_retry code retryable ctx s)
Tracks-fail lost stream can_retry code retryable ctx s cs waiting q h =
    Untouched-fail lost stream can_retry code retryable ctx s cs q h
Tracks-fail lost stream can_retry code retryable ctx s cs (streaming n) q (g, inl h) =
    Untouched-fail lost stream can_retry code retryable ctx s cs q h
Tracks-fail lost stream can_retry code retryable ctx s cs (streaming n) q (g, inr h) =
    Open-fail stream can_retry code retryable ctx s cs (loss ctx lost) q g h
Tracks-fail lost stream can_retry code retryable ctx s cs over q h = absurd h

pub Tracks-on_start :
    (lost stream can_retry : Bool) (m : Message) (ctx : Context) (s : Forward) (cs : List (List ℕ))
    → pos 200 ≤ℤ m.status
    → Untouched s cs
    → Leads stream can_retry (loss ctx lost) (streaming 0) cs (on_start stream can_retry m ctx s)
unfolding on_start stop
Tracks-on_start lost stream can_retry m ctx s cs low (c, w, n) =
    let Goal = Leads stream can_retry (loss ctx lost) (streaming 0) cs in
    if-either Goal (transient m.status && can_retry) _ _
      (λ h. again (ground arith) (ap (ending (returned true) false) w))
      (λ _.
        if-either Goal (leb_ℤ (pos 400) m.status) _ _
          (λ h. rw w (refuses m.status "backend_rejected" (ground arith) refl))
          (λ _.
            if-either Goal (is_wrong stream m) _ (goes_on (headed m s))
              (λ _. Untouched-fail lost stream can_retry _ true ctx _ cs (streaming 0) (c, w, n))
              (λ h. ((low, ground arith), inl (c, w, n)))))

map-snoc :
    {A B : Type 0} (f : A → B) (xs : List A) (x : A)
    → map f (xs ++ (x ∷ [])) ≡ map f xs ++ (f x ∷ [])
map-snoc f [] x = refl
map-snoc f (y ∷ xs) x = ap (λ r. f y ∷ r) (map-snoc f xs x)

-- The calls after a chunk.
Open-chunk :
    (m : Message) (s : Forward) (cs : List (List ℕ))
    → Untouched s cs ⊎ Open s cs
    → s.writes
        ++ ((if s.committed then [] else header s.status s.content_type ∷ [])
            ++ (body m.bytes ∷ []))
      ≡ header s.status s.content_type ∷ map body (cs ++ (m.bytes ∷ []))
Open-chunk m s cs (inl (c, w, n)) = rw c (rw w (rw n refl))
Open-chunk m s cs (inr (c, w)) = rw c (rw w (rw (map-snoc body cs m.bytes) refl))

pub Tracks-on_chunk :
    (stream can_retry : Bool) (m : Message) (sent : Bool) (ctx : Context) (s : Forward)
    (cs : List (List ℕ)) (k : ℕ)
    → IsSuccess s.status
    → Untouched s cs ⊎ Open s cs
    → Leads stream can_retry
        (loss ctx (not sent))
        (streaming k)
        (cs ++ (m.bytes ∷ []))
        (on_chunk stream can_retry m sent ctx s)
unfolding on_chunk stop
Tracks-on_chunk stream can_retry m sent ctx s cs k g t =
    let Goal = Leads stream can_retry (loss ctx (not sent)) (streaming k) (cs ++ (m.bytes ∷ [])) in
    let writes = Open-chunk m s cs t in
    if-either Goal (eq_ℤ s.status (pos 0)) _ _ (λ h. absurd (ground arith))
      (λ _.
        if-either Goal sent _ _ (λ _. (g, inr (refl, writes)))
          (λ h.
            unsent s.status s.content_type g (ground arith)
              (ap (ending (returned false) false) writes)))

pub Tracks-on_end :
    (lost stream can_retry : Bool) (ctx : Context) (s : Forward) (cs : List (List ℕ))
    → IsSuccess s.status
    → Untouched s cs ⊎ Open s cs
    → Leads stream can_retry (loss ctx lost) over cs (on_end stream can_retry ctx s)
unfolding on_end
Tracks-on_end lost stream can_retry ctx s cs g (inl h) =
    let Goal = Leads stream can_retry (loss ctx lost) over cs in
    if-either Goal (not s.committed) _ _
      (λ _. Untouched-fail lost stream can_retry _ true ctx s cs over h)
      (λ k. absurd (ground arith))
Tracks-on_end lost stream can_retry ctx s cs g (inr (c, w)) =
    rw c (rw w (whole s.status s.content_type g refl))
