-- ===== src/Coordinator/Forward/Reply.antt =====
-- What a client may get from one attempt.
use relay_local.Prelude.{ℕ, ◌≡◌, ◌⊎◌, Bool, true, false, ◌||◌, List, [], ◌∷◌, ◌++◌, String, map}
use relay_local.Prelude.Int.{ℤ, pos, ◌≤ℤ◌}
use relay_local.Coordinator.Attempt.Response.{Phase, waiting, streaming, over}
use relay_local.Coordinator.Forward.{
  Write, api_error, header, body, interrupted, Outcome, returned, aborted, Forward, Finish, Round,
  goes_on, finished, Context, is_canceled,
}

abbrev pub IsSuccess : ℤ → Type 0
IsSuccess s = (pos 200 ≤ℤ s) × (s ≤ℤ pos 299)

abbrev pub ending : Outcome → Bool → List Write → Finish
ending outcome completed writes = record {
  outcome = outcome;
  completed = completed;
  writes = writes;
}

-- What became of the client: it gave up, or a call of `Write` or `Flush` failed.
pub record Loss : Type 0 where
  pub gave_up : Bool
  pub unwritten : Bool

abbrev pub either : Loss → Loss → Loss
either a b = record { gave_up = a.gave_up || b.gave_up; unwritten = a.unwritten || b.unwritten }

abbrev pub loss : Context → Bool → Loss
loss ctx unwritten = record { gave_up = is_canceled ctx; unwritten = unwritten }

-- `cs` are the chunks that arrived and `gone` what became of the client. An attempt that may be
-- followed by another has written nothing; a response has one status from 200 to 299, and then
-- the chunks in their order and nothing else, but for the text that ends a stream early.
pub data Reply (stream : Bool) (can_retry : Bool) (gone : Loss) (cs : List (List ℕ)) (f : Finish)
    : Type 0 where
  again : can_retry ≡ true → f ≡ ending (returned true) false [] → Reply stream can_retry gone cs f
  silent :
      gone.gave_up ≡ true → f ≡ ending (returned false) false [] → Reply stream can_retry gone cs f
  refuses :
      (s : ℤ) (code : String)
      → pos 400 ≤ℤ s
      → f ≡ ending (returned false) false (api_error s code ∷ [])
      → Reply stream can_retry gone cs f
  whole :
      (s : ℤ) (t : String)
      → IsSuccess s
      → f ≡ ending (returned false) true (header s t ∷ map body cs)
      → Reply stream can_retry gone cs f
  unsent :
      (s : ℤ) (t : String)
      → IsSuccess s
      → gone.unwritten ≡ true
      → f ≡ ending (returned false) false (header s t ∷ map body cs)
      → Reply stream can_retry gone cs f
  ends_early :
      (s : ℤ) (t : String)
      → IsSuccess s
      → stream ≡ true
      → f ≡ ending (returned false) false (header s t ∷ map body cs ++ (interrupted ∷ []))
      → Reply stream can_retry gone cs f
  breaks_off :
      (s : ℤ) (t : String)
      → IsSuccess s
      → stream ≡ false
      → f ≡ ending aborted false (header s t ∷ map body cs)
      → Reply stream can_retry gone cs f

abbrev pub Untouched : Forward → List (List ℕ) → Type 0
Untouched s cs = (s.committed ≡ false) × (s.writes ≡ []) × (cs ≡ [])

abbrev pub Open : Forward → List (List ℕ) → Type 0
Open s cs = (s.committed ≡ true) × (s.writes ≡ header s.status s.content_type ∷ map body cs)

-- The state of the loop after the messages of a phase, `cs` the chunks among them.
abbrev pub Tracks : Phase → Forward → List (List ℕ) → Type 0
Tracks waiting s cs = Untouched s cs
Tracks (streaming n) s cs = IsSuccess s.status × (Untouched s cs ⊎ Open s cs)
Tracks over s cs = ⊥

abbrev pub Leads : Bool → Bool → Loss → Phase → List (List ℕ) → Round → Type 0
Leads stream can_retry gone p cs (goes_on s) = Tracks p s cs
Leads stream can_retry gone p cs (finished f) = Reply stream can_retry gone cs f
