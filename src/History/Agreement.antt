-- ===== src/History/Agreement.antt =====
-- The lifetime summary of internal/history/store.go against the figures that the dashboard computes
-- from the same events (frontend/src/stats.ts): one meaning of tokens on both sides.
use relay_local.Prelude.{
  ℕ, ◌+◌, ◌≡◌, refl, ap, Bool, not, Option, none, some, List, [], ◌∷◌, String, map, length,
  length-map, sum_by, if◌then◌else◌, ◌==◌, str_eq, str_eq_iff, Bool-cases, inl, inr, arith,
}
use relay_local.Prelude.Sort.{count_by}
use relay_local.Prelude.Int.{ℤ}
use relay_local.Api.{HistoryEvent, or_zero}
use relay_local.Stats.Events
use relay_local.Stats.Events.{request_events, completed}
use relay_local.History.{Event, is_skipped, is_completed, tokens_of, summary}
use relay_local.History.Figures.{counted, if_reported, summary-AreFigures}

-- The tags `omitempty`: a zero or an empty text is left out.
abbrev pub omit_zero : ℕ → Option ℕ
omit_zero n = if n == 0 then none else some n

abbrev pub omit_empty : String → Option String
omit_empty s = if str_eq s "" then none else some s

-- An event as `/api/v1/history` sends it, with the text of its time.
unfoldable pub sent : (ℤ → String) → Event → HistoryEvent
sent print e = record {
  time = print e.time;
  kind = e.kind;
  model = omit_empty e.model;
  status = omit_empty e.status;
  duration_ms = omit_zero e.duration_ms;
  input_tokens = omit_zero e.input_tokens;
  output_tokens = omit_zero e.output_tokens;
  total_tokens = omit_zero e.total_tokens;
  usage_reported = e.usage_reported;
  total_reported = e.total_reported;
}

abbrev pub decoded : List (Option Event) → List Event
decoded [] = []
decoded (none ∷ entries) = decoded entries
decoded (some e ∷ entries) = e ∷ decoded entries

or_zero-omit_zero : (n : ℕ) → or_zero (omit_zero n) ≡ n
or_zero-omit_zero n = ground arith

tokens_of-sent :
    (print : ℤ → String) (e : Event) → Events.tokens_of (sent print e) ≡ if_reported tokens_of e
unfolding sent Events.tokens_of
tokens_of-sent print e = ground (
  arith,
  or_zero-omit_zero e.total_tokens,
  or_zero-omit_zero e.input_tokens,
  or_zero-omit_zero e.output_tokens,
)

is_completed-sent :
    (print : ℤ → String) (e : Event) → Events.is_completed (sent print e) ≡ is_completed e
unfolding sent
is_completed-sent print e =
    grind
      (arith, str_eq_iff e.status "", str_eq_iff e.status "completed", str_eq_iff "" "completed")

-- The requests of the dashboard are those that the summary is about.
request_events-sent :
    (print : ℤ → String) (entries : List (Option Event))
    → request_events (map (sent print) (decoded entries)) ≡ map (sent print) (counted none entries)
unfolding request_events is_skipped sent
request_events-sent print [] = refl
request_events-sent print (none ∷ entries) = request_events-sent print entries
request_events-sent print (some e ∷ entries) = elim (Bool-cases (str_eq e.kind "request")) [
  | inl kept ↦ rw kept (ap (λ es. sent print e ∷ es) (request_events-sent print entries))
  | inr other ↦ rw other (request_events-sent print entries)
]

sum_by-sent :
    (print : ℤ → String) (es : List Event)
    → sum_by Events.tokens_of (map (sent print) es) ≡ sum_by (if_reported tokens_of) es
sum_by-sent print [] = refl
sum_by-sent print (e ∷ es) = omega (arith, tokens_of-sent print e, sum_by-sent print es)

completed-sent :
    (print : ℤ → String) (es : List Event)
    → length (completed (map (sent print) es)) ≡ count_by is_completed es
unfolding completed
completed-sent print [] = refl
completed-sent print (e ∷ es) = ground (arith, is_completed-sent print e, completed-sent print es)

-- A test and its opposite.
count_by-not {ℓ} :
    {A : Type ℓ} (p : A → Bool) (xs : List A)
    → count_by p xs + count_by (λ x. not (p x)) xs ≡ length xs
count_by-not p [] = omega arith
count_by-not p (x ∷ xs) = ground (arith, count_by-not p xs)

-- Whatever the entries are and however times are printed: the lifetime summary has as many requests as
-- the dashboard counts in the events of these entries, if it is sent them all, as many successful ones
-- as it counts completed, the others as failed, and as many tokens as it adds up.
pub summary-agrees :
    (print : ℤ → String) (entries : List (Option Event))
    → let s = summary none entries in
      let es = request_events (map (sent print) (decoded entries)) in
      (s.requests ≡ length es)
      × (s.successful ≡ length (completed es))
      × (s.successful + s.failed ≡ s.requests)
      × (s.total_tokens ≡ sum_by Events.tokens_of es)
summary-agrees print entries =
    let v = summary-AreFigures none entries in
    let es = counted none entries in
    let requests = v.requests in
    let successful = v.successful in
    let failed = v.failed in
    let total = v.total in
    rw (request_events-sent print entries) (
      omega (arith, length-map (sent print) es),
      omega (arith, completed-sent print es),
      omega (arith, count_by-not is_completed es),
      omega (arith, sum_by-sent print es),
    )
