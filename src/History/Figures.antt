-- ===== src/History/Figures.antt =====
-- The figures of a summary (internal/history/store.go) as counts and sums over the requests that it is
-- about.
use relay_local.Prelude.{
  ℕ, ◌+◌, ◌≡◌, refl, sym, subst, Bool, false, not, ◌&&◌, ◌||◌, Option, none, some, List, [], ◌∷◌,
  foldl, length, sum_by, if◌then◌else◌, Bool-cases, inl, inr, arith,
}
use relay_local.Prelude.Sort.{count_by}
use relay_local.Prelude.Int.{ℤ}
use relay_local.History.{
  Event, Summary, no_requests, is_skipped, is_completed, add_outcome, add_usage, tokens_of,
  add_entry, summary,
}

-- The requests that a summary is about.
abbrev pub counted : Option ℤ → List (Option Event) → List Event
counted since [] = []
counted since (none ∷ entries) = counted since entries
counted since (some e ∷ entries) =
    let rest = counted since entries in if is_skipped since e then rest else e ∷ rest

-- The loop that skips no entry.
abbrev add_request : Summary → Event → Summary
add_request s e = add_usage e (add_outcome e (record s { requests = s.requests + 1 }))

abbrev pub if_reported : (Event → ℕ) → Event → ℕ
if_reported f e = if e.usage_reported then f e else 0

abbrev pub lacks_usage : Event → Bool
lacks_usage e = is_completed e && not e.usage_complete

-- Some and none of the elements of a list pass a test.
abbrev pub some_of {ℓ} : {A : Type ℓ} → (A → Bool) → List A → Bool
some_of p [] = false
some_of p (x ∷ xs) = p x || some_of p xs

-- What the figures are, with those that were there before.
pub record AreFigures (s : Summary) (es : List Event) (t : Summary) : Type 0 where
  pub requests : t.requests ≡ s.requests + length es
  pub successful : t.successful ≡ s.successful + count_by is_completed es
  pub failed : t.failed ≡ s.failed + count_by (λ e. not (is_completed e)) es
  pub input :
      t.input_tokens ≡ s.input_tokens + sum_by (if_reported λ (e : Event). e.input_tokens) es
  pub output :
      t.output_tokens ≡ s.output_tokens + sum_by (if_reported λ (e : Event). e.output_tokens) es
  pub total : t.total_tokens ≡ s.total_tokens + sum_by (if_reported tokens_of) es
  pub reported :
      t.usage_reported ≡ (s.usage_reported || some_of (λ (e : Event). e.usage_reported) es)
  pub complete : t.complete ≡ (s.complete && not (some_of lacks_usage es))

AreFigures-one : (s : Summary) (e : Event) → AreFigures s (e ∷ []) (add_request s e)
unfolding add_outcome add_usage
AreFigures-one s e = ground arith

AreFigures-cons :
    (s t u : Summary) (e : Event) (es : List Event)
    → AreFigures s (e ∷ []) t
    → AreFigures t es u
    → AreFigures s (e ∷ es) u
AreFigures-cons s t u e es one rest = record {
  requests = let a = one.requests in let b = rest.requests in omega arith;
  successful = let a = one.successful in let b = rest.successful in omega arith;
  failed = let a = one.failed in let b = rest.failed in omega arith;
  input = let a = one.input in let b = rest.input in omega arith;
  output = let a = one.output in let b = rest.output in omega arith;
  total = let a = one.total in let b = rest.total in omega arith;
  reported = let a = one.reported in let b = rest.reported in ground arith;
  complete = let a = one.complete in let b = rest.complete in ground arith;
}

AreFigures-nil : (s : Summary) → AreFigures s [] s
AreFigures-nil s = ground arith

foldl-AreFigures : (es : List Event) (s : Summary) → AreFigures s es (foldl add_request s es)
foldl-AreFigures [] s = AreFigures-nil s
foldl-AreFigures (e ∷ es) s =
    AreFigures-cons s (add_request s e) (foldl add_request (add_request s e) es) e es
      (AreFigures-one s e) (foldl-AreFigures es (add_request s e))

-- Entries that are skipped leave no trace.
foldl-counted :
    (since : Option ℤ) (entries : List (Option Event)) (s : Summary)
    → foldl (add_entry since) s entries ≡ foldl add_request s (counted since entries)
foldl-counted since [] s = refl
foldl-counted since (none ∷ entries) s = foldl-counted since entries s
foldl-counted since (some e ∷ entries) s = elim (Bool-cases (is_skipped since e)) [
  | inl skipped ↦ rw skipped (foldl-counted since entries s)
  | inr kept ↦ rw kept (foldl-counted since entries (add_request s e))
]

pub summary-AreFigures :
    (since : Option ℤ) (entries : List (Option Event))
    → AreFigures no_requests (counted since entries) (summary since entries)
unfolding summary
summary-AreFigures since entries =
    subst (AreFigures no_requests (counted since entries))
      (sym (foldl-counted since entries no_requests))
      (foldl-AreFigures (counted since entries) no_requests)
