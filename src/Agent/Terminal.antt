-- ===== src/Agent/Terminal.antt =====
-- That each message of an attempt is one that the protocol accepts, the last one an error or the end.
use Prim.Native.String.{len}
use relay_local.Prelude.{
  ℕ, ◌+◌, ◌≤◌, ◌≡◌, refl, sym, subst, Bool, true, false, not, ◌&&◌, none, List, String, length, ltb,
  ◌==◌, str_eq, arith,
}
use relay_local.Prelude.Int.{ℤ, pos, ltb_ℤ}
use relay_local.Protocol.{
  Message, Json, chunk_bytes, validate, valid_usage, kind_error, attempt_error,
}
use relay_local.Agent.{
  Ended, live, deadline_exceeded, canceled, start_of, chunk_of, failure, success, concluded,
}

module _ (json : Json) (id : String) (named : str_eq id "" ≡ false)
    (short : ltb 128 (len id) ≡ false) where
  abbrev pub IsValid : Message → Type 0
  IsValid m = validate json m ≡ none

  IsValid-failure :
      (code : String) (retryable : Bool) (usage : List ℕ)
      → str_eq code "" ≡ false
      → ltb 64 (len code) ≡ false
      → valid_usage json usage ≡ true
      → IsValid (failure id code retryable usage)
  unfolding validate kind_error attempt_error
  IsValid-failure code retryable usage a b c = rw b (rw c (rw a (rw named (rw short refl))))

  IsValid-success : (usage : List ℕ) → valid_usage json usage ≡ true → IsValid (success id usage)
  unfolding validate kind_error attempt_error
  IsValid-success usage c = rw c (rw named (rw short refl))

  pub IsValid-start :
      (status : ℤ) (t : String)
      → ltb_ℤ status (pos 200) ≡ false
      → ltb_ℤ (pos 599) status ≡ false
      → (not (str_eq t "text/event-stream") && not (str_eq t "application/json")) ≡ false
      → IsValid (start_of id status t)
  unfolding validate kind_error attempt_error valid_usage
  IsValid-start status t a b c = rw a (rw b (rw c (rw named (rw short refl))))

  pub IsValid-chunk :
      (seq : ℕ) (bytes : List ℕ)
      → ltb 0 (length bytes) ≡ true
      → length bytes ≤ chunk_bytes
      → IsValid (chunk_of id (seq + 1) bytes)
  unfolding validate kind_error attempt_error valid_usage
  IsValid-chunk seq bytes a b =
      let some_bytes : (length bytes == 0) ≡ false = ground arith in
      let few : ltb chunk_bytes (length bytes) ≡ false = ground arith in
      let numbered : ((seq + 1) == 0) ≡ false = ground arith in
      rw some_bytes (rw few (rw numbered (rw named (rw short refl))))

  -- The last message of an attempt: an error, or the end of a response.
  pub data IsTerminal (t : Message) : Type 0 where
    fails :
        (code : String) (retryable : Bool) (usage : List ℕ)
        → IsValid (failure id code retryable usage)
        → t ≡ failure id code retryable usage
        → valid_usage json usage ≡ true
        → IsTerminal t
    succeeds :
        (usage : List ℕ) → t ≡ success id usage → valid_usage json usage ≡ true → IsTerminal t

  pub IsTerminal-failure :
      (code : String) (retryable : Bool) (usage : List ℕ)
      → str_eq code "" ≡ false
      → ltb 64 (len code) ≡ false
      → valid_usage json usage ≡ true
      → IsTerminal (failure id code retryable usage)
  IsTerminal-failure code retryable usage a b c =
      fails code retryable usage (IsValid-failure code retryable usage a b c) refl c

  -- The deferred function only makes an error of it.
  concluded-failure :
      (ended : Ended) (code : String) (retryable : Bool) (usage : List ℕ)
      → IsValid (failure id code retryable usage)
      → valid_usage json usage ≡ true
      → IsTerminal (concluded ended (failure id code retryable usage))
  unfolding concluded
  concluded-failure live code retryable usage v c = fails code retryable usage v refl c
  concluded-failure canceled code retryable usage v c =
      IsTerminal-failure "cancelled" false usage refl refl c
  concluded-failure deadline_exceeded code retryable usage v c =
      IsTerminal-failure "deadline_exceeded" true usage refl refl c

  concluded-success :
      (ended : Ended) (usage : List ℕ)
      → valid_usage json usage ≡ true
      → IsTerminal (concluded ended (success id usage))
  unfolding concluded
  concluded-success live usage c = succeeds usage refl c
  concluded-success canceled usage c = IsTerminal-failure "cancelled" false usage refl refl c
  concluded-success deadline_exceeded usage c =
      IsTerminal-failure "deadline_exceeded" true usage refl refl c

  pub concluded-IsTerminal :
      (ended : Ended) (t : Message) → IsTerminal t → IsTerminal (concluded ended t)
  concluded-IsTerminal ended t (fails code retryable usage v e c) =
      subst (λ t. IsTerminal (concluded ended t)) (sym e)
        (concluded-failure ended code retryable usage v c)
  concluded-IsTerminal ended t (succeeds usage e c) =
      subst (λ t. IsTerminal (concluded ended t)) (sym e) (concluded-success ended usage c)

  pub IsTerminal-IsValid : (t : Message) → IsTerminal t → IsValid t
  IsTerminal-IsValid t (fails code retryable usage v e c) = subst IsValid (sym e) v
  IsTerminal-IsValid t (succeeds usage e c) = subst IsValid (sym e) (IsValid-success usage c)
