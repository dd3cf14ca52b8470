-- ===== src/Protocol/Accepted.antt =====
-- What the receiver of a message may rely on once `Validate` of protocol/protocol.go has accepted it.
use relay_local.Prelude.{◌≡◌, ◌≢◌, refl, Option, none, some, String, arith}
use relay_local.Prelude.Int.{pos, ◌≤ℤ◌}
use relay_local.Protocol.{
  Kind, Kind.response_start, Kind.response_chunk, Message, Json, kind_error, attempt_error,
  validate,
}

attempt_error-none : (m : Message) (o : Option String) → attempt_error m o ≡ none → o ≡ none
unfolding attempt_error
attempt_error-none m none h = refl
attempt_error-none m (some e) h = h

kind_error-validate :
    (json : Json) (m : Message) → validate json m ≡ none → kind_error json m m.kind ≡ none
unfolding validate
kind_error-validate json m h = attempt_error-none m (kind_error json m m.kind) (ground arith)

-- What each type of message that carries a part of a response promises.
abbrev pub IsSound : Kind → Message → Type 0
IsSound response_start m = pos 200 ≤ℤ m.status
IsSound response_chunk m = m.seq ≢ 0
IsSound _ m = Unit

IsSound-kind_error :
    (json : Json) (kind : Kind) (m : Message) → kind_error json m kind ≡ none → IsSound kind m
unfolding kind_error
IsSound-kind_error json response_start m h = ground arith
IsSound-kind_error json response_chunk m h = ground arith
IsSound-kind_error json _ m h = tt

pub IsSound-validate : (json : Json) (m : Message) → validate json m ≡ none → IsSound m.kind m
IsSound-validate json m h = IsSound-kind_error json m.kind m (kind_error-validate json m h)
