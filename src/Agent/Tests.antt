-- ===== src/Agent/Tests.antt =====
-- A streamed answer and a cancelled one, and the theorem there.
use relay_local.Prelude.{◌≡◌, refl, true, false, none, some, [], ◌∷◌, ◌++◌, All, arith}
use relay_local.Prelude.Int.{pos}
use relay_local.Protocol.{validate, valid_usage}
use relay_local.Samples.Hosts.{lax}
use relay_local.Coordinator.Attempt.Response.{waiting, over, replay}
use relay_local.Agent.{
  Exchange, Sent, live, canceled, eof, start_of, chunk_of, failure, success, execute, answer_of,
  body_of, at_end, concluded,
}
use relay_local.Agent.Response.{execute-IsOver}

abbrev streamed : Exchange
streamed = record {
  start_expired = false;
  chat_fails = false;
  status = pos 200;
  content_type = "text/event-stream";
  start_sent = true;
  reads =
      record { bytes = 100 ∷ 97 ∷ []; err = none; sent = true }
      ∷ record { bytes = 116 ∷ []; err = some eof; sent = true }
      ∷ [];
  ended = live;
  usage = [];
  done = true;
  failed = false;
}

test-streamed :
    execute "a1" streamed
    ≡ some (record {
      before =
          start_of "a1" (pos 200) "text/event-stream"
          ∷ chunk_of "a1" 1 (100 ∷ 97 ∷ [])
          ∷ chunk_of "a1" 2 (116 ∷ [])
          ∷ [];
      terminal = success "a1" [];
    })
unfolding execute answer_of body_of at_end concluded
test-streamed = refl

test-canceled :
    execute "a1" (record streamed { start_sent = false; ended = canceled })
    ≡ some (record { before = []; terminal = failure "a1" "cancelled" false [] })
unfolding execute answer_of body_of at_end concluded
test-canceled = refl

execute-IsOver_example :
    (r : Sent) × (execute "a1" streamed ≡ some r)
    × (replay (some waiting) (r.before ++ (r.terminal ∷ [])) ≡ some over)
    × All (λ m. validate lax m ≡ none) (r.before ++ (r.terminal ∷ []))
unfolding valid_usage
execute-IsOver_example =
    execute-IsOver lax "a1" refl refl streamed refl (omega arith, (omega arith, tt)) refl refl
