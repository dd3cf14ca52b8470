-- ===== src/Runtimes/Tests.antt =====
-- The card of a runtime at a history.
use relay_local.Prelude.{◌≡◌, refl, true, some, []}
use relay_local.Prelude.Int.{pos}
use relay_local.Prelude.Sort.{sort, insert}
use relay_local.Api.Server.{Backend}
use relay_local.Samples.{history}
use relay_local.Stats.Events.{request_events, completed}
use relay_local.Stats.Percentile.{percentile, ceil_percent, round, spacing}
use relay_local.Runtimes.{own_events, median_duration, slots_used}

abbrev ollama : Backend
ollama = record {
  id = "ollama";
  kind = "ollama";
  source = "local";
  ready = true;
  capacity = 4;
  available = 1;
  models = [];
}

test-median_duration : median_duration history ollama ≡ some 2000
unfolding median_duration own_events request_events completed percentile ceil_percent round spacing
    sort insert
test-median_duration = refl

test-slots_used : slots_used ollama ≡ pos 3
unfolding slots_used
test-slots_used = refl
