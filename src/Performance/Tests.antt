-- ===== src/Performance/Tests.antt =====
-- The theorem at a concrete input.
use relay_local.Prelude.{ℕ, All}
use relay_local.Prelude.Sort.{IsSorted}
use relay_local.Samples.{millionths, history, prices}
use relay_local.Stats.PerModel.{per_model}
use relay_local.Performance.{is_shorter, by_duration, max_duration}
use relay_local.Performance.Bars.{FitsIn, by_duration-fits}

by_duration-fits_example :
    let rows = by_duration {F = ℕ} (per_model history prices) in
    IsSorted (is_shorter {F = ℕ}) rows × All (FitsIn (max_duration rows)) rows
by_duration-fits_example = by_duration-fits ℕ history prices
