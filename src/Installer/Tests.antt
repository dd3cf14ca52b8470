-- ===== src/Installer/Tests.antt =====
-- Each theorem at a concrete input.
use relay_local.Prelude.{
  ◌≡◌, ◌≢◌, refl, ap, true, false, some, none, [], ◌∷◌, String, str_eq, arith,
}
use relay_local.Api.Server.{answered}
use relay_local.Installer.{
  ModelJob, Installer, no_job, posted, polled, handle, can, waits, find_job,
}
use relay_local.Installer.Polling.{KeepsJob, id_of, handle-KeepsJob, old_job-returns}

abbrev pulling : String → String → ModelJob
pulling id status = record { id = id; model = "phi3"; status = status; progress = 0; error = none }

abbrev polling : Installer
polling = record no_job { job = some (pulling "1" "pulling"); polls = "1" ∷ [] }

handle-KeepsJob_example :
    KeepsJob polling (handle (polled "1" (answered (pulling "1" "complete" ∷ []))) polling)
unfolding can waits
handle-KeepsJob_example =
    handle-KeepsJob (polled "1" (answered (pulling "1" "complete" ∷ []))) polling refl refl
      (refl, tt)

old_job-returns_example :
    let s' =
      handle
        (polled "1" (answered (pulling "1" "pulling" ∷ [])))
        (handle (posted "phi3" (answered (pulling "2" "pulling"))) polling) in
    id_of s'.job ≢ "2"
unfolding find_job
old_job-returns_example =
    old_job-returns "phi3" "1" (pulling "2" "pulling") (pulling "1" "pulling" ∷ []) polling refl
      (λ e. let clash : true ≡ false = ap (λ s. str_eq "1" s) e in ground arith)
