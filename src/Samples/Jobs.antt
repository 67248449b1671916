-- ===== src/Samples/Jobs.antt =====
-- The theorems on the NixJob controller, at the sample operator.
use nio.Prelude.{List, [], ◌∷◌, ◌≡◌, refl}
use nio.Api.Batch.{BatchJob}
use nio.Workload.Resolve.{ResolvedSource}
use nio.Workload.Infra.{no_deps}
use nio.Job.Run.{has_condition, list_run_jobs, ensure_run_job, with_verdict}
use nio.Job.History.{gc_old_jobs, old_jobs, completed, newest_first, insert_newest}
use nio.Job.Proofs.Create.{CreatesWhere, ensure_run_job-CreatesWhere}
use nio.Job.Proofs.History.{IsOld, DeletesOnly, gc_old_jobs-DeletesOnly}
use nio.Job.Proofs.Verdict.{IsFailed, with_verdict-conditions}
use nio.Samples.Operator.{hello, run_of, operator, start}

abbrev resolved : ResolvedSource
resolved = record { revision = "4f1a2b3c"; artifact_url = "" }

ensure_run_job-CreatesWhere_example :
    CreatesWhere
      (operator "Ready" [])
      hello
      resolved
      no_deps
      "hello-0123"
      start
      (ensure_run_job (operator "Ready" []) hello resolved no_deps "hello-0123" start).1
ensure_run_job-CreatesWhere_example =
    ensure_run_job-CreatesWhere (operator "Ready" []) hello resolved no_deps "hello-0123" start

abbrev dated : BatchJob
dated = record (run_of "hello-4" "Failed") { creation_timestamp = 90 }

-- Five runs: the current one, one that goes on, and three and one that have finished.
abbrev runs : List BatchJob
runs =
    run_of "hello-0" "Complete"
    ∷ run_of "hello-1" "Complete"
    ∷ run_of "hello-2" "Suspended"
    ∷ run_of "hello-3" "Complete"
    ∷ dated
    ∷ run_of "hello-5" "Complete"
    ∷ []

-- The history limit is three: one of the finished runs is one too many.
too_many : old_jobs "hello-0" runs ≡ run_of "hello-5" "Complete" ∷ []
unfolding old_jobs completed newest_first insert_newest has_condition
too_many = refl

gc_old_jobs-DeletesOnly_example :
    DeletesOnly
      (IsOld "hello-0" runs)
      (gc_old_jobs (operator "Ready" runs) hello "hello-0" start).1.history
unfolding list_run_jobs
gc_old_jobs-DeletesOnly_example =
    gc_old_jobs-DeletesOnly (operator "Ready" runs) hello "hello-0" start runs refl tt

with_verdict-conditions_example :
    IsFailed (operator "Ready" []) (with_verdict (operator "Ready" []) dated hello)
unfolding has_condition
with_verdict-conditions_example = with_verdict-conditions (operator "Ready" []) dated hello
