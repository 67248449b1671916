-- ===== src/Samples/Runs.antt =====
-- Tests, and the theorems at the sample objects.
use nio.Prelude.{
  ℕ, String, Option, true, false, [], ◌∷◌, none, some, ◌≡◌, ◌≢◌, ◌⊎◌, ◌∙◌, refl, sym, arith, ap,
  inl, inr, eq_iff,
}
use mathlib.Core.List.{Memᴰ}
use nio.Kube.{text, ok}
use nio.Kube.Times.{unix_times, before_in, equal_in}
use nio.Api.Configuration.{NixosConfiguration}
use nio.Prelude.Order.{str_lt}
use nio.Configuration.State.{St, Reconciler}
use nio.Configuration.Phase.{set_phase}
use nio.Configuration.Owner.{owner_among, winner_from, winner_after, config_earlier}
use nio.Configuration.Reconcile.{reconcile, run_state_machine}
use nio.Configuration.Removing.{reconcile_removing}
use nio.Configuration.Proofs.Waking.{CreatesOnly}
use nio.Configuration.Proofs.Decommission.{reconcile_removing-CreatesOnly}
use nio.Configuration.Proofs.Ownership.{UniqueNames, owner_among_agree}
use nio.Configuration.Proofs.Gates.{IsBlocked, IsGated, run_state_machine-IsBlocked}
use nio.Configuration.Proofs.InstallSafety.{SafeHistory}
use nio.Configuration.Proofs.LiveSafety.{reconcile-SafeHistory}
use nio.Configuration.Proofs.Removal.{ReleasesAfter, reconcile-ReleasesAfter}
use nio.Api.Core.{zero_pod}
use nio.Api.Workload.{NixCronJob, NixJob, zero_workload, new_nix_cron_job}
use nio.Children.{build_day_two_nix_cron_job}
use nio.Configuration.Install.{follow_install}
use nio.Configuration.Proofs.Retries.{IsCapped, follow_install-IsCapped}
use nio.Configuration.Ensure.{ensure_day_two_nix_cron_job}
use nio.Configuration.DayTwo.{reconcile_day_two}
use nio.Configuration.Proofs.DayTwo.{IsFollowed, reconcile_day_two-IsFollowed}
use nio.Samples.Server.{
  missing, plain_nix, host, worker, rival, job_of, server, reconciler, five_attempts-laws,
}

abbrev installed : Reconciler
installed = reconciler (server (ok worker) (ok (job_of "worker-install" 1 0)) [])

reconcile-SafeHistory_example : SafeHistory (reconcile installed "default" "worker").1
reconcile-SafeHistory_example =
    reconcile-SafeHistory installed five_attempts-laws "default" "worker" worker refl refl

abbrev start : St
start = record { config = worker; history = [] }

abbrev late_start : St
late_start = record { config = rival; history = [] }

both_listed : owner_among unix_times rival (rival ∷ worker ∷ []) ≡ "worker"
unfolding owner_among winner_from winner_after config_earlier str_lt before_in equal_in
both_listed = refl

rival_is_not_owner : owner_among unix_times rival (rival ∷ worker ∷ []) ≢ "rival"
rival_is_not_owner e = ground (arith, both_listed, eq_iff "rival" "worker")

run_state_machine-IsBlocked_example :
    IsBlocked installed late_start (run_state_machine installed late_start)
run_state_machine-IsBlocked_example =
    run_state_machine-IsBlocked installed late_start (rival ∷ worker ∷ []) refl
      (IsGated.owned rival_is_not_owner)

rival_or_worker :
    (a : NixosConfiguration) → Memᴰ a (rival ∷ worker ∷ []) → (a ≡ rival) ⊎ (a ≡ worker)
rival_or_worker a (Memᴰ.head e) = inl e
rival_or_worker a (Memᴰ.tail (Memᴰ.head e)) = inr e
rival_or_worker a (Memᴰ.tail (Memᴰ.tail h)) = elim h [ ]

sample_names : UniqueNames (rival ∷ worker ∷ [])
sample_names a b ma mb e = same (rival_or_worker a ma) (rival_or_worker b mb)
  where
    same : (a ≡ rival) ⊎ (a ≡ worker) → (b ≡ rival) ⊎ (b ≡ worker) → a ≡ b
    same (inl p) (inl q) = p ∙ sym q
    same (inl p) (inr q) = ground (
      arith,
      eq_iff "rival" "worker",
      ap (λ (c : NixosConfiguration). c.name) p,
      ap (λ (c : NixosConfiguration). c.name) q,
    )
    same (inr p) (inl q) = ground (
      arith,
      eq_iff "rival" "worker",
      ap (λ (c : NixosConfiguration). c.name) p,
      ap (λ (c : NixosConfiguration). c.name) q,
    )
    same (inr p) (inr q) = p ∙ sym q

owner_among_agree_example :
    (owner_among unix_times worker (rival ∷ worker ∷ [])
      ≡ owner_among unix_times rival (rival ∷ worker ∷ []))
    × ((w : NixosConfiguration) × (owner_among unix_times worker (rival ∷ worker ∷ []) ≡ w.name)
        × Memᴰ w (rival ∷ worker ∷ [])
        × (w.spec.machine_ref ≡ "host-a")
        × (config_earlier unix_times rival w ≡ false))
owner_among_agree_example =
    owner_among_agree unix_times (rival ∷ worker ∷ []) worker rival sample_names
      (Memᴰ.tail (Memᴰ.head refl)) (Memᴰ.head refl) refl

abbrev degraded_worker : NixosConfiguration
degraded_worker = set_phase installed "Degraded" "ApplyFailed" (text "failed") true none worker

abbrev leaving : NixosConfiguration
leaving = record worker { is_deleting = true }

abbrev blanking : NixJob
blanking = job_of "worker-onremove" 1 0

abbrev removed : Reconciler
removed = reconciler (server (ok leaving) (ok blanking) (blanking ∷ []))

reconcile-ReleasesAfter_example : ReleasesAfter blanking (reconcile removed "default" "worker").1
reconcile-ReleasesAfter_example =
    reconcile-ReleasesAfter blanking removed five_attempts-laws "default" "worker" leaving host []
      refl refl refl (λ h. refl) (λ h. refl)

abbrev failed_install : NixJob
failed_install = job_of "worker-install" 0 1

abbrev at_cap : St
at_cap = record {
  config = record worker { status = record worker.status { install_retries = 3 } };
  history = [];
}

follow_install-IsCapped_example :
    IsCapped installed failed_install at_cap (follow_install installed failed_install at_cap)
follow_install-IsCapped_example =
    follow_install-IsCapped installed failed_install at_cap refl (omega arith) refl (omega arith)

-- A day-2 child with a phase, after a success or before one.
abbrev day_two_child : String → Option ℕ → NixCronJob
day_two_child phase success =
    let child = new_nix_cron_job "worker-day2" "default" (record {
      nix = plain_nix;
      cron_job_template = record {
        schedule = "*/30 * * * *";
        forbid_concurrent = true;
        job_template = record {
          template = zero_pod;
          ttl_seconds_after_finished = none;
          active_deadline_seconds = none;
        };
      };
    }) in
    record child {
      status = record child.status {
        workload = record zero_workload {
          phase = phase;
          resolved_revision = "abc";
          rolled_out_revision = "abc";
        };
        last_successful_time = success;
      };
    }

-- The server has that child, and gives it back on an update.
abbrev followed : Reconciler
followed = reconciler (record (server (ok worker) (ok failed_install) []) {
  get_cron = λ h ns name. ok (day_two_child "Ready" (some 50));
  update_cron = λ h c. ok (day_two_child "Ready" (some 50));
})

answered :
    (ensure_day_two_nix_cron_job followed host false start).0 ≡ ok (day_two_child "Ready" (some 50))
unfolding ensure_day_two_nix_cron_job build_day_two_nix_cron_job
answered = refl

reconcile_day_two-IsFollowed_example :
    IsFollowed followed
      (day_two_child "Ready" (some 50))
      host
      (ensure_day_two_nix_cron_job followed host false start).1.config.name
      (ensure_day_two_nix_cron_job followed host false start).1.history
      (reconcile_day_two followed host start).1
reconcile_day_two-IsFollowed_example =
    reconcile_day_two-IsFollowed followed (day_two_child "Ready" (some 50)) host start answered

-- The server has no decommission job yet.
abbrev undecided : Reconciler
undecided = reconciler (server (ok leaving) missing [])

abbrev leaving_start : St
leaving_start = record { config = leaving; history = [] }

reconcile_removing-CreatesOnly_example :
    CreatesOnly leaving (reconcile_removing undecided leaving_start).1.history
reconcile_removing-CreatesOnly_example =
    reconcile_removing-CreatesOnly undecided five_attempts-laws leaving_start refl tt
