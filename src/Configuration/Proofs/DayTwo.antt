-- ===== src/Configuration/Proofs/DayTwo.antt =====
-- About reconcileDayTwo: when the machine is reported as configured.
use nio.Prelude.{
  ℕ, ◌∙◌, String, Bool, true, false, ◌&&◌, ◌||◌, ◌∷◌, Option, none, some, ◌≡◌, ◌⊎◌, refl, arith,
  ◌==◌, is_some, Bool-cases, Option-cases, inl, inr,
}
use nio.Kube.{Error, Message, Result, ok, err, text}
use nio.Kube.Conditions.{Condition}
use nio.Api.Workload.{NixCronJob}
use nio.Api.Machine.{Machine}
use nio.Api.Configuration.{NixosConfiguration}
use nio.Api.ConfigPhase
use nio.Api.Names.{reason_succeeded, phase_ready, phase_degraded, phase_failed}
use nio.Kube.Binds.{bind-ok}
use nio.Client.{update_machine_status, History}
use nio.Converge.{converge_stall}
use nio.Configuration.State.{St, Reconciler}
use nio.Configuration.Phase.{
  set_phase, set_degraded, put_git_synced, put_condition, put_stalled, drop_condition, with_phase,
}
use nio.Configuration.DayTwo.{
  with_last_applied, written_back, with_applied, day_two_ready, day_two_converging, day_two_other,
  follow_day_two, reconcile_day_two,
}
use nio.Configuration.Ensure.{ensure_day_two_nix_cron_job}
use nio.Configuration.Proofs.Conditions.{phase-set_phase}

-- The child is Ready, and a run of it succeeded.
abbrev pub is_converged : NixCronJob → Bool
is_converged cron =
    cron.status.workload.phase == phase_ready && is_some cron.status.last_successful_time

module _ (r : Reconciler) where
  -- What is left behind when the child is converged: one write, of the machine, of which it sets
  -- the fields that say what is applied.
  pub record IsReported (cron : NixCronJob) (machine : Machine) (name : String) (before : History)
      (t : St) : Type 0 where
    pub failure : Option Error
    pub written : Machine
    pub calls :
        t.history ≡ record { call = update_machine_status written; failure = failure } ∷ before
    pub applied : written ≡ record machine {
      status = record machine.status {
        has_configuration = true;
        applied_configuration = name;
        applied_commit = cron.status.workload.rolled_out_revision;
        last_applied_time = cron.status.last_successful_time;
      };
    }
    pub phase : t.config.status.phase ≡ ConfigPhase.ready

  -- What is left behind otherwise: no call, and a phase that says so.
  pub record IsUnreported (before : History) (t : St) : Type 0 where
    pub calls : t.history ≡ before
    pub phase :
        (t.config.status.phase ≡ ConfigPhase.degraded)
        ⊎ (t.config.status.phase ≡ ConfigPhase.converging)

  name-set_phase :
      (phase reason : String) (msg : Message) (applied : Bool) (child : Option Condition)
      (config : NixosConfiguration)
      → (set_phase r phase reason msg applied child config).name ≡ config.name
  unfolding set_phase put_git_synced put_condition put_stalled drop_condition with_phase
  name-set_phase phase reason msg applied child config = ground arith

  revision-set_phase :
      (phase reason : String) (msg : Message) (applied : Bool) (child : Option Condition)
      (config : NixosConfiguration)
      → (set_phase r phase reason msg applied child config).status.resolved_revision
        ≡ config.status.resolved_revision
  unfolding set_phase put_git_synced put_condition put_stalled drop_condition with_phase
  revision-set_phase phase reason msg applied child config = ground arith

  time-set_phase :
      (phase reason : String) (msg : Message) (applied : Bool) (child : Option Condition)
      (config : NixosConfiguration)
      → (set_phase r phase reason msg applied child config).status.last_applied_time
        ≡ config.status.last_applied_time
  unfolding set_phase put_git_synced put_condition put_stalled drop_condition with_phase
  time-set_phase phase reason msg applied child config = ground arith

  written_back-state : (answer : Result Machine) (s : St) → (written_back r answer s).1 ≡ s
  written_back-state (ok m) s = refl
  written_back-state (err e) s = ground arith

  with_applied_lem :
      (config : NixosConfiguration) (machine : Machine) (name commit : String) (time : Option ℕ)
      → config.name ≡ name
      → config.status.resolved_revision ≡ commit
      → config.status.last_applied_time ≡ time
      → with_applied config machine ≡ record machine {
        status = record machine.status {
          has_configuration = true;
          applied_configuration = name;
          applied_commit = commit;
          last_applied_time = time;
        };
      }
  with_applied_lem config machine name commit time n c t = rw (n, c, t) refl

  ready-IsReported :
      (cron : NixCronJob) (machine : Machine) (git_synced : Option Condition) (s : St)
      → s.config.status.resolved_revision ≡ cron.status.workload.rolled_out_revision
      → IsReported cron machine s.config.name s.history
          (day_two_ready r cron machine git_synced s).1
  unfolding day_two_ready
  ready-IsReported cron machine git_synced s rolled = rw (written_back-state _ _) (record {
    failure = _;
    written = _;
    calls = refl;
    applied =
        with_applied_lem
          (set_phase r ConfigPhase.ready reason_succeeded
            (text "Day-2 convergence healthy; configuration applied") true git_synced
            (with_last_applied cron.status.last_successful_time s.config))
          machine _ _ _ (name-set_phase _ _ _ _ _ _) (revision-set_phase _ _ _ _ _ _ ∙ rolled)
          (time-set_phase _ _ _ _ _ _);
    phase = phase-set_phase r _ _ _ _ _ _;
  })

  converging-IsUnreported :
      (cron : NixCronJob) (applied : Bool) (git_synced : Option Condition) (s : St)
      → IsUnreported s.history (day_two_converging r cron applied git_synced s).1
  unfolding day_two_converging
  converging-IsUnreported cron applied git_synced s =
      elim (Option-cases cron.status.last_successful_time) [
        | inl e ↦ rw e (record { calls = refl; phase = inr (phase-set_phase r _ _ _ _ _ _) })
        | inr (t, e) ↦ rw e (record { calls = refl; phase = inr (phase-set_phase r _ _ _ _ _ _) })
      ]

  other-IsUnreported :
      (stall : Option Condition) (cron : NixCronJob) (applied : Bool)
      (git_synced : Option Condition) (s : St)
      → IsUnreported s.history (day_two_other r stall cron applied git_synced s).1
  unfolding set_degraded
  other-IsUnreported (some stall) cron applied git_synced s = record {
    calls = refl;
    phase = inl (phase-set_phase r _ _ _ _ _ _);
  }
  other-IsUnreported none cron applied git_synced s =
      elim (Bool-cases (
        cron.status.workload.phase == phase_degraded
        || cron.status.workload.phase == phase_failed)) [
          | inl e ↦ rw e (record { calls = refl; phase = inl (phase-set_phase r _ _ _ _ _ _) })
          | inr e ↦ rw e (converging-IsUnreported cron applied git_synced s)
        ]

  -- A report, if a run of the child succeeded and the child is Ready, and else none.
  abbrev pub IsFollowed : NixCronJob → Machine → String → History → St → Type 0
  IsFollowed cron machine name before after =
      ((is_converged cron ≡ true) × IsReported cron machine name before after)
      ⊎ ((is_converged cron ≡ false) × IsUnreported before after)

  follow_day_two-IsFollowed :
      (cron : NixCronJob) (machine : Machine) (s : St)
      → s.config.status.resolved_revision ≡ cron.status.workload.rolled_out_revision
      → IsFollowed cron machine s.config.name s.history (follow_day_two r cron machine s).1
  unfolding follow_day_two
  follow_day_two-IsFollowed cron machine s rolled = elim (Bool-cases (is_converged cron)) [
    | inl e ↦ rw e (inl (refl, ready-IsReported cron machine _ s rolled))
    | inr e ↦ rw e (inr (refl, other-IsUnreported (converge_stall r.meta cron true) cron _ _ s))
  ]

  -- After the day-2 child was created or read: when it is Ready and a run of it succeeded, the step
  -- makes one further call, a write of the machine's status, which says that the machine has a
  -- configuration, the configuration's name, the revision that the child rolled out and the time of
  -- the success, and changes nothing else of the machine; and the phase is Ready. Otherwise the step
  -- makes no further call, so that the machine is not reported as configured, and the phase is
  -- Degraded or Converging.
  pub reconcile_day_two-IsFollowed :
      (cron : NixCronJob) (machine : Machine) (s : St)
      → (ensure_day_two_nix_cron_job r machine false s).0 ≡ ok cron
      → IsFollowed cron machine
          (ensure_day_two_nix_cron_job r machine false s).1.config.name
          (ensure_day_two_nix_cron_job r machine false s).1.history
          (reconcile_day_two r machine s).1
  unfolding reconcile_day_two
  reconcile_day_two-IsFollowed cron machine s answered =
      rw (bind-ok (ensure_day_two_nix_cron_job r machine false) _ s answered)
        (follow_day_two-IsFollowed cron machine _ refl)
