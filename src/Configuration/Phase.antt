-- ===== src/Configuration/Phase.antt =====
-- setPhase, setBlocked, setDegraded: the phase and the conditions that follow from it.
use nio.Prelude.{ℕ, String, Bool, true, false, not, ◌||◌, Option, none, some, ◌==◌, if◌then◌else◌}
use nio.Kube.{Message}
use nio.Kube.Conditions.{Condition, ConditionStatus, condition_true, condition_false}
use nio.Api.Configuration.{NixosConfiguration}
use nio.Api.ConfigPhase
use nio.Api.Names.{
  condition_ready, condition_stalled, condition_reconciling, condition_applied,
  condition_git_synced, reason_waiting, reason_config_applied, reason_apply_failed,
}
use nio.Configuration.State.{Reconciler}

abbrev pub is_ready : String → Bool
is_ready phase = phase == ConfigPhase.ready

abbrev pub is_stalled : String → Bool
is_stalled phase = phase == ConfigPhase.degraded || phase == ConfigPhase.blocked

abbrev pub when : Bool → ConditionStatus
when b = if b then condition_true else condition_false

abbrev pub condition_of : ℕ → String → ConditionStatus → String → Message → Condition
condition_of gen t status reason msg = record {
  type = t;
  status = status;
  observed_generation = gen;
  reason = reason;
  message = msg;
}

module _ (r : Reconciler) where
  abbrev pub find_condition : NixosConfiguration → String → Option Condition
  find_condition config t = r.find_status_condition config.status.conditions t

  -- meta.SetStatusCondition(&config.Status.Conditions, …)
  unfoldable pub put_condition : Condition → NixosConfiguration → NixosConfiguration
  put_condition c config = record config {
    status = record config.status {
      conditions = r.set_status_condition config.status.conditions c;
    };
  }

  -- meta.RemoveStatusCondition(&config.Status.Conditions, …)
  unfoldable pub drop_condition : String → NixosConfiguration → NixosConfiguration
  drop_condition t config = record config {
    status = record config.status {
      conditions = r.remove_status_condition config.status.conditions t;
    };
  }

  unfoldable pub put_stalled : Bool → Condition → NixosConfiguration → NixosConfiguration
  put_stalled true c config = put_condition c config
  put_stalled false c config = drop_condition c.type config

  unfoldable pub put_git_synced : Option Condition → NixosConfiguration → NixosConfiguration
  put_git_synced none config = config
  put_git_synced (some child) config =
      put_condition
        (condition_of config.generation condition_git_synced child.status child.reason
          child.message)
        config

  unfoldable pub with_phase : String → NixosConfiguration → NixosConfiguration
  with_phase phase config = record config { status = record config.status { phase = phase } }

  unfoldable pub set_phase :
      String → String → Message → Bool → Option Condition → NixosConfiguration → NixosConfiguration
  set_phase phase reason msg applied child_git_synced config = put_git_synced child_git_synced (
      put_condition
        (condition_of config.generation condition_applied (when applied)
          (if applied then reason_config_applied else reason_waiting) msg)
        (put_condition
          (condition_of config.generation condition_reconciling
            (when (not (is_ready phase || is_stalled phase))) reason msg)
          (put_stalled (is_stalled phase)
            (condition_of config.generation condition_stalled condition_true reason msg)
            (put_condition
              (condition_of config.generation condition_ready (when (is_ready phase)) reason msg)
              (with_phase phase config)))))

  unfoldable pub set_blocked : String → Message → NixosConfiguration → NixosConfiguration
  set_blocked reason msg = set_phase ConfigPhase.blocked reason msg false none

  unfoldable pub set_degraded : Message → Bool → NixosConfiguration → NixosConfiguration
  set_degraded msg applied = set_phase ConfigPhase.degraded reason_apply_failed msg applied none
