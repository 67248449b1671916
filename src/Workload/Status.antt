-- ===== src/Workload/Status.antt =====
-- setCondition, markStalled, clearStalled, markReady, markProgressing, pollInterval,
-- triggerOnChange, observePodInit.
use nio.Prelude.{
  ℕ, String, Bool, true, not, ◌||◌, List, [], ◌∷◌, none, some, ◌==◌, ltb, eqb, if◌then◌else◌,
}
use nio.Kube.{Message, text}
use nio.Kube.Conditions.{ConditionStatus, condition_true, condition_false, Meta}
use nio.Api.Workload.{NixSpec, NixWorkloadStatus}
use nio.Api.Builder.{Pod, ContainerState, terminated, waiting, running, no_state}
use nio.Api.Names.{
  condition_ready, condition_stalled, condition_progressing, phase_ready, phase_degraded,
  reason_progressing,
}
use nio.Render.Pod.{init_instantiate}

-- defaultPollInterval and infraRequeue, in seconds
abbrev pub default_poll_interval : ℕ
default_poll_interval = 60

abbrev pub infra_requeue : ℕ
infra_requeue = 15

abbrev pub reason_ready : String
reason_ready = "Ready"

abbrev pub reason_git_error : String
reason_git_error = "GitError"

-- The cadence of a workload.
unfoldable pub poll_interval : NixSpec → ℕ
poll_interval nix = elim nix.source.poll_interval [
  | none ↦ default_poll_interval
  | some interval ↦ if ltb 0 interval then interval else default_poll_interval
]

unfoldable pub trigger_on_change : NixSpec → Bool → Bool
trigger_on_change nix default_val = elim nix.trigger_on_change [ none ↦ default_val | some b ↦ b ]

module _ (m : Meta) where
  abbrev pub set_condition :
      String → ConditionStatus → String → Message → ℕ → NixWorkloadStatus → NixWorkloadStatus
  set_condition type status reason message generation st = record st {
    conditions = m.set_status_condition st.conditions (record {
      type = type;
      status = status;
      observed_generation = generation;
      reason = reason;
      message = message;
    });
  }

  unfoldable pub mark_stalled : String → Message → ℕ → NixWorkloadStatus → NixWorkloadStatus
  mark_stalled reason message generation st =
      set_condition condition_ready condition_false reason message generation (
        set_condition condition_stalled condition_true reason message generation
          (record st { phase = phase_degraded }))

  unfoldable pub clear_stalled : NixWorkloadStatus → NixWorkloadStatus
  clear_stalled st = record st {
    conditions = m.remove_status_condition st.conditions condition_stalled;
  }

  unfoldable pub mark_ready : String → ℕ → NixWorkloadStatus → NixWorkloadStatus
  mark_ready rolled_out generation st = clear_stalled (
      set_condition condition_progressing condition_false reason_ready (text "rollout complete")
        generation
        (set_condition condition_ready condition_true reason_ready (text "workload is ready")
          generation (record st { phase = phase_ready; rolled_out_revision = rolled_out })))

  unfoldable pub mark_progressing : String → Message → ℕ → NixWorkloadStatus → NixWorkloadStatus
  mark_progressing phase message generation st =
      set_condition condition_ready condition_false reason_progressing message generation (
        set_condition condition_progressing condition_true reason_progressing message generation
          (record st { phase = phase }))

-- podInitState
pub record PodInitState : Type 0 where
  pub building : Bool
  pub failing : Bool

-- One init container of one pod.
unfoldable pub observe_init : PodInitState → String × ContainerState → PodInitState
observe_init state (name, current) = if not (name == init_instantiate) then state else seen current
  where
    seen : ContainerState → PodInitState
    seen (terminated code) = if eqb code 0 then state else record state { failing = true }
    seen (waiting reason) =
        if reason == "CrashLoopBackOff" || reason == "Error"
        then record state { failing = true }
        else if state.failing
        then state
        else record state { building = true }
    seen running = record state { building = true }
    seen no_state = state

unfoldable pub observe_inits : PodInitState → List (String × ContainerState) → PodInitState
observe_inits state [] = state
observe_inits state (c ∷ cs) = observe_inits (observe_init state c) cs

unfoldable pub observe_pods : PodInitState → List Pod → PodInitState
observe_pods state [] = state
observe_pods state (p ∷ ps) = observe_pods (observe_inits state p.init_statuses) ps
