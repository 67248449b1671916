-- ===== src/Workload/Flow.antt =====
-- The part of Reconcile that the controllers of the workloads have in common; what follows the
-- infrastructure is the argument `run`.
use nio.Prelude.{ℕ, String, [], Option, none, some, if◌then◌else◌}
use nio.Kube.{
  Error, is_conflict, is_not_found, message_of, Message, text, Result, ok, err, Requeue, no_requeue,
  requeue_now, requeue_in,
}
use nio.Kube.Conditions.{condition_true, condition_false}
use nio.Kube.Actions.{◌>>=◌, ◌>>◌, pure, fail, attempt, lift, get, modify}
use nio.Api.Workload.{NixSpec, NixWorkloadStatus}
use nio.Api.Names.{
  finalizer_name, condition_reconciling, condition_git_synced, reason_progressing,
  reason_infra_not_ready, phase_suspended,
}
use nio.Workload.State.{
  History, WorkloadReconciler, WorkStep, write_object, write_status, change_status,
}
use nio.Workload.Status.{
  set_condition, mark_stalled, poll_interval, infra_requeue, reason_ready, reason_git_error,
}
use nio.Workload.Resolve.{ResolvedSource, resolve_revision}
use nio.Workload.Infra.{InfraDeps, resolve_infra}

abbrev pub change : {A : Type 0} → (A → A) → WorkStep A (Unit {0})
change f = modify (λ s. record s { object = f s.object })

module _ {A : Type 0} (r : WorkloadReconciler A) where
  -- removeFinalizer
  unfoldable pub remove_finalizer : WorkStep A (Unit {0})
  remove_finalizer = do
    s ← get
    let held = r.kind.finalizers s.object
    if r.services.contains_finalizer held finalizer_name
        then (do
          change (r.kind.set_finalizers (r.services.remove_finalizer held finalizer_name))
          write_object r)
        else pure tt

  -- ensureFinalizer
  unfoldable pub ensure_finalizer : WorkStep A (Unit {0})
  ensure_finalizer = do
    s ← get
    let held = r.kind.finalizers s.object
    if r.services.contains_finalizer held finalizer_name then pure tt else (do
      change (r.kind.set_finalizers (r.services.add_finalizer held finalizer_name))
      write_object r)

  abbrev pub update_status : (ℕ → NixWorkloadStatus → NixWorkloadStatus) → WorkStep A (Unit {0})
  update_status f = change (change_status r f)

  abbrev pub observed : ℕ → NixWorkloadStatus → NixWorkloadStatus
  observed generation st =
      set_condition r.meta condition_reconciling condition_true reason_progressing
        (text "reconciling") generation (record st { observed_generation = generation })

  abbrev pub git_failed : Error → ℕ → NixWorkloadStatus → NixWorkloadStatus
  git_failed e generation st = mark_stalled r.meta reason_git_error (message_of e) generation (
      set_condition r.meta condition_git_synced condition_false reason_git_error (message_of e)
        generation st)

  abbrev pub git_synced : ResolvedSource → ℕ → ℕ → NixWorkloadStatus → NixWorkloadStatus
  git_synced res now generation st =
      set_condition r.meta condition_git_synced condition_true reason_ready
        (text "revision resolved") generation
        (record st { resolved_revision = res.revision; last_polled_time = some now })

  -- The status write at the end.
  abbrev pub finish : NixSpec → Result (Unit {0}) → WorkStep A Requeue
  finish nix (ok _) = pure (requeue_in (poll_interval nix))
  finish nix (err e) = if is_conflict e then pure requeue_now else fail e

  module _ (run : ResolvedSource → InfraDeps → WorkStep A (Unit {0})) where
    -- The infrastructure was looked up.
    abbrev pub infra_answer :
        NixSpec → ResolvedSource → InfraDeps → Option Message → WorkStep A Requeue
    infra_answer nix res deps (some message) = do
      update_status (mark_stalled r.meta reason_infra_not_ready message)
      write_status r
      pure (requeue_in infra_requeue)
    infra_answer nix res deps none = do
      run res deps
      written ← attempt (write_status r)
      finish nix written

    unfoldable pub with_infra : NixSpec → ResolvedSource → InfraDeps → WorkStep A Requeue
    with_infra nix res deps = infra_answer nix res deps deps.not_ready

    -- The revision was looked up.
    abbrev pub with_revision : NixSpec → Result ResolvedSource → WorkStep A Requeue
    with_revision nix (err e) = do
      update_status (git_failed e)
      _ ← attempt (write_status r)
      pure (requeue_in infra_requeue)
    with_revision nix (ok res) = do
      s ← get
      update_status (git_synced res (r.services.now s.history))
      owner ← get
      deps ← resolve_infra r owner.object nix
      with_infra nix res deps

    -- The object has its finalizer.
    unfoldable pub reconcile_workload : WorkStep A Requeue
    reconcile_workload = do
      update_status observed
      s ← get
      let nix = r.kind.nix s.object
      if nix.suspend
          then (do
            update_status (λ _ st. record st { phase = phase_suspended })
            write_status r
            pure no_requeue)
          else (do
            res ←
                attempt (lift (resolve_revision r s.history (r.kind.namespace s.object) nix.source))
            with_revision nix res)

    -- The object was found.
    unfoldable pub reconcile_found : WorkStep A Requeue
    reconcile_found = do
      s ← get
      if r.kind.is_deleting s.object
          then (do remove_finalizer; pure no_requeue)
          else (do ensure_finalizer; reconcile_workload)

    abbrev pub start : Result A → Result Requeue × History A
    start (ok object) =
        let done = reconcile_found (record { object = object; history = [] }) in
        (done.0, done.1.history)
    start (err e) = (if is_not_found e then ok no_requeue else err e, [])

    unfoldable pub reconcile : String → String → Result Requeue × History A
    reconcile namespace name = start (r.services.get_object [] namespace name)
