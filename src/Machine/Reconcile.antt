-- ===== src/Machine/Reconcile.antt =====
-- Reconcile, reconcile, checkDiscoverable and reconcileDelete of the Machine controller.
use nio.Prelude.{
  String, Bool, true, false, not, Option, none, some, [], is_some, ◌==◌, if◌then◌else◌,
}
use nio.Kube.{
  Error, is_not_found, message_of, text, Result, ok, err, Requeue, no_requeue, requeue_in,
}
use nio.Kube.Conditions.{Condition, condition_true, condition_false}
use nio.Kube.Actions.{◌>>=◌, ◌>>◌, pure, attempt, lift, get, modify}
use nio.Api.Machine.{Machine}
use nio.Api.Names.{
  finalizer_name, condition_reconciling, condition_stalled, condition_ready, condition_discoverable,
  reason_progressing, reason_failed, reason_succeeded, reason_ssh_connected, reason_ssh_failed,
  reason_credentials_missing,
}
use nio.Machine.State.{
  SshConfig, check_connection, record_event, record_error, record_ssh_connection, History,
  MachineReconciler, MachineStep, default_ssh_port, discovery_interval, logged, noted,
  write_machine, write_machine_status, put_condition, drop_condition, found_condition,
  change_status,
}
use nio.Machine.Credentials.{build_ssh_config}
use nio.Machine.Scan.{scan_architecture}

abbrev pub change : (Machine → Machine) → MachineStep (Unit {0})
change f = modify (λ s. record s { machine = f s.machine })

abbrev probed : SshConfig → String → Option Error → MachineStep (Option Error)
probed config host answer s =
    (ok answer, logged (check_connection host default_ssh_port config) answer s)

abbrev observed : Machine → Machine
observed machine =
    change_status (λ st. record st { observed_generation = machine.generation }) machine

-- The reason of the condition is CredentialsMissing.
abbrev pub is_credentials_missing : Option Condition → Bool
is_credentials_missing none = false
is_credentials_missing (some cond) = cond.reason == reason_credentials_missing

module _ (r : MachineReconciler) where
  -- r.SSHClient.CheckConnection(…)
  abbrev pub probe : SshConfig → MachineStep (Option Error)
  probe config s =
      probed config s.machine.spec.host
        (r.services.check_connection s.history s.machine.spec.host default_ssh_port config) s

  abbrev pub check_with : Result SshConfig → MachineStep (Option Error)
  check_with (err e) = do
    change (
        put_condition r condition_discoverable condition_false reason_credentials_missing
          (message_of e))
    noted (record_event true "CredentialsMissing" (message_of e))
    noted (record_error "ssh")
    pure (some e)
  check_with (ok config) = do
    answer ← probe config
    noted (record_ssh_connection (not (is_some answer)))
    pure answer

  -- The pair `(discoverable, err)`: a nil error goes with true, an error with false.
  unfoldable pub check_discoverable : MachineStep (Option Error)
  check_discoverable = do s ← get; check_with (build_ssh_config r s.history s.machine)

  abbrev set_discoverable : Bool → Machine → Machine
  set_discoverable b = change_status (λ st. record st { discoverable = b })

  -- The condition of a machine that could not be reached.
  abbrev pub unreachable : Error → Machine → Machine
  unreachable e machine =
      if is_credentials_missing (found_condition r machine condition_discoverable)
      then machine
      else put_condition r condition_discoverable condition_false reason_ssh_failed (message_of e)
          machine

  abbrev pub discovered : Option Error → MachineStep (Unit {0})
  discovered none = do
    change (set_discoverable true)
    change (
        put_condition r condition_discoverable condition_true reason_ssh_connected
          (text "SSH connection successful"))
    noted (record_event false "Discoverable" (text "Machine is reachable via SSH"))
    scan_architecture r
  discovered (some e) = do change (set_discoverable false); change (unreachable e)

  unfoldable pub reconcile_machine : MachineStep Requeue
  reconcile_machine = do
    answer ← check_discoverable
    discovered answer
    pure (requeue_in discovery_interval)

  -- Ready, by the Discoverable status.
  abbrev pub put_ready : Machine → Machine
  put_ready machine =
      if machine.status.discoverable
      then put_condition r condition_ready condition_true reason_ssh_connected
          (text "Machine is ready and reachable via SSH") machine
      else put_condition r condition_ready condition_false reason_ssh_failed
          (text "Machine is not reachable via SSH") machine

  -- The final conditions.
  unfoldable pub conclude : {A : Type 0} → Result A → Machine → Machine
  conclude (err e) machine =
      put_condition r condition_ready condition_false reason_failed (message_of e)
        (put_condition r condition_stalled condition_true reason_failed (message_of e) machine)
  conclude (ok _) machine = put_ready (
      drop_condition r condition_stalled (
        put_condition r condition_reconciling condition_false reason_succeeded
          (text "Reconciliation completed") machine))

  -- The reconciliation, its conditions, and the final status update.
  unfoldable pub drive_machine : MachineStep Requeue
  drive_machine = do
    answer ← attempt (reconcile_machine)
    change (conclude answer)
    write_machine_status r
    lift answer

  abbrev with_finalizer : Machine → Machine
  with_finalizer machine = record machine {
    finalizers = r.services.add_finalizer machine.finalizers finalizer_name;
  }

  abbrev without_finalizer : Machine → Machine
  without_finalizer machine = record machine {
    finalizers = r.services.remove_finalizer machine.finalizers finalizer_name;
  }

  unfoldable pub reconcile_delete : MachineStep Requeue
  reconcile_delete = do
    s ← get
    if r.services.contains_finalizer s.machine.finalizers finalizer_name
        then (do change without_finalizer; write_machine r; pure no_requeue)
        else pure no_requeue

  unfoldable pub reconcile_kept : MachineStep Requeue
  reconcile_kept = do
    s ← get
    if r.services.contains_finalizer s.machine.finalizers finalizer_name
        then drive_machine
        else (do change with_finalizer; write_machine r; drive_machine)

  -- The machine was found.
  unfoldable pub reconcile_found : MachineStep Requeue
  reconcile_found = do
    change observed
    change (
        put_condition r condition_reconciling condition_true reason_progressing
          (text "Reconciliation in progress"))
    write_machine_status r
    s ← get
    if s.machine.is_deleting then reconcile_delete else reconcile_kept

  abbrev start : Result Machine → Result Requeue × History
  start (ok machine) =
      let done = reconcile_found (record { machine = machine; history = [] }) in
      (done.0, done.1.history)
  start (err e) = (if is_not_found e then ok no_requeue else err e, [])

  unfoldable pub reconcile : String → String → Result Requeue × History
  reconcile namespace name = start (r.services.get_machine [] namespace name)
