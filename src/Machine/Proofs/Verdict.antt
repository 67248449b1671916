-- ===== src/Machine/Proofs/Verdict.antt =====
-- About the status that one reconcile of a machine writes.
use nio.Prelude.{
  Bool, false, not, [], ◌∷◌, Option, none, some, is_some, ◌≡◌, refl, arith, Bool-cases, inl, inr,
}
use nio.Kube.{Error, Result, ok, err, Requeue, requeue_in}
use nio.Kube.Conditions.{holds}
use nio.Kube.Actions.{◌>>◌, lift}
use nio.Kube.Binds.{Result-cases}
use nio.Api.Machine.{Machine}
use nio.Api.Names.{condition_ready, condition_stalled, condition_reconciling}
use nio.Machine.State.{
  update_machine_status, check_connection, record_error, History, MachineReconciler, MachineSt,
  MachineStep, discovery_interval, found_condition, write_machine_status,
}
use nio.Machine.Scan.{scan_architecture, record_architecture}
use nio.Machine.Reconcile.{check_discoverable, reconcile_machine, conclude, drive_machine}

-- Whether the latest attempt to reach the node succeeded: a probe that was answered, and not
-- missing credentials (which count an error).
abbrev reached : History → Bool
reached [] = false
reached (e ∷ h) = elim e.call [
  | check_connection host port config ↦ not (is_some e.failure)
  | record_error kind ↦ false
  | _ ↦ reached h
]

module _ (r : MachineReconciler) where
  abbrev pub AgreesWith : History → Machine → Type 0
  AgreesWith h machine =
      (machine.status.discoverable ≡ reached h)
      × (holds (found_condition r machine condition_ready) ≡ reached h)
      × (holds (found_condition r machine condition_reconciling) ≡ false)
      × (found_condition r machine condition_stalled ≡ none)

  abbrev pub WritesVerdict : History → Type 0
  WritesVerdict [] = ⊥
  WritesVerdict (e ∷ h) = elim e.call [ update_machine_status m ↦ AgreesWith h m | _ ↦ ⊥ ]

  -- A scan leaves the verdict alone.
  scan-kept :
      (s : MachineSt)
      → (reached (scan_architecture r s).1.history ≡ reached s.history)
        × ((scan_architecture r s).1.machine.status.discoverable ≡ s.machine.status.discoverable)
  unfolding scan_architecture record_architecture
  scan-kept s = ground arith

  reconcile_machine-ok :
      (s : MachineSt) → (reconcile_machine r s).0 ≡ ok (requeue_in discovery_interval)
  unfolding reconcile_machine check_discoverable scan_architecture record_architecture
  reconcile_machine-ok s = ground arith

  reconcile_machine-reached :
      (s : MachineSt)
      → (reconcile_machine r s).1.machine.status.discoverable
        ≡ reached (reconcile_machine r s).1.history
  unfolding reconcile_machine check_discoverable scan_architecture record_architecture
  reconcile_machine-reached s = ground arith

  -- The final conditions of a reconciliation that succeeded.
  conclude-agrees :
      (requeue : Requeue) (h : History) (machine : Machine)
      → machine.status.discoverable ≡ reached h
      → AgreesWith h (conclude r (ok requeue) machine)
  unfolding conclude
  conclude-agrees requeue h machine e = elim (Bool-cases machine.status.discoverable) [
    | inl d ↦ rw (← e, d) (simp (r.meta.find-set, r.meta.find-remove) (refl, refl, refl, refl))
    | inr d ↦ rw (← e, d) (simp (r.meta.find-set, r.meta.find-remove) (refl, refl, refl, refl))
  ]

  written :
      (rest : MachineStep Requeue) (m : Machine) (h : History)
      → AgreesWith h m
      → ((t : MachineSt) → (rest t).1 ≡ t)
      → WritesVerdict
          ((write_machine_status r >> rest) (record { machine = m; history = h })).1.history
  written rest m h agrees last = elim (Result-cases (r.services.update_machine_status h m)) [
    | inl (stored, e) ↦ rw (e, last) agrees
    | inr (x, e) ↦ rw e agrees
  ]

  -- The answer of the reconciliation, given what the status update answered.
  abbrev pub verdict_answer : Option Error → Result Requeue
  verdict_answer none = ok (requeue_in discovery_interval)
  verdict_answer (some e) = err e

  -- The last call failed or not; what it failed with is the answer.
  abbrev pub AnswersBy : History → Result Requeue → Type 0
  AnswersBy [] answer = ⊥
  AnswersBy (e ∷ h) answer = answer ≡ verdict_answer e.failure

  answered :
      (m : Machine) (h : History)
      → AnswersBy
          ((write_machine_status r >> lift (ok (requeue_in discovery_interval)))
            (record { machine = m; history = h })).1.history
          ((write_machine_status r >> lift (ok (requeue_in discovery_interval)))
            (record { machine = m; history = h })).0
  answered m h = elim (Result-cases (r.services.update_machine_status h m)) [
    | inl (stored, e) ↦ rw e refl
    | inr (x, e) ↦ rw e refl
  ]

  -- The part of Reconcile that checks a machine which is not being deleted and has its finalizer,
  -- from the call of reconcile to the end. Its last call is a status update. That says discoverable,
  -- and Ready, exactly when the latest attempt to reach the node succeeded (not when credentials are
  -- missing); it says neither Reconciling nor Stalled. The answer is a requeue after the discovery
  -- interval, or the error of that last call: an unreachable node makes no error.
  pub drive_machine-WritesVerdict :
      (s : MachineSt)
      → WritesVerdict (drive_machine r s).1.history
        × AnswersBy (drive_machine r s).1.history (drive_machine r s).0
  unfolding drive_machine
  drive_machine-WritesVerdict s =
      let m = (reconcile_machine r s).1.machine in
      let h = (reconcile_machine r s).1.history in
      rw (reconcile_machine-ok s) (
        written _ (conclude r (ok (requeue_in discovery_interval)) m) h
            (conclude-agrees (requeue_in discovery_interval) h m (reconcile_machine-reached s))
            (λ t. refl),
        answered (conclude r (ok (requeue_in discovery_interval)) m) h,
      )
