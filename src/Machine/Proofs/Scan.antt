-- ===== src/Machine/Proofs/Scan.antt =====
-- About scanArchitecture: what it records, and how often it connects.
use nio.Prelude.{
  String, true, false, List, [], ◌∷◌, none, some, ◌≡◌, refl, ◌⊎◌, inl, inr, arith, ◌==◌, Bool-cases,
  eq_iff, eq_refl,
}
use nio.Prelude.Texts.{lines, trim_space}
use nio.Kube.{ok}
use nio.Kube.Binds.{Result-cases}
use nio.Api.Machine.{Machine}
use nio.Machine.State.{
  SshConfig, run_command, MachineReconciler, MachineSt, default_ssh_port, logged,
}
use nio.Machine.Credentials.{build_ssh_config}
use nio.Machine.Scan.{
  matches_arch, last_plausible, is_fresh, is_known, record_architecture, scan_with,
  scan_architecture,
}

-- Nothing, or a plausible architecture.
abbrev IsPlausible : String → Type 0
IsPlausible arch = (arch ≡ "") ⊎ (matches_arch arch ≡ true)

last_plausible-IsPlausible :
    (output : List String) (arch : String)
    → IsPlausible arch
    → IsPlausible (last_plausible output arch)
unfolding last_plausible
last_plausible-IsPlausible [] arch h = h
last_plausible-IsPlausible (line ∷ rest) arch h =
    elim (Bool-cases (matches_arch (trim_space line))) [
      | inl e ↦ rw e (last_plausible-IsPlausible rest (trim_space line) (inr e))
      | inr e ↦ rw e (last_plausible-IsPlausible rest arch h)
    ]

module _ (r : MachineReconciler) where
  -- What one scan may do to the machine; the time is the one at the end of the scan.
  abbrev pub Records : Machine → MachineSt → Type 0
  Records before after =
      (after.machine ≡ before)
      ⊎ ((arch : String) × (matches_arch arch ≡ true)
          × (is_known arch before.status.architecture ≡ false)
          × (after.machine ≡ record before {
            status = record before.status {
              architecture = some arch;
              last_hardware_scan_time = some (r.services.now after.history);
            };
          }))

  record_architecture-Records :
      (arch : String) (s : MachineSt)
      → IsPlausible arch
      → Records s.machine (record_architecture r arch s).1
  unfolding record_architecture
  record_architecture-Records arch s h = elim (Bool-cases (arch == "")) [
    | inl e ↦ rw e (inl refl)
    | inr e ↦ elim (Bool-cases (is_known arch s.machine.status.architecture)) [
      | inl k ↦ rw (e, k) (inl refl)
      | inr k ↦ rw (e, k) (inr (arch, ground (arith, eq_iff arch ""), k, refl))
    ]
  ]

  scan_with-Records :
      (config : SshConfig) (s : MachineSt) → Records s.machine (scan_with r (ok config) s).1
  scan_with-Records config s =
      elim (Result-cases
        (r.services.run_command s.history s.machine.spec.host default_ssh_port config "uname -m")) [
          | inl (out, e) ↦ rw e (
              record_architecture-Records _ _
                (last_plausible-IsPlausible (lines out) "" (inl refl)))
          | inr (x, e) ↦ rw e (inl refl)
        ]

  -- Each scan leaves the machine as it was, or records an architecture that matches the pattern
  -- and differs from the one that was known, with the time at the end of the scan, in these two
  -- fields of the status; nothing else of the machine changes.
  pub scan_architecture-Records : (s : MachineSt) → Records s.machine (scan_architecture r s).1
  unfolding scan_architecture
  scan_architecture-Records s =
      elim (Bool-cases
        (is_fresh (r.services.now s.history) s.machine.status.last_hardware_scan_time)) [
          | inl e ↦ rw e (inl refl)
          | inr e ↦ elim (Result-cases (build_ssh_config r s.history s.machine)) [
            | inl (config, c) ↦ rw (e, c) (scan_with-Records config s)
            | inr (x, c) ↦ rw (e, c) (inl refl)
          ]
        ]

  -- A scan that is due and reads the architecture that is already recorded changes nothing but the
  -- history, which has one more command on the node: the time of the scan is not set again, so
  -- that once the recorded time is old the next reconcile runs the command as well.
  pub scan_architecture-unstamped :
      (s : MachineSt) (config : SshConfig) (output known : String)
      → is_fresh (r.services.now s.history) s.machine.status.last_hardware_scan_time ≡ false
      → build_ssh_config r s.history s.machine ≡ ok config
      → r.services.run_command s.history s.machine.spec.host default_ssh_port config "uname -m"
        ≡ ok output
      → last_plausible (lines output) "" ≡ known
      → s.machine.status.architecture ≡ some known
      → (scan_architecture r s).1
        ≡ logged (run_command s.machine.spec.host default_ssh_port config "uname -m") none s
  unfolding scan_architecture record_architecture
  scan_architecture-unstamped s config output known stale built ran read recorded =
      rw (stale, built, ran, read, recorded, eq_refl known)
        (elim (Bool-cases (known == "")) [ inl e ↦ rw e refl | inr e ↦ rw e refl ])
