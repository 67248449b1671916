-- ===== src/Machine/Scan.antt =====
-- scanArchitecture: the architecture of a node, from `uname -m`.
use nio.Prelude.{
  ℕ, ◌-◌, String, Bool, false, ◌&&◌, ◌||◌, List, [], ◌∷◌, Option, none, some, ltb, leb, eqb, ◌==◌,
  if◌then◌else◌,
}
use nio.Prelude.Texts.{lines, trim_space, all_chars}
use nio.Kube.{Result, ok, err}
use nio.Kube.Actions.{◌>>=◌, pure, attempt, get}
use nio.Api.Machine.{Machine}
use nio.Machine.State.{
  SshConfig, run_command, MachineReconciler, MachineStep, default_ssh_port, logged, change_status,
}
use nio.Machine.Credentials.{build_ssh_config}

-- HardwareScanInterval, in seconds
abbrev pub hardware_scan_interval : ℕ
hardware_scan_interval = 43_200

-- A character of the class [A-Za-z0-9_], by its code.
abbrev pub is_arch_char : ℕ → Bool
is_arch_char c =
    (leb b'A' c && leb c b'Z')
    || (leb b'a' c && leb c b'z')
    || (leb b'0' c && leb c b'9')
    || eqb c b'_'

-- archPattern: ^[A-Za-z0-9_]+$
abbrev pub matches_arch : String → Bool
matches_arch s = if s == "" then false else all_chars is_arch_char s

-- The last plausible line so far.
unfoldable pub last_plausible : List String → String → String
last_plausible [] arch = arch
last_plausible (line ∷ rest) arch =
    let candidate = trim_space line in
    last_plausible rest (if matches_arch candidate then candidate else arch)

-- LastHardwareScanTime is set, and not old.
abbrev pub is_fresh : ℕ → Option ℕ → Bool
is_fresh now none = false
is_fresh now (some scanned) = ltb (now - scanned) hardware_scan_interval

abbrev pub is_known : String → Option String → Bool
is_known arch none = false
is_known arch (some known) = known == arch

abbrev pub with_architecture : String → ℕ → Machine → Machine
with_architecture arch now =
    change_status (λ st. record st { architecture = some arch; last_hardware_scan_time = some now })

-- RunCommand's answer, with its entry in the history.
abbrev ran : SshConfig → String → Result String → MachineStep String
ran config host (ok out) s =
    (ok out, logged (run_command host default_ssh_port config "uname -m") none s)
ran config host (err e) s =
    (err e, logged (run_command host default_ssh_port config "uname -m") (some e) s)

module _ (r : MachineReconciler) where
  -- r.SSHClient.RunCommand(…, "uname -m")
  abbrev pub uname : SshConfig → MachineStep String
  uname config s =
      ran config s.machine.spec.host
        (r.services.run_command s.history s.machine.spec.host default_ssh_port config "uname -m") s

  -- What follows the plausible answer.
  unfoldable pub record_architecture : String → MachineStep (Unit {0})
  record_architecture arch s =
      if arch == ""
      then (ok tt, s)
      else if is_known arch s.machine.status.architecture
      then (ok tt, s)
      else (
        ok tt,
        record s { machine = with_architecture arch (r.services.now s.history) s.machine },
      )

  abbrev scanned : Result String → MachineStep (Unit {0})
  scanned (err e) = pure tt
  scanned (ok out) = record_architecture (last_plausible (lines out) "")

  abbrev pub scan_with : Result SshConfig → MachineStep (Unit {0})
  scan_with (err e) = pure tt
  scan_with (ok config) = do out ← attempt (uname config); scanned out

  unfoldable pub scan_architecture : MachineStep (Unit {0})
  scan_architecture = do
    s ← get
    if is_fresh (r.services.now s.history) s.machine.status.last_hardware_scan_time
        then pure tt
        else scan_with (build_ssh_config r s.history s.machine)
