-- ===== src/Samples/Machines.antt =====
-- A Machine reconciler over fixed secrets and a node that answers, and one whose node does not.
use nio.Prelude.{String, false, [], ◌∷◌, Option, none, some, ◌≡◌, refl}
use nio.Kube.{Error, other, text, ok}
use nio.Kube.Conditions.{slice_meta}
use nio.Api.Core.{Secret, lookup}
use nio.Machine.State.{SshConfig, Services, MachineReconciler, MachineSt}
use nio.Machine.Credentials.{build_ssh_config, with_key, with_password, with_auth}
use nio.Machine.Scan.{last_plausible, scan_architecture}
use nio.Machine.Reconcile.{drive_machine}
use nio.Machine.Watch.{add_missing, find_machines_for_secret}
use nio.Machine.Proofs.Credentials.{HasKey, HasPassword, build_ssh_config-HasAuth}
use nio.Machine.Proofs.Scan.{Records, scan_architecture-Records}
use nio.Machine.Proofs.Verdict.{WritesVerdict, AnswersBy, drive_machine-WritesVerdict}
use nio.Prelude.Texts.{lines, lines_from, trim_space, trim_left, trim_right}
use nio.Samples.Server.{host, has, without}

abbrev key_secret : Secret
key_secret = record {
  name = "host-a-key";
  namespace = "default";
  labels = [];
  owner_uids = [];
  type = "";
  contents = ("ssh-privatekey", "KEY") ∷ [];
}

abbrev refused : Error
refused = other (text "connection refused")

-- The answers of the node are arguments; the time is 100000 s.
abbrev services : Option Error → String → Services
services probe output = record {
  get_machine = λ h ns name. ok host;
  get_secret = λ h ns name. ok key_secret;
  update_machine = λ h m. ok m;
  update_machine_status = λ h m. ok m;
  list_by_ssh_key_secret = λ ns name. ok (host ∷ []);
  list_by_ssh_password_secret = λ ns name. ok (host ∷ record host { name = "host-b" } ∷ []);
  check_connection = λ h to port config. probe;
  run_command = λ h to port config command. ok output;
  now = λ h. 100_000;
  contains_finalizer = has;
  add_finalizer = λ fs f. f ∷ fs;
  remove_finalizer = without;
}

abbrev lab : Option Error → String → MachineReconciler
lab probe output = record { services = services probe output; meta = slice_meta }

abbrev root_config : SshConfig
root_config = record { user = "root"; private_key = "KEY"; password = ""; timeout = 30 }

abbrev start : MachineSt
start = record { machine = host; history = [] }

-- The same machine, scanned a long time ago.
abbrev scanned_host : MachineSt
scanned_host = record {
  machine = record host {
    status = record host.status { architecture = some "x86_64"; last_hardware_scan_time = some 10 };
  };
  history = [];
}

built : build_ssh_config (lab none "") [] host ≡ ok root_config
unfolding build_ssh_config with_key with_password with_auth lookup
built = refl

-- The output of the command carries a warning of sshd.
banner : last_plausible (lines "Warning: x\nx86_64\n") "" ≡ "x86_64"
unfolding last_plausible lines lines_from trim_space trim_left trim_right
banner = refl

build_ssh_config-HasAuth_example :
    (root_config.user ≡ "root")
    × HasKey (lab none "") [] "default" (some "host-a-key") root_config
    × HasPassword (lab none "") [] "default" none root_config
    × (false ≡ false)
build_ssh_config-HasAuth_example = build_ssh_config-HasAuth (lab none "") [] host root_config built

scan_architecture-Records_example :
    Records (lab none "x86_64\n") host (scan_architecture (lab none "x86_64\n") start).1
scan_architecture-Records_example = scan_architecture-Records (lab none "x86_64\n") start

drive_machine-WritesVerdict_example :
    WritesVerdict (lab none "x86_64\n") (drive_machine (lab none "x86_64\n") start).1.history
    × AnswersBy
        (lab none "x86_64\n")
        (drive_machine (lab none "x86_64\n") start).1.history
        (drive_machine (lab none "x86_64\n") start).0
drive_machine-WritesVerdict_example = drive_machine-WritesVerdict (lab none "x86_64\n") start

-- The machine that both indexes name is requested once.
requested :
    find_machines_for_secret (lab none "") key_secret
    ≡ record { name = "host-a"; namespace = "default" }
      ∷ record { name = "host-b"; namespace = "default" }
      ∷ []
unfolding find_machines_for_secret add_missing
requested = refl
