-- ===== src/Machine/State.antt =====
-- MachineReconciler (internal/controller/machine_controller.go): its working copy of the machine,
-- and its calls. What the API server, the SSH client (internal/ssh) and the clock answer is a
-- record of functions of the calls made so far.
use nio.Prelude.{ℕ, String, Bool, List, ◌∷◌, Option, none, some}
use nio.Kube.{Error, Message, Result, ok, err}
use nio.Kube.Conditions.{Condition, ConditionStatus, Meta}
use nio.Kube.Actions.{Action}
use nio.Api.Core.{Secret}
use nio.Api.Machine.{Machine, MachineStatus}

-- ssh.Config; the timeout counts seconds.
pub record SshConfig : Type 0 where
  pub user : String
  pub private_key : String
  pub password : String
  pub timeout : ℕ

-- The calls that write, reach a node, record an event or count in the metrics.
pub data Call : Type 0 where
  update_machine update_machine_status : Machine → Call
  check_connection : String → ℕ → SshConfig → Call
  run_command : String → ℕ → SshConfig → String → Call
  record_event : Bool → String → Message → Call
  record_error : String → Call
  record_ssh_connection : Bool → Call

pub record Event : Type 0 where
  pub call : Call
  pub failure : Option Error

-- The latest call first.
abbrev pub History : Type 0
History = List Event

pub record Services : Type 0 where
  pub get_machine : History → String → String → Result Machine
  pub get_secret : History → String → String → Result Secret
  pub update_machine : History → Machine → Result Machine
  pub update_machine_status : History → Machine → Result Machine
  -- List in a namespace, by the field indexes on the two secret references
  pub list_by_ssh_key_secret : String → String → Result (List Machine)
  pub list_by_ssh_password_secret : String → String → Result (List Machine)
  -- ssh.Client: host, port, configuration (and command)
  pub check_connection : History → String → ℕ → SshConfig → Option Error
  pub run_command : History → String → ℕ → SshConfig → String → Result String
  -- time.Now(), in seconds
  pub now : History → ℕ
  -- controllerutil.ContainsFinalizer, AddFinalizer, RemoveFinalizer
  pub contains_finalizer : List String → String → Bool
  pub add_finalizer : List String → String → List String
  pub remove_finalizer : List String → String → List String

pub record MachineReconciler : Type 0 where
  pub services : Services
  pub meta : Meta

pub record MachineSt : Type 0 where
  pub machine : Machine
  pub history : History

abbrev pub MachineStep : Type 0 → Type 0
MachineStep A = Action MachineSt A

-- DefaultSSHPort
abbrev pub default_ssh_port : ℕ
default_ssh_port = 22

-- DefaultSSHTimeout, in seconds
abbrev pub default_ssh_timeout : ℕ
default_ssh_timeout = 30

-- DiscoveryInterval, in seconds
abbrev pub discovery_interval : ℕ
discovery_interval = 60

abbrev pub logged : Call → Option Error → MachineSt → MachineSt
logged c e s = record s { history = record { call = c; failure = e } ∷ s.history }

-- A call that cannot fail.
abbrev pub noted : Call → MachineStep (Unit {0})
noted c s = (ok tt, logged c none s)

-- A write of the working copy, which the stored object replaces.
abbrev pub replaced : Call → Result Machine → MachineStep (Unit {0})
replaced c (ok stored) s = (ok tt, record (logged c none s) { machine = stored })
replaced c (err e) s = (err e, logged c (some e) s)

abbrev pub change_status : (MachineStatus → MachineStatus) → Machine → Machine
change_status f machine = record machine { status = f machine.status }

module _ (r : MachineReconciler) where
  -- r.Update(ctx, machine)
  abbrev pub write_machine : MachineStep (Unit {0})
  write_machine s =
      replaced (update_machine s.machine) (r.services.update_machine s.history s.machine) s

  -- r.Status().Update(ctx, machine)
  abbrev pub write_machine_status : MachineStep (Unit {0})
  write_machine_status s =
      replaced (update_machine_status s.machine)
        (r.services.update_machine_status s.history s.machine) s

  -- meta.SetStatusCondition on the machine, at its generation
  abbrev pub put_condition : String → ConditionStatus → String → Message → Machine → Machine
  put_condition type status reason message machine =
      change_status
        (λ st. record st {
          conditions = r.meta.set_status_condition st.conditions (record {
            type = type;
            status = status;
            observed_generation = machine.generation;
            reason = reason;
            message = message;
          });
        })
        machine

  -- meta.RemoveStatusCondition
  abbrev pub drop_condition : String → Machine → Machine
  drop_condition type =
      change_status
        (λ st. record st { conditions = r.meta.remove_status_condition st.conditions type })

  abbrev pub found_condition : Machine → String → Option Condition
  found_condition machine = r.meta.find_status_condition machine.status.conditions
