-- ===== src/Api/Machine.antt =====
-- Machines (api/v1alpha1/machine_types.go), as far as the controllers read and write them.
use nio.Prelude.{ℕ, String, Bool, List, Option}
use nio.Kube.Conditions.{Condition}
use nio.Api.Core.{Labels}

pub record SshPasswordSecretRef : Type 0 where
  pub name : String
  pub key : String

-- `ssh_key_secret_ref` is a reference by name.
pub record MachineSpec : Type 0 where
  pub host : String
  pub ssh_user : String
  pub ssh_key_secret_ref : Option String
  pub ssh_password_secret_ref : Option SshPasswordSecretRef

-- Of the hardware facts only the architecture is collected; none is a nil `HardwareFacts`.
pub record MachineStatus : Type 0 where
  pub observed_generation : ℕ
  pub discoverable : Bool
  pub has_configuration : Bool
  pub applied_configuration : String
  pub applied_commit : String
  pub last_applied_time : Option ℕ
  pub last_hardware_scan_time : Option ℕ
  pub architecture : Option String
  pub conditions : List Condition

pub record Machine : Type 0 where
  pub name : String
  pub namespace : String
  pub labels : Labels
  pub generation : ℕ
  pub is_deleting : Bool
  pub finalizers : List String
  pub spec : MachineSpec
  pub status : MachineStatus
