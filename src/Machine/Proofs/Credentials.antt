-- ===== src/Machine/Proofs/Credentials.antt =====
-- About buildSSHConfig.
use nio.Prelude.{String, false, ◌&&◌, Option, none, some, ◌≡◌, arith, ◌==◌, if◌then◌else◌}
use nio.Kube.{ok}
use nio.Api.Machine.{Machine, SshPasswordSecretRef}
use nio.Api.Core.{Secret, lookup}
use nio.Machine.State.{SshConfig, History, MachineReconciler}
use nio.Machine.Credentials.{
  private_key_data, password_key, with_key, with_password, with_auth, build_ssh_config,
}

module _ (r : MachineReconciler) (h : History) (namespace : String) where
  -- The private key is the one of the referenced secret, and is empty without a reference.
  abbrev pub HasKey : Option String → SshConfig → Type 0
  HasKey none config = config.private_key ≡ ""
  HasKey (some name) config =
      (secret : Secret) × (r.services.get_secret h namespace name ≡ ok secret)
      × (lookup secret.contents private_key_data ≡ some config.private_key)

  -- Likewise the password.
  abbrev pub HasPassword : Option SshPasswordSecretRef → SshConfig → Type 0
  HasPassword none config = config.password ≡ ""
  HasPassword (some ref) config =
      (secret : Secret) × (r.services.get_secret h namespace ref.name ≡ ok secret)
      × (lookup secret.contents (password_key ref) ≡ some config.password)

-- A configuration that buildSSHConfig returns has a user, root when the machine names none; its
-- private key and its password are those that the referenced secrets hold, and are empty without
-- a reference; and one of the two is not empty.
pub build_ssh_config-HasAuth :
    (r : MachineReconciler) (h : History) (machine : Machine) (config : SshConfig)
    → build_ssh_config r h machine ≡ ok config
    → (config.user ≡ (if machine.spec.ssh_user == "" then "root" else machine.spec.ssh_user))
      × HasKey r h machine.namespace machine.spec.ssh_key_secret_ref config
      × HasPassword r h machine.namespace machine.spec.ssh_password_secret_ref config
      × ((config.private_key == "" && config.password == "") ≡ false)
unfolding build_ssh_config with_key with_password with_auth
build_ssh_config-HasAuth r h machine config e = ground arith
