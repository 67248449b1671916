-- ===== src/Machine/Credentials.antt =====
-- buildSSHConfig: the SSH configuration of a machine, from its spec and its secrets.
use nio.Prelude.{String, [], ◌∷◌, Option, none, some, ◌==◌, ◌&&◌, if◌then◌else◌}
use nio.Kube.{
  Error, other, is_not_found, message_of, text, sprintf, wrapped, str, Result, ok, err, ◌>>=◌,
}
use nio.Api.Machine.{Machine, SshPasswordSecretRef}
use nio.Api.Core.{Secret, lookup}
use nio.Machine.State.{SshConfig, History, MachineReconciler, default_ssh_timeout}

abbrev pub private_key_data : String
private_key_data = "ssh-privatekey"

abbrev no_auth : Error
no_auth = other (text "no SSH authentication method configured (neither key nor password)")

-- The configuration with what the secret holds.
abbrev pub keyed : SshConfig → String → Option String → Result SshConfig
keyed config name none =
    err (other (sprintf "secret %q does not contain 'ssh-privatekey'" (str name ∷ [])))
keyed config name (some key) = ok (record config { private_key = key })

abbrev pub passworded : SshConfig → String → String → Option String → Result SshConfig
passworded config name key none =
    err (other (sprintf "secret %q does not contain key %q" (str name ∷ str key ∷ [])))
passworded config name key (some password) = ok (record config { password = password })

-- The answer of a Get of a secret, with the errors of the code.
abbrev pub secret_or : String → String → String → Result Secret → Result Secret
secret_or missing failing name (ok secret) = ok secret
secret_or missing failing name (err e) =
    if is_not_found e
    then err (other (sprintf missing (str name ∷ [])))
    else err (other (wrapped failing [] (message_of e)))

-- The key of the password in its secret.
abbrev pub password_key : SshPasswordSecretRef → String
password_key ref = if ref.key == "" then "password" else ref.key

module _ (r : MachineReconciler) (h : History) (namespace : String) where
  -- if machine.Spec.SSHKeySecretRef != nil { … }
  unfoldable pub with_key : Option String → SshConfig → Result SshConfig
  with_key none config = ok config
  with_key (some name) config = do
    secret ←
        secret_or "SSH key secret %q not found" "get SSH key secret: %w" name
          (r.services.get_secret h namespace name)
    keyed config name (lookup secret.contents private_key_data)

  -- if machine.Spec.SSHPasswordSecretRef != nil { … }
  unfoldable pub with_password : Option SshPasswordSecretRef → SshConfig → Result SshConfig
  with_password none config = ok config
  with_password (some ref) config = do
    secret ←
        secret_or "SSH password secret %q not found" "get SSH password secret: %w" ref.name
          (r.services.get_secret h namespace ref.name)
    passworded config ref.name (password_key ref) (lookup secret.contents (password_key ref))

-- At least one way to authenticate.
unfoldable pub with_auth : SshConfig → Result SshConfig
with_auth config =
    if config.private_key == "" && config.password == "" then err no_auth else ok config

-- The configuration before the secrets are read.
abbrev pub bare_config : Machine → SshConfig
bare_config machine = record {
  user = if machine.spec.ssh_user == "" then "root" else machine.spec.ssh_user;
  private_key = "";
  password = "";
  timeout = default_ssh_timeout;
}

unfoldable pub build_ssh_config : MachineReconciler → History → Machine → Result SshConfig
build_ssh_config r h machine = do
  keyed ← with_key r h machine.namespace machine.spec.ssh_key_secret_ref (bare_config machine)
  full ← with_password r h machine.namespace machine.spec.ssh_password_secret_ref keyed
  with_auth full
