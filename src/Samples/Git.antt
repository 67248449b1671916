-- ===== src/Samples/Git.antt =====
-- A host on which each file is written and git refuses the connection.
use nio.Prelude.{[], ◌∷◌, none}
use nio.Kube.{other, text, ok, err}
use nio.GitAuth.{GitCreds}
use nio.GitAuth.Exec.{Host}

abbrev refusing : Host
refusing = record {
  make_dir = λ h. ok "/tmp/nio-gitauth-1";
  write_file = λ h path content mode. none;
  output = λ h argv vars. err (other (text "connection refused"));
  environ = "PATH=/bin" ∷ [];
}

abbrev deploy_key : GitCreds
deploy_key = record {
  username = "";
  password = "";
  ssh_key = "KEY";
  known_hosts = "git.example.org ssh-ed25519 AAAA";
}
