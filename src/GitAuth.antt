-- ===== src/GitAuth.antt =====
-- internal/gitauth: how a repository is authenticated; and ExecGitResolver of
-- internal/controller/nixresolve.go, which runs git with it.
use nio.Prelude.{String, Bool, not, ◌&&◌, ◌||◌}
use nio.Prelude.Texts.{has_prefix, contains_text}
pub mod Exec
pub mod Proofs

-- Creds
pub record GitCreds : Type 0 where
  pub username : String
  pub password : String
  pub ssh_key : String
  pub known_hosts : String

unfoldable pub is_ssh_repo : String → Bool
is_ssh_repo repo =
    has_prefix repo "ssh://"
    || has_prefix repo "git@"
    || (contains_text repo "@" && not (has_prefix repo "http"))
