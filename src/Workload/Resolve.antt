-- ===== src/Workload/Resolve.antt =====
-- resolveRevision, readGitCreds, resolveFluxArtifact, normalizeFluxRevision, parseLsRemote.
use Prim.Native.Char.{code}
use nio.Prelude.{String, not, [], ◌∷◌, Option, none, some, ◌==◌, eqb, if◌then◌else◌}
use nio.Prelude.Texts.{trim_space}
use nio.Kube.{other, message_of, sprintf, wrapped, str, Result, ok, err, ◌>>=◌}
use nio.Api.Workload.{NixSource, FluxSourceRef}
use nio.Api.Core.{Secret, lookup}
use nio.GitAuth.{GitCreds}
use nio.Workload.State.{FluxSource, History, WorkloadReconciler}

-- resolvedSource: the artifact's URL is empty without Flux.
pub record ResolvedSource : Type 0 where
  pub revision : String
  pub artifact_url : String

abbrev pub default_git_ref : String
default_git_ref = "main"

abbrev pub default_flux_api_version : String
default_flux_api_version = "source.toolkit.fluxcd.io/v1"

-- What follows the last colon, if there is one.
unfoldable pub after_colon : String → Option String
after_colon String.[] = none
after_colon (String.◌∷◌ c s) = last (after_colon s)
  where
    last : Option String → Option String
    last (some t) = some t
    last none = if eqb (code c) b':' then some s else none

unfoldable pub normalize_flux_revision : String → String
normalize_flux_revision rev = elim (after_colon rev) [ none ↦ rev | some t ↦ t ]

-- A key that is not in the secret reads as empty.
abbrev entry : Secret → String → String
entry secret key = elim (lookup secret.contents key) [ none ↦ "" | some v ↦ v ]

-- The password, or the token where it is empty.
abbrev password_of : Secret → String
password_of secret =
    if trim_space (entry secret "password") == ""
    then trim_space (entry secret "token")
    else trim_space (entry secret "password")

abbrev creds_of : Secret → GitCreds
creds_of secret = record {
  ssh_key = entry secret "ssh-privatekey";
  known_hosts = entry secret "known_hosts";
  username = trim_space (entry secret "username");
  password = password_of secret;
}

abbrev read_creds : String → Result Secret → Result GitCreds
read_creds name (ok secret) = ok (creds_of secret)
read_creds name (err e) =
    err (other (wrapped "read git credentials secret %q: %w" (str name ∷ []) (message_of e)))

-- An entry of the artifact, which must be there and not be empty.
abbrev required : String → FluxSourceRef → Option String → Result String
required what ref none = err (other (sprintf what (str ref.kind ∷ str ref.name ∷ [])))
required what ref (some value) =
    if value == "" then err (other (sprintf what (str ref.kind ∷ str ref.name ∷ []))) else ok value

abbrev read_flux : FluxSourceRef → Result FluxSource → Result ResolvedSource
read_flux ref (err e) = err (
    other
      (wrapped "reading flux source %s/%s: %w" (str ref.kind ∷ str ref.name ∷ []) (message_of e)))
read_flux ref (ok source) = do
  revision ← required "flux source %s/%s has no status.artifact.revision yet" ref source.revision
  url ← required "flux source %s/%s has no status.artifact.url yet" ref source.url
  ok (record { revision = normalize_flux_revision revision; artifact_url = url })

module _ {A : Type 0} (r : WorkloadReconciler A) (h : History A) (namespace : String) where
  unfoldable pub read_git_creds : String → Result GitCreds
  read_git_creds name = read_creds name (r.services.get_secret h namespace name)

  unfoldable pub resolve_flux_artifact : FluxSourceRef → Result ResolvedSource
  resolve_flux_artifact ref =
      let api_version =
        if ref.api_version == "" then default_flux_api_version else ref.api_version in
      read_flux ref (r.services.get_flux_source h api_version ref.kind namespace ref.name)

  -- The credentials, if there is a reference.
  abbrev pub git_creds : Option String → Result (Option GitCreds)
  git_creds none = ok none
  git_creds (some name) = do creds ← read_git_creds name; ok (some creds)

  unfoldable pub resolve_git : NixSource → Result ResolvedSource
  resolve_git src = do
    creds ← git_creds src.credentials_ref
    sha ←
        r.services.ls_remote h src.git_repo (if src.ref == "" then default_git_ref else src.ref)
          creds
    ok (record { revision = sha; artifact_url = "" })

  unfoldable pub resolve_revision : NixSource → Result ResolvedSource
  resolve_revision src =
      if not (src.rev == "")
      then ok (record { revision = src.rev; artifact_url = "" })
      else elim src.flux_source_ref [
        | some ref ↦ resolve_flux_artifact ref
        | none ↦ resolve_git src
      ]
