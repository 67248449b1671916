-- ===== src/Render/Fetch.antt =====
-- fetchSourceScript: the script of the init container that fetches the source.
use Prim.Native.String.{◌++◌}
use nio.Prelude.{String, Bool, ◌&&◌, if◌then◌else◌}

-- Flux: the artifact is downloaded, and committed to a tree of its own.
abbrev flux_script : String
flux_script =
    "set -eu\n" ++ "nix shell nixpkgs#gitMinimal nixpkgs#curl --command sh -c '\n"
    ++ "  curl --location --fail \"$NIO_ARTIFACT_URL\" | tar --extract --gzip --directory /workspace\n"
    ++ "  cd /workspace\n" ++ "  [ -e .git ] || (git init --quiet && git add --all --force && \\\n"
    ++ "    git -c user.email=nio@homystack.com -c user.name=nio commit --quiet --message \"flux artifact $NIO_REVISION\")'\n"

abbrev ssh_prelude : String
ssh_prelude =
    "  install -m 600 \"$NIO_GIT_CREDENTIALS_PATH/ssh-privatekey\" /workspace/.nio-ssh-key\n"
    ++ "  if [ -s \"$NIO_GIT_CREDENTIALS_PATH/known_hosts\" ]; then\n"
    ++ "    GIT_SSH_COMMAND=\"ssh -i /workspace/.nio-ssh-key -o IdentitiesOnly=yes -o StrictHostKeyChecking=yes -o UserKnownHostsFile=$NIO_GIT_CREDENTIALS_PATH/known_hosts\"\n"
    ++ "  else\n"
    ++ "    GIT_SSH_COMMAND=\"ssh -i /workspace/.nio-ssh-key -o IdentitiesOnly=yes -o StrictHostKeyChecking=no -o UserKnownHostsFile=/dev/null\"\n"
    ++ "  fi\n" ++ "  export GIT_SSH_COMMAND\n"

abbrev https_prelude : String
https_prelude =
    "  cat > /workspace/.nio-askpass <<\"NIOASKPASS\"\n" ++ "#!/bin/sh\n" ++ "case \"$1\" in\n"
    ++ "Username*) head -n1 \"$NIO_GIT_CREDENTIALS_PATH/username\" 2>/dev/null || printf git ;;\n"
    ++ "Password*) head -n1 \"$NIO_GIT_CREDENTIALS_PATH/password\" 2>/dev/null || head -n1 \"$NIO_GIT_CREDENTIALS_PATH/token\" 2>/dev/null ;;\n"
    ++ "esac\n" ++ "NIOASKPASS\n" ++ "  chmod +x /workspace/.nio-askpass\n"
    ++ "  export GIT_ASKPASS=/workspace/.nio-askpass GIT_TERMINAL_PROMPT=0\n"

-- What is written before the clone, and the packages that it needs.
abbrev auth_prelude : Bool → Bool → String
auth_prelude has_creds ssh_repo =
    if has_creds && ssh_repo then ssh_prelude else if has_creds then https_prelude else ""

abbrev fetch_packages : Bool → Bool → String
fetch_packages has_creds ssh_repo =
    if has_creds && ssh_repo then "nixpkgs#gitMinimal nixpkgs#openssh" else "nixpkgs#gitMinimal"

unfoldable pub fetch_source_script : Bool → Bool → Bool → String
fetch_source_script flux has_creds ssh_repo =
    if flux
    then flux_script
    else "set -eu\n"
      ++ "nix shell "
      ++ fetch_packages has_creds ssh_repo
      ++ " --command sh -c '\n"
      ++ auth_prelude has_creds ssh_repo
      ++ "  git init --quiet /workspace && cd /workspace\n"
      ++ "  git remote add origin \"$NIO_GIT_REPO\"\n"
      ++ "  git fetch --depth 1 origin \"$NIO_REVISION\"\n"
      ++ "  git checkout --detach FETCH_HEAD'\n"
