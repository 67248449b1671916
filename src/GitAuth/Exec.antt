-- ===== src/GitAuth/Exec.antt =====
-- Creds.IsZero and Creds.Env (internal/gitauth/gitauth.go), which write the credentials into a
-- temporary directory for one git command, and ExecGitResolver.LsRemote
-- (internal/controller/nixresolve.go), which runs it. What the file system and git answer is a
-- record of functions of the calls made so far.
use Prim.Native.String.{◌++◌}
use nio.Prelude.{ℕ, String, Bool, ◌&&◌, List, [], ◌∷◌, Option, none, some, ◌==◌, if◌then◌else◌}
use mathlib.Core.List.{◌++◌ as append}
use nio.Prelude.Texts.{path_join}
use nio.Kube.{Error, other, message_of, text, sprintf, wrapped, str, Result, ok, err}
use nio.Kube.Actions.{Action, ◌>>=◌, ◌>>◌, pure, fail, attempt, lift}
use nio.GitAuth.{GitCreds, is_ssh_repo}
use nio.Workload.LsRemote.{parse_ls_remote}

-- A directory that was made; a file, its content and its mode; a tree that was removed; a command
-- with its environment.
pub data Call : Type 0 where
  made removed : String → Call
  wrote : String → String → ℕ → Call
  ran : List String → List String → Call

-- The latest call first.
abbrev pub Calls : Type 0
Calls = List Call

pub record Host : Type 0 where
  -- os.MkdirTemp, os.WriteFile
  pub make_dir : Calls → Result String
  pub write_file : Calls → String → String → ℕ → Option Error
  -- the output of a command, and os.Environ
  pub output : Calls → List String → List String → Result String
  pub environ : List String

abbrev pub HostStep : Type 0 → Type 0
HostStep A = Action Calls A

unfoldable pub is_zero : GitCreds → Bool
is_zero c = c.username == "" && c.password == "" && c.ssh_key == ""

abbrev pub dir_made : Result String → HostStep String
dir_made (ok dir) h = (ok dir, made dir ∷ h)
dir_made (err e) h = (err e, h)

abbrev pub file_written : Call → Option Error → HostStep (Unit {0})
file_written c none h = (ok tt, c ∷ h)
file_written c (some e) h = (err e, c ∷ h)

-- os.RemoveAll, whose error is ignored
abbrev pub remove_all : String → HostStep (Unit {0})
remove_all dir h = (ok tt, removed dir ∷ h)

-- `defer cleanup()`: the no-op, or the removal of the directory
abbrev pub cleanup : Option String → HostStep (Unit {0})
cleanup none = pure tt
cleanup (some dir) = remove_all dir

abbrev pub askpass_script : String
askpass_script =
    "#!/bin/sh\ncase \"$1\" in\n*Username*) printf '%s' \"$GIT_ASKPASS_USER\" ;;\n"
    ++ "*) printf '%s' \"$GIT_ASKPASS_PASS\" ;;\nesac\n"

abbrev strict_options : String → String
strict_options path = " -o StrictHostKeyChecking=yes -o UserKnownHostsFile=" ++ path

abbrev lax_options : String
lax_options = " -o StrictHostKeyChecking=no -o UserKnownHostsFile=/dev/null"

-- The variables, and what the cleanup removes.
abbrev pub Env : Type 0
Env = List String × Option String

module _ (g : Host) where
  abbrev pub make_temp : HostStep String
  make_temp h = dir_made (g.make_dir h) h

  abbrev pub write_file : String → String → ℕ → HostStep (Unit {0})
  write_file path content mode h =
      file_written (wrote path content mode) (g.write_file h path content mode) h

  -- `cleanup(); return nil, noop, err`
  abbrev pub discard : {A : Type 0} → String → Error → HostStep A
  discard dir e = do remove_all dir; fail e

  -- What follows the write of a file, or else the cleanup.
  abbrev pub or_discard : String → String → HostStep Env → Result (Unit {0}) → HostStep Env
  or_discard dir format rest (ok _) = rest
  or_discard dir format rest (err e) = discard dir (other (wrapped format [] (message_of e)))

  abbrev pub ssh_env : String → String → HostStep Env
  ssh_env dir options = pure (
    ("GIT_SSH_COMMAND=ssh -i " ++ path_join dir "id" ++ " -o IdentitiesOnly=yes" ++ options) ∷ [],
    some dir,
  )

  unfoldable pub with_known_hosts : GitCreds → String → HostStep Env
  with_known_hosts c dir = if c.known_hosts == "" then ssh_env dir lax_options else (do
    answer ← attempt (write_file (path_join dir "known_hosts") c.known_hosts 0o600)
    or_discard dir "write known_hosts: %w"
        (ssh_env dir (strict_options (path_join dir "known_hosts"))) answer)

  unfoldable pub with_ssh_key : GitCreds → String → String → HostStep Env
  with_ssh_key c repo dir =
      if c.ssh_key == ""
      then discard dir
          (other (sprintf "ssh repo %q requires an 'ssh-privatekey' credential" (str repo ∷ [])))
      else (do
        answer ← attempt (write_file (path_join dir "id") c.ssh_key 0o600)
        or_discard dir "write ssh key: %w" (with_known_hosts c dir) answer)

  unfoldable pub with_askpass : GitCreds → String → HostStep Env
  with_askpass c dir = do
    answer ← attempt (write_file (path_join dir "askpass.sh") askpass_script 0o700)
    or_discard dir "write askpass helper: %w"
        (pure (
          ("GIT_ASKPASS=" ++ path_join dir "askpass.sh")
              ∷ ("GIT_ASKPASS_USER=" ++ (if c.username == "" then "git" else c.username))
              ∷ ("GIT_ASKPASS_PASS=" ++ c.password)
              ∷ [],
          some dir,
        ))
        answer

  abbrev pub env_in : GitCreds → String → Result String → HostStep Env
  env_in c repo (err e) = fail (other (wrapped "create temp dir: %w" [] (message_of e)))
  env_in c repo (ok dir) = if is_ssh_repo repo then with_ssh_key c repo dir else with_askpass c dir

  unfoldable pub env : GitCreds → String → HostStep Env
  env c repo =
      if is_zero c then pure ([], none) else (do answer ← attempt make_temp; env_in c repo answer)

  abbrev pub creds_env : Option GitCreds → String → HostStep Env
  creds_env none repo = pure ([], none)
  creds_env (some c) repo = env c repo

  abbrev pub run_git : List String → List String → HostStep String
  run_git argv vars h = (g.output h argv vars, ran argv vars ∷ h)

  abbrev pub parsed : String → String → Result String → Result String
  parsed repo ref (ok out) = parse_ls_remote out ref
  parsed repo ref (err e) =
      err (other (wrapped "git ls-remote %s %s: %w" (str repo ∷ str ref ∷ []) (message_of e)))

  -- The deferred cleanup runs after the command, whatever it answers.
  abbrev pub listed : String → String → Env → HostStep String
  listed repo ref (vars, dir) = do
    answer ← attempt (
        run_git ("git" ∷ "ls-remote" ∷ repo ∷ ref ∷ [])
          (append g.environ ("GIT_TERMINAL_PROMPT=0" ∷ vars)))
    cleanup dir
    lift (parsed repo ref answer)

  unfoldable pub ls_remote : String → String → Option GitCreds → HostStep String
  ls_remote repo ref creds =
      if repo == ""
      then fail (other (text "gitRepo is empty"))
      else (do vars ← creds_env creds repo; listed repo ref vars)
