-- ===== src/Infra/Scripts.antt =====
-- The shell of the server and of the worker: sshdBringUp (internal/controller/nix_sshkey.go),
-- storeStartScript (nixstore_controller.go), builderStartScript (nixbuilder_controller.go).
use Prim.Native.String.{◌++◌}
use nio.Prelude.{String, Bool, true, false, if◌then◌else◌}
use nio.Render.Pod.{ssh_key_mount_path}
use nio.Infra.Keys.{ssh_secret_public_key}

abbrev bring_up : String → String → String
bring_up run amp =
    "mkdir -p /etc/dropbear /root/.ssh\n" ++ "chmod 700 /root/.ssh\n"
    ++ "# dropbear rejects a login whose shell is not an accepted user shell; publish\n"
    ++ "# root's shell (from the image passwd) via /etc/shells so getusershell accepts\n"
    ++ "# it. Use shell builtins only — the bare nix image has no grep/awk on PATH.\n"
    ++ ": > /etc/shells 2>/dev/null || true\n"
    ++ "while IFS=: read -r u _ _ _ _ _ sh; do [ \"$u\" = root ] && [ -n \"$sh\" ] && echo \"$sh\" >> /etc/shells; done < /etc/passwd 2>/dev/null || true\n"
    ++ "echo /bin/sh >> /etc/shells 2>/dev/null || true\n"
    ++ "nix shell nixpkgs#dropbear --command sh -c 'dropbearkey -t ed25519 -f /etc/dropbear/hostkey >/dev/null 2>&1 || true; "
    ++ run ++ "'" ++ amp ++ "\n"

abbrev launch : String
launch = "dropbear -F -E -s -p 22 -r /etc/dropbear/hostkey"

-- In the foreground, or not.
unfoldable pub sshd_bring_up : Bool → String
sshd_bring_up fg = bring_up (if fg then "exec " ++ launch else launch) (if fg then "" else " &")

unfoldable pub store_start_script : String
store_start_script =
    "set -eu\n"
    ++ "mkdir -p /etc/harmonia /etc/nix /root/.ssh /run/sshd\n"
    ++ "# Accept pushes from the builder/pods over ssh-ng as a trusted user (so unsigned\n"
    ++ "# store paths built remotely can be imported).\n"
    ++ "cat > /etc/nix/nix.conf <<'NIXCFG'\n"
    ++ "experimental-features = nix-command flakes\n"
    ++ "trusted-users = root\n"
    ++ "require-sigs = false\n"
    ++ "NIXCFG\n"
    ++ "# Authorize the shared remote-build key, then start sshd (ssh-ng runs\n"
    ++ "# 'nix daemon --stdio' per connection; no standalone daemon needed).\n"
    ++ "cp /etc/nio/ssh/ssh-authorized-key /root/.ssh/authorized_keys\n"
    ++ "chmod 600 /root/.ssh/authorized_keys\n"
    ++ sshd_bring_up false
    ++ "\n"
    ++ "# Serve the store over HTTP for substituter clients.\n"
    ++ "cat > /etc/harmonia/config.toml <<'CFG'\n"
    ++ "bind = \"[::]:5000\"\n"
    ++ "workers = 4\n"
    ++ "max_connection_rate = 256\n"
    ++ "priority = 30\n"
    ++ "sign_key_paths = [\"/etc/nix/signing/nix-signing-key\"]\n"
    ++ "CFG\n"
    ++ "exec nix run nixpkgs#harmonia\n"

abbrev auth_setup : String
auth_setup =
    "mkdir -p /root/.ssh && chmod 700 /root/.ssh\n" ++ "cp " ++ ssh_key_mount_path ++ "/"
    ++ ssh_secret_public_key ++ " /root/.ssh/authorized_keys\n"
    ++ "chmod 600 /root/.ssh/authorized_keys\n"

abbrev worker_script : String → String
worker_script auth =
    "set -eu\n"
    ++ "mkdir -p /etc/nix\n"
    ++ "cat > /etc/nix/nix.conf <<'NIXCFG'\n"
    ++ "experimental-features = nix-command flakes\n"
    ++ "trusted-users = root\n"
    ++ "NIXCFG\n"
    ++ auth
    ++ sshd_bring_up true

-- Whether the key of a store is mounted.
unfoldable pub builder_start_script : Bool → String
builder_start_script has_store = worker_script (if has_store then auth_setup else "")
