-- ===== src/Cluster/NodeFile.antt =====
-- renderMemberNodeFile: the node file of a member.
use Prim.Native.String.{◌++◌}
use nio.Prelude.{String, ◌||◌, [], ◌∷◌, Option, none, some, ◌==◌, if◌then◌else◌}
use nio.Prelude.Texts.{contains_text, replace_all, path_join}
use nio.Kube.{sprintf, str, wrapped, other, message_of, Result, ok, err}
use nio.Api.Workload.{NixFile}
use nio.Render.Paths.{validate_file_path}

abbrev pub cluster_nodes_dir : String
cluster_nodes_dir = "modules/nodes"

unfoldable pub escape_nix_string : String → String
escape_nix_string s = replace_all (replace_all (replace_all s "\\" "\\\\") "\"" "\\\"") "${" "\\${"

-- `%q` of the name of an object, which has no character that it escapes.
abbrev quoted : String → String
quoted name = "\"" ++ name ++ "\""

unfoldable pub render_node_file_content : String → String → String → String → String
render_node_file_content cluster machine host values =
    "{ lib, ... }:\n{\n  nixcluster."
    ++ quoted cluster
    ++ ".members."
    ++ quoted machine
    ++ " =\n    lib.recursiveUpdate (builtins.fromJSON \""
    ++ escape_nix_string values
    ++ "\") {\n      install.ip = \""
    ++ escape_nix_string host
    ++ "\";\n    };\n}\n"

-- The raw values, `{}` where there are none.
unfoldable pub values_json : Option String → String
values_json none = "{}"
values_json (some raw) = if raw == "" then "{}" else raw

abbrev pub node_file :
    String → String → String → Option String → String → Result (Unit {0}) → Result NixFile
node_file cluster machine host values path (err e) =
    err (other (wrapped "member %q: %w" (str machine ∷ []) (message_of e)))
node_file cluster machine host values path (ok _) = ok (record {
  path = path;
  inline = some (render_node_file_content cluster machine host (values_json values));
  config_map_ref = none;
  secret_ref = none;
})

unfoldable pub render_member_node_file : String → String → String → Option String → Result NixFile
render_member_node_file cluster machine host values =
    if machine == "" || contains_text machine "/" || contains_text machine ".."
    then err
        (other (sprintf "member %q: name must be a single safe path segment" (str machine ∷ [])))
    else let path = path_join cluster_nodes_dir (machine ++ ".nix") in
      node_file cluster machine host values path (validate_file_path path)
