-- ===== src/Render/Config.antt =====
-- buildNixConfig: the NIX_CONFIG of the runner pods, from the endpoints of store and builder.
use Prim.Native.String.{◌++◌}
use nio.Prelude.{String, List, [], ◌∷◌, Option, none, some, ◌==◌, if◌then◌else◌}
use nio.Prelude.Texts.{join}

-- storeInfo
pub record StoreInfo : Type 0 where
  pub substituter_url : String
  pub public_key : String
  pub push_url : String

-- builderInfo
pub record BuilderInfo : Type 0 where
  pub endpoint : String
  pub systems : List String
  pub ssh_key_path : String

abbrev pub default_nix_systems : String
default_nix_systems = "x86_64-linux,aarch64-linux"

abbrev pub cache_nixos_public_key : String
cache_nixos_public_key = "cache.nixos.org-1:6NCHdD59X431o0gWypbMrAURkbJ16ZPMQFGspcDShjY="

abbrev pub cache_nixos_url : String
cache_nixos_url = "https://cache.nixos.org"

-- The substituters, and the keys that they are trusted by.
unfoldable pub substituters : Option StoreInfo → List String
substituters none = cache_nixos_url ∷ []
substituters (some store) =
    if store.substituter_url == ""
    then cache_nixos_url ∷ []
    else store.substituter_url ∷ cache_nixos_url ∷ []

unfoldable pub trusted_keys : Option StoreInfo → List String
trusted_keys none = cache_nixos_public_key ∷ []
trusted_keys (some store) =
    if store.substituter_url == ""
    then cache_nixos_public_key ∷ []
    else if store.public_key == ""
    then cache_nixos_public_key ∷ []
    else store.public_key ∷ cache_nixos_public_key ∷ []

abbrev system_list : List String → String
system_list [] = default_nix_systems
system_list (s ∷ systems) = join (s ∷ systems) ","

-- builders = <endpoint> <systems> [<key>]
unfoldable pub builders_line : BuilderInfo → String
builders_line builder =
    let line = "builders = " ++ builder.endpoint ++ " " ++ system_list builder.systems in
    if builder.ssh_key_path == "" then line else line ++ " " ++ builder.ssh_key_path

-- The lines that a builder adds.
unfoldable pub builder_lines : Option BuilderInfo → List String
builder_lines none = []
builder_lines (some builder) =
    if builder.endpoint == ""
    then []
    else builders_line builder ∷ "builders-use-substitutes = true" ∷ "max-jobs = 0" ∷ []

unfoldable pub build_nix_config : Option StoreInfo → Option BuilderInfo → String
build_nix_config store builder =
    join
      ("experimental-features = nix-command flakes"
        ∷ ("substituters = " ++ join (substituters store) " ")
        ∷ ("trusted-public-keys = " ++ join (trusted_keys store) " ")
        ∷ builder_lines builder)
      "\n"
