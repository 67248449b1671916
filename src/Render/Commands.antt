-- ===== src/Render/Commands.antt =====
-- The commands of the runner pods: runCommand, buildCommand.
use nio.Prelude.{String, List, [], ◌∷◌, ◌++◌}

-- `nix run <flags> <run> -- <args>`, without the `--` when there are no arguments
unfoldable pub run_command : String → List String → List String → List String
run_command run args nix_flags = "nix" ∷ "run" ∷ nix_flags ++ (run ∷ after args)
  where
    after : List String → List String
    after [] = []
    after (arg ∷ rest) = "--" ∷ arg ∷ rest

unfoldable pub build_command : String → List String → List String → List String
build_command run prebuild nix_flags = "nix" ∷ "build" ∷ nix_flags ++ (run ∷ prebuild)
