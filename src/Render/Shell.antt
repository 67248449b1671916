-- ===== src/Render/Shell.antt =====
-- Quoting for a shell: shellQuote, shellJoin.
use Prim.Native.String.{◌++◌}
use nio.Prelude.{String, List, map}
use nio.Prelude.Texts.{replace_all, join}

unfoldable pub shell_quote : String → String
shell_quote s = "'" ++ replace_all s "'" "'\\''" ++ "'"

unfoldable pub shell_join : List String → String
shell_join args = join (map shell_quote args) " "
