-- ===== src/Render/Paths.antt =====
-- The paths of additional files: validateFilePath, isSafePathChar, validateAdditionalFiles.
use Prim.Native.Char.{code}
use nio.Prelude.{
  ℕ, String, Bool, ◌&&◌, ◌||◌, List, [], ◌∷◌, Option, none, some, ◌==◌, leb, eqb, if◌then◌else◌,
}
use nio.Prelude.Texts.{has_prefix, is_abs, path_clean}
use nio.Kube.{Message, text, sprintf, str, num, other, Result, ok, err, ◌>>=◌}
use nio.Api.Workload.{NixFile}

unfoldable pub is_safe_path_char : ℕ → Bool
is_safe_path_char c =
    (leb b'a' c && leb c b'z')
    || (leb b'A' c && leb c b'Z')
    || (leb b'0' c && leb c b'9')
    || eqb c b'.'
    || eqb c b'_'
    || eqb c b'-'
    || eqb c b'/'

-- The first character that is not allowed.
unfoldable pub unsafe_char : String → Option ℕ
unsafe_char String.[] = none
unsafe_char (String.◌∷◌ c s) = if is_safe_path_char (code c) then unsafe_char s else some (code c)

abbrev refused : Message → Result (Unit {0})
refused m = err (other m)

abbrev checked_tree : String → String → Result (Unit {0})
checked_tree p clean =
    if clean == ".." || has_prefix clean "../"
    then refused (sprintf "path %q escapes the source tree" (str p ∷ []))
    else ok tt

abbrev checked_chars : String → Option ℕ → Result (Unit {0})
checked_chars p none = checked_tree p (path_clean p)
checked_chars p (some c) = refused (
    sprintf "path %q contains an unsupported character %q (allowed: letters, digits, . _ - /)"
      (str p ∷ num c ∷ []))

unfoldable pub validate_file_path : String → Result (Unit {0})
validate_file_path p =
    if p == ""
    then refused (text "path is empty")
    else if is_abs p
    then refused (sprintf "path %q must be relative" (str p ∷ []))
    else checked_chars p (unsafe_char p)

unfoldable pub validate_additional_files : List NixFile → Result (Unit {0})
validate_additional_files [] = ok tt
validate_additional_files (f ∷ fs) =
    let rest = validate_additional_files fs in validate_file_path f.path >>= λ _. rest
