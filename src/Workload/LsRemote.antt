-- ===== src/Workload/LsRemote.antt =====
-- parseLsRemote: the commit of a ref, from the output of `git ls-remote`.
use Prim.Native.Char.{code}
use Prim.Native.String.{◌++◌}
use nio.Prelude.{String, Bool, not, List, [], ◌∷◌, ◌==◌, if◌then◌else◌}
use nio.Prelude.Texts.{lines, trim_space, is_space}
use nio.Kube.{other, sprintf, str, Result, ok, err}

-- A word before the words that follow, unless it is empty.
abbrev word : String → List String → List String
word w rest = if w == "" then rest else w ∷ rest

-- strings.Fields; the first argument is the word being read.
unfoldable pub words_from : String → String → List String
words_from w String.[] = word w []
words_from w (String.◌∷◌ c s) =
    let blank = words_from "" s in
    let more = words_from (w ++ String.◌∷◌ c "") s in
    if is_space (code c) then word w blank else more

-- The commits seen so far, each of them empty at first.
pub record Refs : Type 0 where
  pub head : String
  pub tag : String
  pub peeled : String
  pub first : String

abbrev pub no_refs : Refs
no_refs = record { head = ""; tag = ""; peeled = ""; first = "" }

-- One line, by its fields: fewer than two are passed over.
unfoldable pub read_fields : String → Refs → List String → Refs
read_fields ref seen [] = seen
read_fields ref seen (sha ∷ []) = seen
read_fields ref seen (sha ∷ name ∷ rest) =
    let now = if seen.first == "" then record seen { first = sha } else seen in
    if name == "refs/tags/" ++ ref ++ "^{}"
    then record now { peeled = sha }
    else if name == "refs/heads/" ++ ref
    then record now { head = sha }
    else if name == "refs/tags/" ++ ref
    then record now { tag = sha }
    else now

unfoldable pub read_lines : String → Refs → List String → Refs
read_lines ref seen [] = seen
read_lines ref seen (line ∷ rest) = read_lines ref (read_fields ref seen (words_from "" line)) rest

-- The commit that is preferred: a peeled tag, a branch, a tag, the first line.
unfoldable pub chosen : String → Refs → Result String
chosen ref seen =
    if not_empty seen.peeled
    then ok seen.peeled
    else if not_empty seen.head
    then ok seen.head
    else if not_empty seen.tag
    then ok seen.tag
    else if not_empty seen.first
    then ok seen.first
    else err (other (sprintf "ref %q not found in ls-remote output" (str ref ∷ [])))
  where
    not_empty : String → Bool
    not_empty s = not (s == "")

abbrev parsed_lines : String → List String → Result String
parsed_lines ref [] = err (other (sprintf "ref %q not found" (str ref ∷ [])))
parsed_lines ref (line ∷ rest) =
    if line == ""
    then err (other (sprintf "ref %q not found" (str ref ∷ [])))
    else chosen ref (read_lines ref no_refs (line ∷ rest))

unfoldable pub parse_ls_remote : String → String → Result String
parse_ls_remote out ref = parsed_lines ref (lines (trim_space out))
