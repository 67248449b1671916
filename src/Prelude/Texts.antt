-- ===== src/Prelude/Texts.antt =====
-- The parts of Go's `strings` and `path` that the code calls, on texts.
use Prim.Native.Nat.{ℕ, zero, suc, ◌-◌}
use Prim.Native.Char.{code}
use Prim.Native.String.{String, count, ◌++◌}
use mathlib.Core.Bool.{Bool, true, false, not, ◌&&◌, ◌||◌}
use mathlib.Core.List.{List, [], ◌∷◌}
use text.Mathlib.Text.{◌==◌}
use nio.Prelude.Tests.{eqb, leb, if◌then◌else◌}

-- A literal before a text: `◌++◌`, by clauses that compute on the literal.
abbrev pub prepend : String → String → String
prepend String.[] t = t
prepend (String.◌∷◌ c s) t = String.◌∷◌ c (prepend s t)

-- strings.HasPrefix(s, p)
abbrev pub has_prefix : String → String → Bool
has_prefix s String.[] = true
has_prefix String.[] (String.◌∷◌ p ps) = false
has_prefix (String.◌∷◌ c s) (String.◌∷◌ p ps) = eqb (code c) (code p) && has_prefix s ps

-- strings.Contains(s, sub)
unfoldable pub contains_text : String → String → Bool
contains_text String.[] sub = has_prefix String.[] sub
contains_text (String.◌∷◌ c s) sub = has_prefix (String.◌∷◌ c s) sub || contains_text s sub

-- The walk of strings.ReplaceAll, for an `old` that is not empty: the count is of the characters
-- of the last hit that are still to be passed over.
unfoldable pub replace_from : String → String → ℕ → String → String
replace_from old new k String.[] = String.[]
replace_from old new (suc k) (String.◌∷◌ c s) = replace_from old new k s
replace_from old new zero (String.◌∷◌ c s) =
    let hit = replace_from old new (count old - 1) s in
    let miss = replace_from old new 0 s in
    if has_prefix (String.◌∷◌ c s) old then prepend new hit else String.◌∷◌ c miss

-- strings.ReplaceAll(s, old, new)
unfoldable pub replace_all : String → String → String → String
replace_all s old new = replace_from old new 0 s

-- The slash-separated elements of a path; the first argument is the element being read, reversed.
unfoldable pub elements_from : String → String → List String
elements_from element String.[] = element ∷ []
elements_from element (String.◌∷◌ c s) =
    let rest = elements_from "" s in
    let more = elements_from (element ++ String.◌∷◌ c "") s in
    if eqb (code c) b'/' then element ∷ rest else more

unfoldable pub elements : String → List String
unfolding elements_from
elements p = elements_from "" p

-- One turn of path.Clean: the elements kept so far, the last first.
unfoldable pub clean_one : Bool → List String → String → List String
clean_one rooted kept e =
    if e == "" || e == "." then kept else if not (e == "..") then e ∷ kept else up kept
  where
    up : List String → List String
    up [] = if rooted then [] else e ∷ []
    up (k ∷ ks) = if k == ".." then e ∷ k ∷ ks else ks

unfoldable pub clean_all : Bool → List String → List String → List String
clean_all rooted kept [] = kept
clean_all rooted kept (e ∷ es) = clean_all rooted (clean_one rooted kept e) es

-- The kept elements, first to last, between slashes.
unfoldable pub joined : String → List String → String
joined after [] = after
joined after (e ∷ kept) = joined (if after == "" then e else e ++ "/" ++ after) kept

-- path.IsAbs(p)
unfoldable pub is_abs : String → Bool
is_abs p = has_prefix p "/"

-- path.Clean(p)
unfoldable pub path_clean : String → String
path_clean p =
    let rooted = is_abs p in
    let body = joined "" (clean_all rooted [] (elements p)) in
    if rooted then "/" ++ body else if body == "" then "." else body

-- path.Join of two elements
unfoldable pub path_join : String → String → String
path_join a b =
    if a == "" && b == ""
    then ""
    else if a == ""
    then path_clean b
    else if b == ""
    then path_clean a
    else path_clean (a ++ "/" ++ b)

-- strings.Join(elems, sep)
unfoldable pub join : List String → String → String
join [] sep = ""
join (e ∷ es) sep = after es (join es sep)
  where
    after : List String → String → String
    after [] rest = e
    after (x ∷ xs) rest = e ++ sep ++ rest

-- strings.Split(s, "\n"); the first argument is the line being read.
unfoldable pub lines_from : String → String → List String
lines_from line String.[] = line ∷ []
lines_from line (String.◌∷◌ c s) =
    let rest = lines_from "" s in
    let more = lines_from (line ++ String.◌∷◌ c "") s in
    if eqb (code c) 10 then line ∷ rest else more

unfoldable pub lines : String → List String
unfolding lines_from
lines s = lines_from "" s

-- unicode.IsSpace, by the code of the character
abbrev pub is_space : ℕ → Bool
is_space c =
    (leb 9 c && leb c 13)
    || eqb c 32
    || eqb c 133
    || eqb c 160
    || eqb c 5760
    || (leb 8192 c && leb c 8202)
    || eqb c 8232
    || eqb c 8233
    || eqb c 8239
    || eqb c 8287
    || eqb c 12_288

unfoldable pub trim_left : String → String
trim_left String.[] = String.[]
trim_left (String.◌∷◌ c s) =
    let rest = trim_left s in if is_space (code c) then rest else String.◌∷◌ c s

unfoldable pub trim_right : String → String
trim_right String.[] = String.[]
trim_right (String.◌∷◌ c s) =
    let rest = trim_right s in
    if rest == "" && is_space (code c) then String.[] else String.◌∷◌ c rest

-- strings.TrimSpace(s)
unfoldable pub trim_space : String → String
trim_space s = trim_right (trim_left s)

-- Every character's code passes the test.
abbrev pub all_chars : (ℕ → Bool) → String → Bool
all_chars test String.[] = true
all_chars test (String.◌∷◌ c s) = test (code c) && all_chars test s
