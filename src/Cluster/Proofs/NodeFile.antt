-- ===== src/Cluster/Proofs/NodeFile.antt =====
-- About escapeNixString: the texts that a node file interpolates into Nix strings.
use Prim.Native.Char.{Char, code}
use Prim.Native.String.{◌++◌}
use nio.Prelude.{
  String, Bool, true, false, ◌&&◌, Option, none, some, ◌≡◌, ◌∙◌, refl, sym, ap, subst, arith, eqb,
  if◌then◌else◌, inl, inr, Bool-cases,
}
use nio.Prelude.Texts.{prepend, has_prefix, replace_from, replace_all}
use nio.Prelude.TextLaws.{same_char, Char-cases, prepend-append}
use nio.Cluster.NodeFile.{escape_nix_string}

abbrev with_char : Char → Option (String × String) → Option (String × String)
with_char c none = none
with_char c (some (t, rest)) = some (String.◌∷◌ c t, rest)

-- What a backslash before the character stands for.
abbrev unescaped : Char → Char
unescaped c =
    if eqb (code c) b'n'
    then "\n"
    else if eqb (code c) b'r'
    then "\r"
    else if eqb (code c) b't'
    then "\t"
    else c

-- A reader of the body of a double-quoted Nix string: its text, and what follows the closing
-- quote. The test says whether a backslash was just read. None is an unclosed string, or one with
-- an antiquotation; `$${`, which Nix reads as text, is refused too. Line endings stay as they are.
unfoldable pub read_string : Bool → String → Option (String × String)
read_string escaping String.[] = none
read_string true (String.◌∷◌ c s) = with_char (unescaped c) (read_string false s)
read_string false (String.◌∷◌ c s) =
    let plain = read_string false s in
    let escape = read_string true s in
    if eqb (code c) b'"'
    then some (String.[], s)
    else if eqb (code c) b'\\'
    then escape
    else if eqb (code c) b'$' && has_prefix s "{"
    then none
    else with_char c plain

backslashes : String → String
backslashes s = replace_from "\\" "\\\\" 0 s

quotes : String → String
quotes s = replace_from "\"" "\\\"" 0 s

dollars : String → String
dollars s = replace_from "${" "\\${" 0 s

escaped : String → String
unfolding backslashes quotes dollars
escaped s = dollars (quotes (backslashes s))

backslash-escaped :
    (s : String) → escaped (String.◌∷◌ "\\" s) ≡ String.◌∷◌ "\\" (String.◌∷◌ "\\" (escaped s))
unfolding escaped backslashes quotes dollars replace_from
backslash-escaped s = refl

quote-escaped :
    (s : String) → escaped (String.◌∷◌ "\"" s) ≡ String.◌∷◌ "\\" (String.◌∷◌ "\"" (escaped s))
unfolding escaped backslashes quotes dollars replace_from
quote-escaped s = refl

backslashes-plain :
    (c : Char) (s : String)
    → eqb (code c) b'\\' ≡ false
    → backslashes (String.◌∷◌ c s) ≡ String.◌∷◌ c (backslashes s)
unfolding backslashes replace_from
backslashes-plain c s e = rw e refl

quotes-plain :
    (c : Char) (s : String)
    → eqb (code c) b'"' ≡ false
    → quotes (String.◌∷◌ c s) ≡ String.◌∷◌ c (quotes s)
unfolding quotes replace_from
quotes-plain c s e = rw e refl

dollars-plain :
    (c : Char) (s : String)
    → (eqb (code c) b'$' && has_prefix s "{") ≡ false
    → dollars (String.◌∷◌ c s) ≡ String.◌∷◌ c (dollars s)
unfolding dollars replace_from
dollars-plain c s e = rw e refl

-- A character that the first two passes leave alone.
quoted-plain :
    (c : Char) (s : String)
    → eqb (code c) b'\\' ≡ false
    → eqb (code c) b'"' ≡ false
    → quotes (backslashes (String.◌∷◌ c s)) ≡ String.◌∷◌ c (quotes (backslashes s))
quoted-plain c s e f = ap quotes (backslashes-plain c s e) ∙ quotes-plain c (backslashes s) f

brace-quoted : (s : String) → has_prefix (quotes (backslashes s)) "{" ≡ has_prefix s "{"
unfolding backslashes quotes replace_from
brace-quoted String.[] = refl
brace-quoted (String.◌∷◌ c s) = elim (Char-cases c "\\") [
  | inl e ↦
      subst
        (λ x.
          has_prefix (quotes (backslashes (String.◌∷◌ x s))) "{" ≡ has_prefix (String.◌∷◌ x s) "{")
        (sym e) refl
  | inr e ↦ elim (Char-cases c "\"") [
    | inl f ↦
        subst
          (λ x.
            has_prefix (quotes (backslashes (String.◌∷◌ x s))) "{"
            ≡ has_prefix (String.◌∷◌ x s) "{")
          (sym f) refl
    | inr f ↦ ap (λ x. has_prefix x "{") (quoted-plain c s e f)
  ]
]

plain-escaped :
    (c : Char) (s : String)
    → eqb (code c) b'\\' ≡ false
    → eqb (code c) b'"' ≡ false
    → (eqb (code c) b'$' && has_prefix s "{") ≡ false
    → escaped (String.◌∷◌ c s) ≡ String.◌∷◌ c (escaped s)
unfolding escaped
plain-escaped c s e f g =
    ap dollars (quoted-plain c s e f)
    ∙ dollars-plain c (quotes (backslashes s)) (rw (brace-quoted s) g)

brace-escaped :
    (s : String)
    → has_prefix s "{" ≡ true
    → escaped (String.◌∷◌ "$" s) ≡ String.◌∷◌ "\\" (String.◌∷◌ "$" (escaped s))
unfolding escaped backslashes quotes dollars replace_from
brace-escaped String.[] h = cc
brace-escaped (String.◌∷◌ c s) h =
    subst
      (λ x.
        escaped (String.◌∷◌ "$" (String.◌∷◌ x s))
        ≡ String.◌∷◌ "\\" (String.◌∷◌ "$" (escaped (String.◌∷◌ x s))))
      (sym (same_char c "{" (ground arith))) refl

nil-escaped : escaped String.[] ≡ String.[]
unfolding escaped backslashes quotes dollars replace_from
nil-escaped = refl

brace-escaped_before :
    (s rest : String)
    → has_prefix (prepend (escaped s) (String.◌∷◌ "\"" rest)) "{" ≡ has_prefix s "{"
brace-escaped_before String.[] rest = rw nil-escaped refl
brace-escaped_before (String.◌∷◌ c s) rest = elim (Char-cases c "\\") [
  | inl e ↦ rw (e, backslash-escaped s) refl
  | inr e ↦ elim (Char-cases c "\"") [
    | inl f ↦ rw (f, quote-escaped s) refl
    | inr f ↦ elim (Bool-cases (eqb (code c) b'$' && has_prefix s "{")) [
      | inl g ↦ rw (same_char c "$" (ground arith), brace-escaped s (ground arith)) refl
      | inr g ↦ rw (plain-escaped c s e f g) refl
    ]
  ]
]

read-escaped :
    (s rest : String)
    → read_string false (prepend (escaped s) (String.◌∷◌ "\"" rest)) ≡ some (s, rest)
unfolding read_string
read-escaped String.[] rest = rw nil-escaped refl
read-escaped (String.◌∷◌ c s) rest = elim (Char-cases c "\\") [
  | inl e ↦ rw (e, backslash-escaped s) (ap (with_char "\\") (read-escaped s rest))
  | inr e ↦ elim (Char-cases c "\"") [
    | inl f ↦ rw (f, quote-escaped s) (ap (with_char "\"") (read-escaped s rest))
    | inr f ↦ elim (Bool-cases (eqb (code c) b'$' && has_prefix s "{")) [
      | inl g ↦
          rw (same_char c "$" (ground arith), brace-escaped s (ground arith))
            (ap (with_char "$") (read-escaped s rest))
      | inr g ↦
          rw (plain-escaped c s e f g, f, e, brace-escaped_before s rest, g, read-escaped s rest)
            refl
    ]
  ]
]

-- A reader of a double-quoted Nix string, at an escaped text with a quote after it, finds the text
-- again and stops at that quote: the text neither ends the string nor opens an antiquotation.
pub read-escape_nix_string :
    (s rest : String)
    → read_string false (escape_nix_string s ++ String.◌∷◌ "\"" rest) ≡ some (s, rest)
unfolding escape_nix_string replace_all escaped backslashes quotes dollars
read-escape_nix_string s rest =
    ap (read_string false) (sym (prepend-append (escaped s) (String.◌∷◌ "\"" rest)))
    ∙ read-escaped s rest
