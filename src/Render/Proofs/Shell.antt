-- ===== src/Render/Proofs/Shell.antt =====
-- About shellQuote and shellJoin: what a shell reads back from their output.
use Prim.Native.Char.{Char, code}
use Prim.Native.String.{◌++◌}
use nio.Prelude.{
  String, false, List, [], ◌∷◌, map, Option, none, some, ◌≡◌, ◌∙◌, refl, sym, ap, eqb,
  if◌then◌else◌, inl, inr,
}
use nio.Prelude.Texts.{prepend, replace_from, replace_all, join}
use nio.Prelude.TextLaws.{Char-cases, prepend-append}
use nio.Render.Shell.{shell_quote, shell_join}

-- Where the reader of a command line stands: between two words, in a word outside quotes, inside
-- single quotes, or after a backslash outside quotes.
pub data Mode : Type 0 where
  between bare quoted escaped : Mode

abbrev with_char : Char → Option (List String) → Option (List String)
with_char c none = none
with_char c (some []) = none
with_char c (some (w ∷ ws)) = some (String.◌∷◌ c w ∷ ws)

abbrev end_word : Option (List String) → Option (List String)
end_word none = none
end_word (some ws) = some ("" ∷ ws)

-- The words of a command line, by the rules of a POSIX shell for blanks, single quotes and
-- backslashes; inside a word the first answer is the rest of that word. Any other character
-- outside quotes is refused, so that nothing is expanded, piped or separated.
unfoldable pub read_words : Mode → String → Option (List String)
read_words between String.[] = some []
read_words bare String.[] = some ("" ∷ [])
read_words quoted String.[] = none
read_words escaped String.[] = none
read_words between (String.◌∷◌ c s) =
    let blank = read_words between s in
    let quote = read_words quoted s in
    let escape = read_words escaped s in
    if eqb (code c) b' '
    then blank
    else if eqb (code c) b'\''
    then quote
    else if eqb (code c) b'\\'
    then escape
    else none
read_words bare (String.◌∷◌ c s) =
    let blank = read_words between s in
    let quote = read_words quoted s in
    let escape = read_words escaped s in
    if eqb (code c) b' '
    then end_word blank
    else if eqb (code c) b'\''
    then quote
    else if eqb (code c) b'\\'
    then escape
    else none
read_words quoted (String.◌∷◌ c s) =
    let close = read_words bare s in
    let plain = read_words quoted s in if eqb (code c) b'\'' then close else with_char c plain
read_words escaped (String.◌∷◌ c s) = with_char c (read_words bare s)

-- A text before the word that is being read.
abbrev with_text : String → Option (List String) → Option (List String)
with_text String.[] ws = ws
with_text (String.◌∷◌ c s) ws = with_char c (with_text s ws)

body : String → String
body s = replace_from "'" "'\\''" 0 s

body-plain :
    (c : Char) (s : String)
    → eqb (code c) b'\'' ≡ false
    → body (String.◌∷◌ c s) ≡ String.◌∷◌ c (body s)
unfolding body replace_from
body-plain c s e = rw e refl

body-quote : (s : String) → body (String.◌∷◌ "'" s) ≡ prepend "'\\''" (body s)
unfolding body replace_from
body-quote s = refl

body-nil : body "" ≡ ""
unfolding body replace_from
body-nil = refl

-- Inside quotes, the body of a quoted text is read as the text.
read-body :
    (s rest : String)
    → read_words quoted (prepend (body s) (String.◌∷◌ "'" rest))
      ≡ with_text s (read_words bare rest)
unfolding read_words
read-body String.[] rest = rw body-nil refl
read-body (String.◌∷◌ c s) rest = elim (Char-cases c "'") [
  | inl e ↦ rw (e, body-quote s) (ap (with_char "'") (read-body s rest))
  | inr e ↦ rw (body-plain c s e, e) (ap (with_char c) (read-body s rest))
]

quoted_form : (s : String) → shell_quote s ≡ String.◌∷◌ "'" (prepend (body s) "'")
unfolding shell_quote replace_all body
quoted_form s =
    sym (prepend-append "'" (body s ++ "'"))
    ∙ ap (λ x. String.◌∷◌ "'" x) (sym (prepend-append (body s) "'"))

prepend_assoc : (a b c : String) → prepend (prepend a b) c ≡ prepend a (prepend b c)
prepend_assoc String.[] b c = refl
prepend_assoc (String.◌∷◌ x a) b c = ap (λ t. String.◌∷◌ x t) (prepend_assoc a b c)

-- A quoted text before the rest of the line.
read-shell_quote :
    (s rest : String)
    → read_words between (prepend (shell_quote s) rest) ≡ with_text s (read_words bare rest)
unfolding read_words
read-shell_quote s rest = rw (quoted_form s, prepend_assoc (body s) "'" rest) (read-body s rest)

with_text-end : (s : String) (ws : List String) → with_text s (some ("" ∷ ws)) ≡ some (s ∷ ws)
with_text-end String.[] ws = refl
with_text-end (String.◌∷◌ c s) ws = ap (with_char c) (with_text-end s ws)

-- The words of the joined command are the arguments, one by one and unchanged, whatever their
-- characters: no argument ends its word, is split, or is expanded.
pub read-shell_join : (args : List String) → read_words between (shell_join args) ≡ some args
unfolding shell_join join read_words
read-shell_join [] = refl
read-shell_join (a ∷ []) = rw (quoted_form a) (read-body a "" ∙ with_text-end a [])
read-shell_join (a ∷ b ∷ args) =
    let line = join (map shell_quote (b ∷ args)) " " in
    ap (read_words between) (
      ap (λ x. shell_quote a ++ x) (sym (prepend-append " " line))
      ∙ sym (prepend-append (shell_quote a) (String.◌∷◌ " " line)))
    ∙ read-shell_quote a (String.◌∷◌ " " line)
    ∙ ap (λ x. with_text a (end_word x)) (read-shell_join (b ∷ args))
    ∙ with_text-end a (b ∷ args)
