-- ===== src/Prelude/TextLaws.antt =====
-- Lemmas on native texts: a character and a literal, and texts put before others.
use Prim.Native.Char.{Char, code}
use Prim.Native.String.{String, ◌++◌}
use Prim.Native.String.compare.{cons-nil}
use mathlib.Core.Path.{◌≡◌, refl, sym, ap, ◌∙◌}
use mathlib.Core.Logic.{◌⊎◌, inl, inr}
use mathlib.Core.Bool.{true, false}
use native.Mathlib.Omega.{arith}
use text.Mathlib.TextLemmas.{nil-append, cons-append}
use text.Mathlib.TextEquality.{codes_equal}
use nio.Prelude.Tests.{eqb, Bool-cases}
use text.Mathlib.Text.{◌==◌}
use nio.Prelude.Texts.{prepend}

pub same_char : (c d : Char) → eqb (code c) (code d) ≡ true → c ≡ d
same_char c d e = codes_equal c d (ground arith)

-- The character of a literal, or another one.
pub Char-cases : (c d : Char) → (c ≡ d) ⊎ (eqb (code c) (code d) ≡ false)
Char-cases c d = elim (Bool-cases (eqb (code c) (code d))) [
  | inl e ↦ inl (same_char c d e)
  | inr e ↦ inr e
]

pub prepend-append : (s t : String) → prepend s t ≡ s ++ t
prepend-append String.[] t = sym (nil-append t)
prepend-append (String.◌∷◌ c s) t =
    ap (λ x. String.◌∷◌ c x) (prepend-append s t) ∙ sym (cons-append c s t)

-- A text with something put before it.
pub append-not_empty : (s t : String) → (s == "") ≡ false → ((s ++ t) == "") ≡ false
append-not_empty String.[] t h = cc
append-not_empty (String.◌∷◌ c s) t h = rw (cons-append c s t, cons-nil c (s ++ t)) refl
