-- ===== src/Prelude/Order.antt =====
-- The order of texts that Go's `<` and `sort.Strings` use: a strict total order.
use Prim.Native.Nat.{ℕ, Ordering, compare as compare_ℕ}
use Prim.Native.Char.{Char, code}
use Prim.Native.String.{String, compare, then}
use Prim.Native.String.compare
use mathlib.Core.Path.{◌≡◌, sym, ap, ◌∙◌}
use mathlib.Core.Bool.{Bool, true, false}
use native.Mathlib.Omega.{arith}
use text.Mathlib.Text.{is_lt}
use text.Mathlib.TextEquality.{path_by_compare}
use text.Mathlib.TextPositions.{compare_refl}

unfoldable pub str_lt : String → String → Bool
str_lt a b = is_lt (compare a b)

pub str_lt_irrefl : (a : String) → str_lt a a ≡ false
unfolding str_lt
str_lt_irrefl a = ap is_lt (compare_refl a)

then_lt :
    (a b c : ℕ) (o p q : Ordering)
    → (is_lt o ≡ true → is_lt p ≡ true → is_lt q ≡ true)
    → is_lt (then (compare_ℕ a b) o) ≡ true
    → is_lt (then (compare_ℕ b c) p) ≡ true
    → is_lt (then (compare_ℕ a c) q) ≡ true
then_lt a b c o p q h k l = ground arith

cons_lt :
    (x y : Char) (a b : String)
    → is_lt (compare (String.◌∷◌ x a) (String.◌∷◌ y b))
      ≡ is_lt (then (compare_ℕ (code x) (code y)) (compare a b))
cons_lt x y a b = ap is_lt (compare.cons-cons x y a b)

not_lt_nil : (a : String) → is_lt (compare a String.[]) ≡ false
not_lt_nil String.[] = ap is_lt compare.nil-nil
not_lt_nil (String.◌∷◌ x a) = ap is_lt (compare.cons-nil x a)

lt_trans :
    (a b c : String)
    → is_lt (compare a b) ≡ true
    → is_lt (compare b c) ≡ true
    → is_lt (compare a c) ≡ true
lt_trans a b String.[] h k = cc (not_lt_nil b)
lt_trans a String.[] (String.◌∷◌ z c) h k = cc (not_lt_nil a)
lt_trans String.[] (String.◌∷◌ y b) (String.◌∷◌ z c) h k = ap is_lt (compare.nil-cons z c)
lt_trans (String.◌∷◌ x a) (String.◌∷◌ y b) (String.◌∷◌ z c) h k =
    cons_lt x z a c
    ∙ then_lt (code x) (code y) (code z) (compare a b) (compare b c) (compare a c) (lt_trans a b c)
        (sym (cons_lt x y a b) ∙ h) (sym (cons_lt y z b c) ∙ k)

-- `str_lt` is transitive.
pub str_lt_trans : (a b c : String) → str_lt a b ≡ true → str_lt b c ≡ true → str_lt a c ≡ true
unfolding str_lt
str_lt_trans a b c h k = lt_trans a b c h k

eq_of_incomparable :
    (a b : String)
    → is_lt (compare a b) ≡ false
    → is_lt (compare b a) ≡ false
    → compare a b ≡ Ordering.eq
eq_of_incomparable String.[] String.[] h k = compare.nil-nil
eq_of_incomparable String.[] (String.◌∷◌ y b) h k = cc (ap is_lt (compare.nil-cons y b))
eq_of_incomparable (String.◌∷◌ x a) String.[] h k = cc (ap is_lt (compare.nil-cons x a))
eq_of_incomparable (String.◌∷◌ x a) (String.◌∷◌ y b) h k =
    compare.cons-cons x y a b
    ∙ both_eq (code x) (code y) (compare a b) (compare b a) (eq_of_incomparable a b)
        (sym (cons_lt x y a b) ∙ h) (sym (cons_lt y x b a) ∙ k)
  where
    both_eq :
        (m n : ℕ) (o p : Ordering)
        → (is_lt o ≡ false → is_lt p ≡ false → o ≡ Ordering.eq)
        → is_lt (then (compare_ℕ m n) o) ≡ false
        → is_lt (then (compare_ℕ n m) p) ≡ false
        → then (compare_ℕ m n) o ≡ Ordering.eq
    both_eq m n o p f u v = ground arith

-- Two texts of which neither is below the other are equal.
pub str_lt_connex : (a b : String) → str_lt a b ≡ false → str_lt b a ≡ false → a ≡ b
unfolding str_lt
str_lt_connex a b h k = path_by_compare a b (eq_of_incomparable a b h k)
