-- ===== src/Prelude/Members.antt =====
-- Lists of names as sets (a Go `map[string]bool` and the slice that lists it), and `sort.Strings`.
use Prim.Native.Nat.{suc, ◌≤◌}
use Prim.Native.String.{String}
use mathlib.Core.Path.{◌≡◌, refl}
use mathlib.Core.Bool.{Bool, true, false, ◌||◌}
use mathlib.Core.List.{List, [], ◌∷◌, ◌++◌}
use native.Mathlib.Omega.{arith}
use text.Mathlib.Text.{◌==◌}
use text.Mathlib.TextEquality.{eq_iff}
use text.Mathlib.TextPositions.{eq_refl}
use nio.Prelude.Tests.{if◌then◌else◌}
use nio.Prelude.Lists.{length}

abbrev pub contains : List String → String → Bool
contains [] s = false
contains (x ∷ xs) s = x == s || contains xs s

abbrev pub Distinct : List String → Type 0
Distinct [] = Unit
Distinct (x ∷ xs) = (contains xs x ≡ false) × Distinct xs

-- Every name of the first list is in the second.
abbrev pub IsWithin : List String → List String → Type 0
IsWithin xs ys = (s : String) → contains xs s ≡ true → contains ys s ≡ true

pub contains-append :
    (xs ys : List String) (s : String) → contains (xs ++ ys) s ≡ (contains xs s || contains ys s)
contains-append [] ys s = refl
contains-append (x ∷ xs) ys s = ground (arith, contains-append xs ys s)

pub Distinct-append_one :
    (xs : List String) (x : String)
    → Distinct xs
    → contains xs x ≡ false
    → Distinct (xs ++ (x ∷ []))
Distinct-append_one [] x d n = (refl, tt)
Distinct-append_one (y ∷ ys) x (out, d) n = (
  ground (arith, contains-append ys (x ∷ []) y, eq_iff x y, eq_iff y x),
  Distinct-append_one ys x d (ground arith),
)

-- Names without the first occurrence of one.
without : String → List String → List String
without s [] = []
without s (x ∷ xs) = let rest = without s xs in if x == s then xs else x ∷ rest

length-without :
    (s : String) (xs : List String) → contains xs s ≡ true → length xs ≡ suc (length (without s xs))
unfolding without
length-without s [] h = cc
length-without s (x ∷ xs) h = ground (arith, length-without s xs)

contains-without :
    (s t : String) (xs : List String)
    → (t == s) ≡ false
    → contains xs t ≡ true
    → contains (without s xs) t ≡ true
unfolding without
contains-without s t [] n h = h
contains-without s t (x ∷ xs) n h =
    ground (arith, contains-without s t xs, eq_iff x s, eq_iff x t, eq_iff t s)

-- A list of distinct names is not longer than one that has them all.
pub length_of_within : (xs ys : List String) → Distinct xs → IsWithin xs ys → length xs ≤ length ys
length_of_within [] ys d w = omega arith
length_of_within (x ∷ xs) ys (out, d) w =
    let rest =
      length_of_within xs (without x ys) d
        (λ s h. contains-without x s ys (ground (arith, eq_iff s x)) (w s (ground arith))) in
    omega (arith, rest, length-without x ys (w x (ground (arith, eq_refl x))))
