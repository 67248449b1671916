-- ===== src/Prelude/Sort.antt =====
-- `sort.Strings`: the ascending list of the same names.
use Prim.Native.Nat.{ℕ, zero, suc}
use Prim.Native.String.{String}
use mathlib.Core.Path.{◌≡◌, refl}
use mathlib.Core.Logic.{inl, inr}
use mathlib.Core.Bool.{false, ◌||◌}
use mathlib.Core.List.{List, [], ◌∷◌}
use native.Mathlib.Omega.{arith}
use text.Mathlib.Text.{◌==◌}
use text.Mathlib.TextEquality.{eq_iff}
use nio.Prelude.Tests.{if◌then◌else◌, Bool-cases}
use nio.Prelude.Lists.{length, take, All}
use nio.Prelude.Order.{str_lt, str_lt_trans, str_lt_connex, str_lt_irrefl}
use nio.Prelude.Members.{contains, Distinct, IsWithin}

unfoldable pub insert : String → List String → List String
insert s [] = s ∷ []
insert s (x ∷ xs) = let rest = insert s xs in if str_lt x s then x ∷ rest else s ∷ x ∷ xs

unfoldable pub sort_strings : List String → List String
sort_strings [] = []
sort_strings (x ∷ xs) = insert x (sort_strings xs)

-- No name is above a later one.
abbrev pub Ascending : List String → Type 0
Ascending [] = Unit
Ascending (x ∷ xs) = All (λ y. str_lt y x ≡ false) xs × Ascending xs

contains-insert :
    (s t : String) (xs : List String) → contains (insert s xs) t ≡ (s == t || contains xs t)
unfolding insert
contains-insert s t [] = refl
contains-insert s t (x ∷ xs) = ground (arith, contains-insert s t xs)

pub contains-sort_strings :
    (xs : List String) (s : String) → contains (sort_strings xs) s ≡ contains xs s
unfolding sort_strings
contains-sort_strings [] s = refl
contains-sort_strings (x ∷ xs) s =
    ground (arith, contains-insert x s (sort_strings xs), contains-sort_strings xs s)

length-insert : (s : String) (xs : List String) → length (insert s xs) ≡ suc (length xs)
unfolding insert
length-insert s [] = refl
length-insert s (x ∷ xs) = ground (arith, length-insert s xs)

pub length-sort_strings : (xs : List String) → length (sort_strings xs) ≡ length xs
unfolding sort_strings
length-sort_strings [] = refl
length-sort_strings (x ∷ xs) =
    omega (arith, length-insert x (sort_strings xs), length-sort_strings xs)

Distinct-insert :
    (s : String) (xs : List String) → contains xs s ≡ false → Distinct xs → Distinct (insert s xs)
unfolding insert
Distinct-insert s [] n d = (refl, tt)
Distinct-insert s (x ∷ xs) n (out, d) =
    ground (arith, Distinct-insert s xs, contains-insert s x xs, eq_iff s x, eq_iff x s)

pub Distinct-sort_strings : (xs : List String) → Distinct xs → Distinct (sort_strings xs)
unfolding sort_strings
Distinct-sort_strings [] d = tt
Distinct-sort_strings (x ∷ xs) (out, d) =
    Distinct-insert x (sort_strings xs) (rw (contains-sort_strings xs x) out)
      (Distinct-sort_strings xs d)

All-insert :
    (P : String → Type 0) (s : String) (xs : List String) → P s → All P xs → All P (insert s xs)
unfolding insert
All-insert P s [] p h = (p, tt)
All-insert P s (x ∷ xs) p (q, h) = ground (arith, All-insert P s xs p h)

above-All :
    (s x : String) (xs : List String)
    → str_lt x s ≡ false
    → All (λ y. str_lt y x ≡ false) xs
    → All (λ y. str_lt y s ≡ false) xs
above-All s x [] n h = tt
above-All s x (y ∷ ys) n (m, h) =
    (ground (arith, str_lt_connex s x, str_lt_trans y s x, str_lt_connex y x), above-All s x ys n h)

Ascending-insert : (s : String) (xs : List String) → Ascending xs → Ascending (insert s xs)
unfolding insert
Ascending-insert s [] a = (tt, tt)
Ascending-insert s (x ∷ xs) (above, a) = elim (Bool-cases (str_lt x s)) [
  | inl e ↦ rw e (
    All-insert (λ y. str_lt y x ≡ false) s xs
        (ground (arith, str_lt_trans s x s, str_lt_irrefl s, e)) above,
    Ascending-insert s xs a,
  )
  | inr e ↦ rw e ((e, above-All s x xs e above), (above, a))
]

pub sort_strings-Ascending : (xs : List String) → Ascending (sort_strings xs)
unfolding sort_strings
sort_strings-Ascending [] = tt
sort_strings-Ascending (x ∷ xs) = Ascending-insert x (sort_strings xs) (sort_strings-Ascending xs)

pub take-IsWithin : (n : ℕ) (xs : List String) → IsWithin (take n xs) xs
take-IsWithin zero xs s h = cc
take-IsWithin (suc n) [] s h = h
take-IsWithin (suc n) (x ∷ xs) s h = ground (arith, take-IsWithin n xs s)

pub Distinct-take : (n : ℕ) (xs : List String) → Distinct xs → Distinct (take n xs)
Distinct-take zero xs d = tt
Distinct-take (suc n) [] d = tt
Distinct-take (suc n) (x ∷ xs) (out, d) =
    (ground (arith, take-IsWithin n xs x), Distinct-take n xs d)
