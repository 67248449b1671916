-- ===== src/Prelude/Decimal.antt =====
-- `%d` of a number that is not negative.
use Prim.Native.Nat.{ℕ, zero, suc, ◌+◌, ◌*◌, ◌-◌, ◌≤◌}
use Prim.Native.Char.{Char, code}
use Prim.Native.String.{String}
use mathlib.Core.Path.{◌≡◌, refl, sym, ap, ◌∙◌}
use mathlib.Core.Bool.{true, false, not}
use mathlib.Core.List.{List, [], ◌∷◌}
use native.Mathlib.Omega.{arith}
use nio.Prelude.Tests.{eqb, if◌then◌else◌}
use nio.Prelude.Lists.{All}
use nio.Prelude.Texts.{all_chars}

-- The character of a digit.
abbrev digit : ℕ → Char
digit zero = "0"
digit (suc zero) = "1"
digit (suc (suc zero)) = "2"
digit (suc (suc (suc zero))) = "3"
digit (suc (suc (suc (suc zero)))) = "4"
digit (suc (suc (suc (suc (suc zero))))) = "5"
digit (suc (suc (suc (suc (suc (suc zero)))))) = "6"
digit (suc (suc (suc (suc (suc (suc (suc zero))))))) = "7"
digit (suc (suc (suc (suc (suc (suc (suc (suc zero)))))))) = "8"
digit (suc (suc (suc (suc (suc (suc (suc (suc (suc _))))))))) = "9"

-- The digits of the next number; the last digit of a number stands first.
unfoldable pub next : List ℕ → List ℕ
next [] = 1 ∷ []
next (d ∷ ds) = let carried = next ds in if eqb d 9 then 0 ∷ carried else suc d ∷ ds

unfoldable pub digits : ℕ → List ℕ
digits zero = 0 ∷ []
digits (suc n) = next (digits n)

unfoldable pub written : List ℕ → String → String
written [] out = out
written (d ∷ ds) out = written ds (String.◌∷◌ (digit d) out)

unfoldable pub decimal : ℕ → String
decimal n = written (digits n) ""

value : List ℕ → ℕ
value [] = 0
value (d ∷ ds) = d + 10 * value ds

abbrev AreDigits : List ℕ → Type 0
AreDigits = All (λ d. d ≤ 9)

value-next : (ds : List ℕ) → AreDigits ds → (value (next ds) ≡ suc (value ds)) × AreDigits (next ds)
unfolding value next
value-next [] h = (refl, (omega arith, tt))
value-next (d ∷ ds) (small, h) = ground (arith, value-next ds h)

value-digits : (n : ℕ) → (value (digits n) ≡ n) × AreDigits (digits n)
unfolding value digits
value-digits zero = (refl, (omega arith, tt))
value-digits (suc n) = ground (arith, value-digits n, value-next (digits n))

read : ℕ → String → ℕ
read n String.[] = n
read n (String.◌∷◌ c s) = read (n * 10 + (code c - 48)) s

code-digit : (d : ℕ) → d ≤ 9 → code (digit d) - 48 ≡ d
code-digit zero h = refl
code-digit (suc zero) h = refl
code-digit (suc (suc zero)) h = refl
code-digit (suc (suc (suc zero))) h = refl
code-digit (suc (suc (suc (suc zero)))) h = refl
code-digit (suc (suc (suc (suc (suc zero))))) h = refl
code-digit (suc (suc (suc (suc (suc (suc zero)))))) h = refl
code-digit (suc (suc (suc (suc (suc (suc (suc zero))))))) h = refl
code-digit (suc (suc (suc (suc (suc (suc (suc (suc zero)))))))) h = refl
code-digit (suc (suc (suc (suc (suc (suc (suc (suc (suc zero))))))))) h = refl
code-digit (suc (suc (suc (suc (suc (suc (suc (suc (suc (suc d)))))))))) h = absurd (omega arith)

read-written :
    (ds : List ℕ) (out : String) → AreDigits ds → read 0 (written ds out) ≡ read (value ds) out
unfolding read written value
read-written [] out h = refl
read-written (d ∷ ds) out (small, h) =
    read-written ds (String.◌∷◌ (digit d) out) h
    ∙ ap (λ n. read n out) (omega (arith, code-digit d small))

-- Two numbers with the same decimal text are the same.
pub decimal-injective : (m n : ℕ) → decimal m ≡ decimal n → m ≡ n
unfolding decimal read
decimal-injective m n e =
    let (m_read, m_digits) = value-digits m in
    let (n_read, n_digits) = value-digits n in
    let em = read-written (digits m) "" m_digits in
    let en = read-written (digits n) "" n_digits in
    sym m_read ∙ sym em ∙ ap (read 0) e ∙ en ∙ n_read

-- No digit is a colon.
digit-plain : (d : ℕ) → eqb (code (digit d)) b':' ≡ false
digit-plain zero = refl
digit-plain (suc zero) = refl
digit-plain (suc (suc zero)) = refl
digit-plain (suc (suc (suc zero))) = refl
digit-plain (suc (suc (suc (suc zero)))) = refl
digit-plain (suc (suc (suc (suc (suc zero))))) = refl
digit-plain (suc (suc (suc (suc (suc (suc zero)))))) = refl
digit-plain (suc (suc (suc (suc (suc (suc (suc zero))))))) = refl
digit-plain (suc (suc (suc (suc (suc (suc (suc (suc zero)))))))) = refl
digit-plain (suc (suc (suc (suc (suc (suc (suc (suc (suc d))))))))) = refl

written-plain :
    (ds : List ℕ) (out : String)
    → all_chars (λ c. not (eqb c b':')) out ≡ true
    → all_chars (λ c. not (eqb c b':')) (written ds out) ≡ true
unfolding written
written-plain [] out h = h
written-plain (d ∷ ds) out h = written-plain ds (String.◌∷◌ (digit d) out) (rw (digit-plain d) h)

pub decimal-plain : (n : ℕ) → all_chars (λ c. not (eqb c b':')) (decimal n) ≡ true
unfolding decimal
decimal-plain n = written-plain (digits n) "" refl
