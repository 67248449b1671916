-- ===== src/Kube/Actions.antt =====
-- Go functions that change state and return `(value, error)`: what they changed before they
-- return an error stays changed.
use nio.Kube.Messages.{Error, Result, ok, err}

abbrev pub Action : Type 0 → Type 0 → Type 0
Action S A = S → Result A × S

-- The rest of a body after a call: `if err != nil { return err }`.
abbrev pub and_then : {S A B : Type 0} → Result A × S → (A → Action S B) → Result B × S
and_then (ok a, s) f = f a s
and_then (err e, s) f = (err e, s)

infixl 5 ◌>>=◌ ◌>>◌
abbrev pub ◌>>=◌ : {S A B : Type 0} → Action S A → (A → Action S B) → Action S B
◌>>=◌ m f s = and_then (m s) f

abbrev pub ◌>>◌ : {S B : Type 0} → Action S (Unit {0}) → Action S B → Action S B
◌>>◌ m k = m >>= λ _. k

-- return v, nil
abbrev pub pure : {S A : Type 0} → A → Action S A
pure a s = (ok a, s)

-- return err
abbrev pub fail : {S A : Type 0} → Error → Action S A
fail e s = (err e, s)

abbrev pub caught : {S A : Type 0} → Result A × S → Result (Result A) × S
caught (r, s) = (ok r, s)

-- `v, err := f()`, for an error that the caller looks at.
abbrev pub attempt : {S A : Type 0} → Action S A → Action S (Result A)
attempt m s = caught (m s)

-- A pure call that may fail.
abbrev pub lift : {S A : Type 0} → Result A → Action S A
lift r s = (r, s)

abbrev pub get : {S : Type 0} → Action S S
get s = (ok s, s)

abbrev pub modify : {S : Type 0} → (S → S) → Action S (Unit {0})
modify f s = (ok tt, f s)
