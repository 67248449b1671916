-- ===== src/Kube/Binds.antt =====
-- What a body does after a call, by the answer of the call.
use nio.Prelude.{◌≡◌, refl, arith, ◌⊎◌, inl, inr}
use nio.Kube.Messages.{Error, Result, ok, err}
use nio.Kube.Actions.{Action, and_then, ◌>>=◌}

module _ {S A B : Type 0} where
  and_then-ok :
      (x : Result A × S) (f : A → Action S B) {a : A} → x.0 ≡ ok a → and_then x f ≡ f a x.1
  and_then-ok (ok b, s) f e = ground arith
  and_then-ok (err x, s) f e = cc

  and_then-err :
      (x : Result A × S) (f : A → Action S B) {e : Error}
      → x.0 ≡ err e
      → and_then x f ≡ (err e, x.1)
  and_then-err (ok b, s) f e = cc
  and_then-err (err x, s) f e = cc

  pub bind-ok :
      (m : Action S A) (f : A → Action S B) (s : S) {a : A}
      → (m s).0 ≡ ok a
      → (m >>= f) s ≡ f a (m s).1
  bind-ok m f s e = and_then-ok (m s) f e

  pub bind-err :
      (m : Action S A) (f : A → Action S B) (s : S) {e : Error}
      → (m s).0 ≡ err e
      → (m >>= f) s ≡ (err e, (m s).1)
  bind-err m f s e = and_then-err (m s) f e

-- The two ways a call ends.
pub Result-cases {ℓ} :
    {A : Type ℓ} (x : Result A) → ((a : A) × (x ≡ ok a)) ⊎ ((e : Error) × (x ≡ err e))
Result-cases (ok a) = inl (a, refl)
Result-cases (err e) = inr (e, refl)
