-- ===== src/Kube/Keeps.antt =====
-- Invariants of actions: one rule for each way to build an action, kept in a ruleset so that
-- `search` walks a body.
use nio.Prelude.{Bool, true, false, if◌then◌else◌, ◌≡◌, refl}
use nio.Kube.Messages.{Error, Result, ok, err}
use nio.Kube.Actions.{Action, and_then, ◌>>=◌, pure, fail, attempt, lift, get, modify}

-- What holds of the state before the action holds after it, on an error too.
pub record Keeps {S A : Type 0} (P : S → Type 0) (m : Action S A) : Type 0 where
  pub at : (s : S) → P s → P (m s).1

module _ {S A : Type 0} {P : S → Type 0} where
  pub Keeps-fail : (e : Error) → Keeps P (fail {A = A} e)
  Keeps-fail _ = record { at = λ _ kept. kept }

  pub Keeps-attempt : (m : Action S A) → Keeps P m → Keeps P (attempt m)
  Keeps-attempt _ km = record { at = km.at }

  pub Keeps-lift : (answer : Result A) → Keeps P (lift answer)
  Keeps-lift _ = record { at = λ _ kept. kept }

  pub Keeps-pure : (value : A) → Keeps P (pure value)
  Keeps-pure _ = record { at = λ _ kept. kept }

  -- Each branch may use what its test says.
  pub Keeps-if :
      (first second : Action S A) (test : Bool)
      → (test ≡ false → Keeps P second)
      → (test ≡ true → Keeps P first)
      → Keeps P (if test then first else second)
  Keeps-if first second false kn ky = kn refl
  Keeps-if first second true kn ky = ky refl

module _ {S : Type 0} {P : S → Type 0} where
  pub Keeps-get : Keeps P (get {S = S})
  Keeps-get = record { at = λ s h. h }

  pub Keeps-modify : (f : S → S) → ((s : S) → P s → P (f s)) → Keeps P (modify f)
  Keeps-modify f k = record { at = λ s h. k s h }

module _ {S A B : Type 0} {P : S → Type 0} where
  rest_keeps :
      (x : Result A × S) (f : A → Action S B)
      → P x.1
      → ((a : A) → Keeps P (f a))
      → P (and_then x f).1
  rest_keeps (ok a, t) f h kf = (kf a).at t h
  rest_keeps (err e, t) f h kf = h

  -- What holds after the first call, and is kept by the rest.
  pub Keeps-after :
      (m : Action S A) (f : A → Action S B) (s : S)
      → P (m s).1
      → ((a : A) → Keeps P (f a))
      → P ((m >>= f) s).1
  Keeps-after m f s h kf = rest_keeps (m s) f h kf

  pub Keeps-bind :
      (m : Action S A) (f : A → Action S B)
      → Keeps P m
      → ((a : A) → Keeps P (f a))
      → Keeps P (m >>= f)
  Keeps-bind m f km kf = record { at = λ s h. Keeps-after m f s (km.at s h) kf }

pub ruleset keeps_rules = (
  Keeps-pure, Keeps-fail, Keeps-lift, Keeps-attempt, Keeps-if, Keeps-get, Keeps-modify, Keeps-bind,
)
