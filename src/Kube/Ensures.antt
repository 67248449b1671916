-- ===== src/Kube/Ensures.antt =====
-- Contracts of actions: an invariant of the state, and what holds of the answer when there is one.
use nio.Prelude.{Bool, true, false, if◌then◌else◌, ◌≡◌, refl}
use nio.Kube.Messages.{Error, Result, ok, err}
use nio.Kube.Actions.{Action, and_then, ◌>>=◌, pure, fail}
use nio.Kube.Keeps.{Keeps}

-- What holds of an answer that is not an error.
abbrev pub Holds : {A : Type 0} → (A → Type 0) → Result A → Type 0
Holds R (ok a) = R a
Holds R (err e) = Unit {0}

-- From a state with P the action leaves one with P, and an answer with R.
pub record Ensures {S A : Type 0} (P : S → Type 0) (R : A → Type 0) (m : Action S A) : Type 0 where
  pub keeps : (s : S) → P s → P (m s).1
  pub gives : (s : S) → P s → Holds R (m s).0

-- Nothing is said of the answer.
abbrev pub Any : {A : Type 0} → A → Type 0
Any a = Unit {0}

any : {A : Type 0} (x : Result A) → Holds Any x
any (ok a) = tt
any (err e) = tt

weaker :
    {A : Type 0} (R R' : A → Type 0)
    → ((a : A) → R a → R' a)
    → (x : Result A) → Holds R x
    → Holds R' x
weaker R R' f (ok a) h = f a h
weaker R R' f (err e) h = tt

module _ {S A : Type 0} {P : S → Type 0} where
  pub Ensures-pure : (R : A → Type 0) (value : A) → R value → Ensures P R (pure value)
  Ensures-pure R value h = record { keeps = λ s kept. kept; gives = λ s kept. h }

  pub Ensures-fail : (R : A → Type 0) (e : Error) → Ensures P R (fail e)
  Ensures-fail R e = record { keeps = λ s kept. kept; gives = λ s kept. tt }

  -- Each branch may use what its test says.
  pub Ensures-if :
      (R : A → Type 0) (first second : Action S A) (test : Bool)
      → (test ≡ false → Ensures P R second)
      → (test ≡ true → Ensures P R first)
      → Ensures P R (if test then first else second)
  Ensures-if R first second false n y = n refl
  Ensures-if R first second true n y = y refl

  pub Ensures-Keeps : (m : Action S A) → Keeps P m → Ensures P Any m
  Ensures-Keeps m k = record { keeps = k.at; gives = λ s h. any (m s).0 }

  pub Ensures-weaken :
      (R R' : A → Type 0) (m : Action S A) → ((a : A) → R a → R' a) → Ensures P R m → Ensures P R' m
  Ensures-weaken R R' m f c = record {
    keeps = c.keeps;
    gives = λ s h. weaker R R' f (m s).0 (c.gives s h);
  }

  pub Keeps-Ensures : (R : A → Type 0) (m : Action S A) → Ensures P R m → Keeps P m
  Keeps-Ensures R m c = record { at = c.keeps }

module _ {S A B : Type 0} {P : S → Type 0} where
  rest_keeps :
      (R : A → Type 0) (R' : B → Type 0) (x : Result A × S) (f : A → Action S B)
      → P x.1
      → Holds R x.0
      → ((a : A) → R a → Ensures P R' (f a))
      → P (and_then x f).1 × Holds R' (and_then x f).0
  rest_keeps R R' (ok a, t) f h r k = ((k a r).keeps t h, (k a r).gives t h)
  rest_keeps R R' (err e, t) f h r k = (h, tt)

  -- The rest may use what the call ensures of its answer.
  pub Ensures-bind :
      (R : A → Type 0) (R' : B → Type 0) (m : Action S A) (f : A → Action S B)
      → Ensures P R m
      → ((a : A) → R a → Ensures P R' (f a))
      → Ensures P R' (m >>= f)
  Ensures-bind R R' m f c k = record {
    keeps = λ s h. (rest_keeps R R' (m s) f (c.keeps s h) (c.gives s h) k).0;
    gives = λ s h. (rest_keeps R R' (m s) f (c.keeps s h) (c.gives s h) k).1;
  }

  -- A call of which only the invariant is known.
  pub Ensures-after :
      (R' : B → Type 0) (m : Action S A) (f : A → Action S B)
      → Keeps P m
      → ((a : A) → Ensures P R' (f a))
      → Ensures P R' (m >>= f)
  Ensures-after R' m f c k = Ensures-bind Any R' m f (Ensures-Keeps m c) (λ a _. k a)
