-- ===== src/Kube/Messages.antt =====
-- Formatted texts, Go's `(value, error)` results, and `ctrl.Result`.
use nio.Prelude.{ℕ, String, Bool, true, false, List}

-- An argument of `fmt.Sprintf` and `fmt.Errorf`.
pub data Arg : Type 0 where
  str : String → Arg
  num : ℕ → Arg

-- A text that is built for a reader: the format and its arguments are kept, and not rendered.
pub data Message : Type 0 where
  text : String → Message
  sprintf : String → List Arg → Message
  -- A text before another one: `"prefix" + m`, or a format that ends in `%v` or `%w`.
  wrapped : String → List Arg → Message → Message

-- The kinds of API error that the code tells apart.
pub data Error : Type 0 where
  not_found : Message → Error
  conflict : Message → Error
  already_exists : Message → Error
  other : Message → Error

-- err.Error()
abbrev pub message_of : Error → Message
message_of (not_found m) = m
message_of (conflict m) = m
message_of (already_exists m) = m
message_of (other m) = m

-- apierrors.IsNotFound, IsConflict, IsAlreadyExists
abbrev pub is_not_found : Error → Bool
is_not_found (not_found m) = true
is_not_found _ = false

abbrev pub is_conflict : Error → Bool
is_conflict (conflict m) = true
is_conflict _ = false

abbrev pub is_already_exists : Error → Bool
is_already_exists (already_exists m) = true
is_already_exists _ = false

-- A pair `(value, error)` of which the value is read only when the error is nil.
pub data Result {ℓ} (A : Type ℓ) : Type ℓ where
  ok : A → Result A
  err : Error → Result A

-- reconcile.Request: the namespaced name of an object.
pub record Request : Type 0 where
  pub name : String
  pub namespace : String

-- ctrl.Result: `requeue_after` counts seconds.
pub record Requeue : Type 0 where
  pub requeue : Bool
  pub requeue_after : ℕ

-- ctrl.Result{}
abbrev pub no_requeue : Requeue
no_requeue = record { requeue = false; requeue_after = 0 }

-- ctrl.Result{Requeue: true}
abbrev pub requeue_now : Requeue
requeue_now = record { requeue = true; requeue_after = 0 }

-- ctrl.Result{RequeueAfter: n}
abbrev pub requeue_in : ℕ → Requeue
requeue_in n = record { requeue = false; requeue_after = n }

-- `if err != nil { return nil, err }`
infixl 5 ◌>>=◌
abbrev pub ◌>>=◌ {ℓ κ} : {A : Type ℓ} {B : Type κ} → Result A → (A → Result B) → Result B
ok a >>= f = f a
err e >>= f = err e
