-- ===== src/Infra/State.antt =====
-- The working copy of the NixStore or NixBuilder controller, and its calls. The type of the object
-- is an argument. What the API server and the cryptographic libraries answer is a record of
-- functions.
use nio.Prelude.{String, List, ◌∷◌, Option, none, some}
use nio.Kube.{Error, Result, ok, err}
use nio.Kube.Conditions.{Meta}
use nio.Kube.Actions.{Action, modify}
use nio.Api.Core.{Secret, Service}
use nio.Api.Rollout.{StatefulSet}

-- The calls that write.
pub data Call (A : Type 0) : Type 0 where
  update_object_status : A → Call A
  create_secret : Secret → Call A
  put_service : Service → Call A
  create_stateful_set update_stateful_set : StatefulSet → Call A

pub record Event (A : Type 0) : Type 0 where
  pub call : Call A
  pub failure : Option Error

-- The latest call first.
abbrev pub History : Type 0 → Type 0
History A = List (Event A)

pub record Services (A : Type 0) : Type 0 where
  -- Get, by namespace and name
  pub get_object : History A → String → String → Result A
  pub get_secret : History A → String → String → Result Secret
  pub get_stateful_set : History A → String → String → Result StatefulSet
  -- controllerutil.CreateOrUpdate of a Service: the object that it gives to the mutate function
  -- (the stored one, or one with the namespace and the name only), and the write.
  pub service_to_mutate : History A → String → String → Result Service
  pub put_service : History A → Service → Option Error
  -- writes
  pub update_object_status : History A → A → Result A
  pub create_secret : History A → Secret → Option Error
  pub create_stateful_set : History A → StatefulSet → Option Error
  pub update_stateful_set : History A → StatefulSet → Option Error
  -- controllerutil.SetControllerReference
  pub own_secret : A → Secret → Result Secret
  pub own_service : A → Service → Result Service
  pub own_stateful_set : A → StatefulSet → Result StatefulSet
  -- ed25519.GenerateKey: the public and the private key
  pub generate_key : History A → Result (String × String)
  -- base64.StdEncoding.EncodeToString
  pub base64 : String → String
  -- ssh.MarshalPrivateKey (the key and the comment), ssh.NewPublicKey
  pub marshal_private_key : String → String → Result String
  pub new_public_key : String → Result String
  -- pem.EncodeToMemory, ssh.MarshalAuthorizedKey
  pub pem_encode : String → String
  pub marshal_authorized_key : String → String

pub record InfraReconciler (A : Type 0) : Type 0 where
  pub services : Services A
  pub meta : Meta

pub record InfraSt (A : Type 0) : Type 0 where
  pub object : A
  pub history : History A

abbrev pub InfraStep : Type 0 → Type 0 → Type 0
InfraStep A B = Action (InfraSt A) B

module _ {A : Type 0} where
  abbrev pub logged : Call A → Option Error → InfraSt A → InfraSt A
  logged c e s = record s { history = record { call = c; failure = e } ∷ s.history }

  -- A call that returns only an error.
  abbrev pub answered : Call A → Option Error → InfraStep A (Unit {0})
  answered c none s = (ok tt, logged c none s)
  answered c (some e) s = (err e, logged c (some e) s)

  -- A write of the working copy, which the stored object replaces.
  abbrev pub replaced : Call A → Result A → InfraStep A (Unit {0})
  replaced c (ok stored) s = (ok tt, record (logged c none s) { object = stored })
  replaced c (err e) s = (err e, logged c (some e) s)

  -- An assignment to the working copy.
  abbrev pub change : (A → A) → InfraStep A (Unit {0})
  change f = modify (λ s. record s { object = f s.object })

  module _ (r : InfraReconciler A) where
    abbrev pub write_status : InfraStep A (Unit {0})
    write_status s =
        replaced (update_object_status s.object)
          (r.services.update_object_status s.history s.object) s

    abbrev pub get_secret : String → String → InfraStep A Secret
    get_secret namespace name s = (r.services.get_secret s.history namespace name, s)

    abbrev pub get_stateful_set : String → String → InfraStep A StatefulSet
    get_stateful_set namespace name s = (r.services.get_stateful_set s.history namespace name, s)

    abbrev pub service_to_mutate : String → String → InfraStep A Service
    service_to_mutate namespace name s = (r.services.service_to_mutate s.history namespace name, s)

    abbrev pub generate_key : InfraStep A (String × String)
    generate_key s = (r.services.generate_key s.history, s)

    abbrev pub new_secret : Secret → InfraStep A (Unit {0})
    new_secret secret s =
        answered (create_secret secret) (r.services.create_secret s.history secret) s

    abbrev pub store_service : Service → InfraStep A (Unit {0})
    store_service svc s = answered (put_service svc) (r.services.put_service s.history svc) s

    abbrev pub new_stateful_set : StatefulSet → InfraStep A (Unit {0})
    new_stateful_set sts s =
        answered (create_stateful_set sts) (r.services.create_stateful_set s.history sts) s

    abbrev pub write_stateful_set : StatefulSet → InfraStep A (Unit {0})
    write_stateful_set sts s =
        answered (update_stateful_set sts) (r.services.update_stateful_set s.history sts) s
