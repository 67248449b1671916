-- ===== src/Infra/Proofs/Keys.antt =====
-- About ensureSigningKey: where the key that a store publishes is held.
use Prim.Native.String.{◌++◌}
use nio.Prelude.{
  String, true, false, ◌∷◌, Option, none, some, ◌≡◌, refl, ◌⊎◌, inl, inr, ◌==◌, Bool-cases,
  Option-cases,
}
use nio.Kube.{Error, is_not_found, is_already_exists, Result, ok, err}
use nio.Kube.Binds.{Result-cases}
use nio.Kube.Ensures.{Holds}
use nio.Api.Core.{Secret, lookup}
use nio.Api.Builder.{NixStore}
use nio.Infra.State.{create_secret, History, InfraReconciler, InfraSt}
use nio.Infra.Keys.{
  signing_key_secret_private_field, signing_key_secret_public_field, generated_secret_name,
  signing_key_secret_name, key_name_of, signing_key_secret, not_empty, text_or_empty,
  generate_nix_signing_key, reread, create_key_secret, referenced_answer, generated_answer,
  signing_key_by, ensure_signing_key,
}

module _ (r : InfraReconciler NixStore) (store : NixStore) where
  -- The Secret of a name was read, and its public field has the key, which is not empty.
  abbrev pub IsStored : String → String → Type 0
  IsStored name public_key =
      (h : History NixStore) × (secret : Secret) × (r.services.get_secret h store.namespace name
        ≡ ok secret)
      × (lookup secret.contents signing_key_secret_public_field ≡ some public_key)
      × ((public_key == "") ≡ false)

  -- Another reconcile created the Secret first: the server refused a new one for that reason, and
  -- the key is the public field of the Secret that it then answered, or empty without that field.
  abbrev pub IsRaced : String → String → Type 0
  IsRaced name public_key =
      (h : History NixStore) × (desired : Secret) × (offered : Secret) × (e : Error)
      × (secret : Secret) × (desired.name ≡ name)
      × (desired.namespace ≡ store.namespace)
      × (r.services.own_secret store desired ≡ ok offered)
      × (r.services.create_secret h offered ≡ some e)
      × (is_already_exists e ≡ true)
      × (r.services.get_secret (record { call = create_secret offered; failure = some e } ∷ h)
            store.namespace name
          ≡ ok secret)
      × (public_key ≡ text_or_empty (lookup secret.contents signing_key_secret_public_field))

  -- The two halves of one new pair were stored under that name.
  abbrev pub IsGenerated : String → String → Type 0
  IsGenerated name public_key =
      (h : History NixStore) × (desired : Secret) × (secret : Secret) × (pair : String × String)
      × (r.services.generate_key h ≡ ok pair)
      × (r.services.own_secret store desired ≡ ok secret)
      × (r.services.create_secret h secret ≡ none)
      × (desired.name ≡ name)
      × (desired.namespace ≡ store.namespace)
      × (lookup desired.contents signing_key_secret_public_field ≡ some public_key)
      × (public_key ≡ key_name_of store ++ ":" ++ r.services.base64 pair.0)
      × (lookup desired.contents signing_key_secret_private_field
          ≡ some (key_name_of store ++ ":" ++ r.services.base64 pair.1))

  abbrev pub IsHeld : String → String → Type 0
  IsHeld name public_key =
      IsStored name public_key ⊎ IsGenerated name public_key ⊎ IsRaced name public_key

  not_empty-IsStored :
      (name : String) (h : History NixStore) (secret : Secret) (e : Error) (value : Option String)
      → r.services.get_secret h store.namespace name ≡ ok secret
      → lookup secret.contents signing_key_secret_public_field ≡ value
      → Holds (IsHeld name) (not_empty e value)
  not_empty-IsStored name h secret e none g v = tt
  not_empty-IsStored name h secret e (some value) g v = elim (Bool-cases (value == "")) [
    | inl t ↦ rw t tt
    | inr f ↦ rw f (inl (h, secret, g, v, f))
  ]

  reread-IsRaced :
      (failing : String) (e : Error) (h : History NixStore) (desired offered : Secret)
      (answer : Result Secret) (s : InfraSt NixStore)
      → desired.namespace ≡ store.namespace
      → r.services.own_secret store desired ≡ ok offered
      → r.services.create_secret h offered ≡ some e
      → is_already_exists e ≡ true
      → r.services.get_secret
          (record { call = create_secret offered; failure = some e } ∷ h)
          store.namespace
          desired.name
        ≡ answer
      → Holds (IsHeld desired.name) (reread r failing signing_key_secret_public_field e answer s).0
  reread-IsRaced failing e h desired offered (ok secret) s ns o c a g =
      inr (inr (h, desired, offered, e, secret, refl, ns, o, c, a, g, refl))
  reread-IsRaced failing e h desired offered (err x) s ns o c a g = tt

  create-IsHeld :
      (failing public_key : String) (desired : Secret) (s : InfraSt NixStore)
      → desired.namespace ≡ store.namespace
      → ((secret : Secret)
          → r.services.own_secret store desired ≡ ok secret
          → r.services.create_secret s.history secret ≡ none
          → IsGenerated desired.name public_key)
      → Holds
          (IsHeld desired.name)
          (create_key_secret r store failing signing_key_secret_public_field public_key desired s).0
  create-IsHeld failing public_key desired s ns k =
      elim (Result-cases (r.services.own_secret store desired)) [
        | inr (x, o) ↦ rw o tt
        | inl (secret, o) ↦ elim (Option-cases (r.services.create_secret s.history secret)) [
          | inl c ↦ rw (o, c) (inr (inl (k secret o c)))
          | inr (x, c) ↦ elim (Bool-cases (is_already_exists x)) [
            | inl a ↦
                rw (o, c, a, ns)
                  (reread-IsRaced failing x s.history desired secret _ _ ns o c a refl)
            | inr a ↦ rw (o, c, a) tt
          ]
        ]
      ]

  generated-IsHeld :
      (answer : Result Secret) (s : InfraSt NixStore)
      → r.services.get_secret s.history store.namespace (generated_secret_name store) ≡ answer
      → Holds (IsHeld (generated_secret_name store)) (generated_answer r store answer s).0
  unfolding generate_nix_signing_key lookup
  generated-IsHeld (ok secret) s g = not_empty-IsStored _ s.history secret _ _ g refl
  generated-IsHeld (err x) s g = elim (Bool-cases (is_not_found x)) [
    | inr n ↦ rw n tt
    | inl n ↦ elim (Result-cases (r.services.generate_key s.history)) [
      | inr (y, p) ↦ rw (n, p) tt
      | inl (pair, p) ↦
          let public_key = key_name_of store ++ ":" ++ r.services.base64 pair.0 in
          let desired =
            signing_key_secret store (key_name_of store ++ ":" ++ r.services.base64 pair.1)
              public_key in
          rw (n, p)
            (create-IsHeld "creating signing-key secret: %w" public_key desired s refl
              (λ secret o c.
                (s.history, desired, secret, pair, p, o, c, refl, refl, refl, refl, refl)))
    ]
  ]

  referenced-IsHeld :
      (name : String) (h : History NixStore) (answer : Result Secret) (s : InfraSt NixStore)
      → r.services.get_secret h store.namespace name ≡ answer
      → Holds (IsHeld name) (referenced_answer r name answer s).0
  referenced-IsHeld name h (ok secret) s g = not_empty-IsStored name h secret _ _ g refl
  referenced-IsHeld name h (err x) s g = tt

  signing_by-IsHeld :
      (ref : Option String) (s : InfraSt NixStore)
      → Holds
          (IsHeld (elim ref [ some name ↦ name | none ↦ generated_secret_name store ]))
          (signing_key_by r store ref s).0
  signing_by-IsHeld (some name) s = referenced-IsHeld name s.history _ s refl
  signing_by-IsHeld none s = generated-IsHeld _ s refl

  -- The public key that ensureSigningKey answers is held by the Secret that the pods of the store
  -- mount. Either that Secret was read and has the key in its public field, not empty; or the server
  -- had none and stored, under that name, the two halves of one pair that was generated for it; or
  -- the server refused to create it because it is there already, and the key is what the public
  -- field of the Secret then says, which is not checked: without the field it is empty.
  pub ensure_signing_key-IsHeld :
      (s : InfraSt NixStore)
      → Holds (IsHeld (signing_key_secret_name store)) (ensure_signing_key r store s).0
  unfolding ensure_signing_key signing_key_secret_name
  ensure_signing_key-IsHeld s = signing_by-IsHeld store.spec.signing_key_secret_ref s
