-- ===== src/Infra/Keys.antt =====
-- The keys of a store: ensureSigningKey with generateNixSigningKey and signingKeySecretName
-- (internal/controller/nixstore_controller.go), ensureSSHKeySecret with generateOpenSSHKeyPair
-- (internal/controller/nix_sshkey.go).
use Prim.Native.String.{◌++◌}
use nio.Prelude.{String, List, [], ◌∷◌, Option, none, some, ◌==◌, if◌then◌else◌}
use nio.Kube.{
  Arg, Error, other, is_not_found, is_already_exists, message_of, sprintf, wrapped, str, Result, ok,
  err,
}
use nio.Kube.Actions.{◌>>=◌, pure, fail, attempt, lift}
use nio.Api.Core.{Secret, lookup}
use nio.Api.Builder.{NixStore}
use nio.Api.Names.{managed_labels}
use nio.Workload.Infra.{ssh_secret_name}
use nio.Infra.State.{InfraReconciler, InfraStep, get_secret, generate_key, new_secret}

abbrev pub kind_nix_store : String
kind_nix_store = "NixStore"

-- SigningKeySecretPrivateField, SigningKeySecretPublicField
abbrev pub signing_key_secret_private_field : String
signing_key_secret_private_field = "nix-signing-key"

abbrev pub signing_key_secret_public_field : String
signing_key_secret_public_field = "nix-public-key"

-- sshSecretPrivateKey, sshSecretPublicKey
abbrev pub ssh_secret_private_key : String
ssh_secret_private_key = "ssh-privatekey"

abbrev pub ssh_secret_public_key : String
ssh_secret_public_key = "ssh-authorized-key"

-- The Secret that a store generates its signing key into.
abbrev pub generated_secret_name : NixStore → String
generated_secret_name store = store.name ++ "-signing-key"

-- keyName
abbrev pub key_name_of : NixStore → String
key_name_of store = store.namespace ++ "-" ++ store.name ++ "-1"

unfoldable pub signing_key_secret_name : NixStore → String
signing_key_secret_name store = elim store.spec.signing_key_secret_ref [
  | some name ↦ name
  | none ↦ generated_secret_name store
]

-- The value of a key that is there and not empty, or else the error.
abbrev pub not_empty : Error → Option String → Result String
not_empty e none = err e
not_empty e (some value) = if value == "" then err e else ok value

-- `string(secret.Data[key])`: a missing key reads as the empty text.
abbrev pub text_or_empty : Option String → String
text_or_empty none = ""
text_or_empty (some value) = value

abbrev pub missing_field : String → String → String → Error
missing_field format name field = other (sprintf format (str name ∷ str field ∷ []))

-- An error of which the code keeps the text, under a prefix.
abbrev pub because : String → List Arg → Error → Error
because format args e = other (wrapped format args (message_of e))

-- An Opaque Secret with a private and a public half.
abbrev pub key_secret : String → String → String → List (String × String) → Secret
key_secret name namespace store_name contents = record {
  name = name;
  namespace = namespace;
  labels = managed_labels kind_nix_store store_name;
  owner_uids = [];
  type = "Opaque";
  contents = contents;
}

abbrev pub signing_key_secret : NixStore → String → String → Secret
signing_key_secret store private_key public_key =
    key_secret (generated_secret_name store) store.namespace store.name (
      (signing_key_secret_private_field, private_key)
      ∷ (signing_key_secret_public_field, public_key)
      ∷ [])

module _ {A : Type 0} (r : InfraReconciler A) where
  -- The private and the public key, in Nix's form.
  unfoldable pub generate_nix_signing_key : String → InfraStep A (String × String)
  generate_nix_signing_key key_name = do answer ← attempt (generate_key r); formatted answer
    where
      formatted : Result (String × String) → InfraStep A (String × String)
      formatted (err e) = fail (because "generating ed25519 key: %w" [] e)
      formatted (ok (public_key, private_key)) = pure (
        key_name ++ ":" ++ r.services.base64 private_key,
        key_name ++ ":" ++ r.services.base64 public_key,
      )

  -- The private key in PEM, and the line of authorized_keys.
  abbrev ssh_pair : Result String → Result String → Result (String × String)
  ssh_pair (err e) _ = err (because "marshaling private key: %w" [] e)
  ssh_pair (ok block) (err e) = err (because "building ssh public key: %w" [] e)
  ssh_pair (ok block) (ok public_key) =
      ok (r.services.pem_encode block, r.services.marshal_authorized_key public_key)

  unfoldable pub generate_open_ssh_key_pair : String → InfraStep A (String × String)
  generate_open_ssh_key_pair comment = do answer ← attempt (generate_key r); formatted answer
    where
      formatted : Result (String × String) → InfraStep A (String × String)
      formatted (err e) = fail (because "generating ed25519 key: %w" [] e)
      formatted (ok (public_key, private_key)) = lift (
          ssh_pair (r.services.marshal_private_key private_key comment)
            (r.services.new_public_key public_key))

  -- After Create: the public key that was generated, or what the Secret of another reconcile that
  -- came first holds.
  abbrev pub reread : String → String → Error → Result Secret → InfraStep A String
  reread failing field e (ok secret) = pure (text_or_empty (lookup secret.contents field))
  reread failing field e (err _) = fail (because failing [] e)

  abbrev pub created_or_raced :
      String → String → Secret → String → Result (Unit {0}) → InfraStep A String
  created_or_raced failing field secret public_key (ok _) = pure public_key
  created_or_raced failing field secret public_key (err e) =
      if is_already_exists e
      then (do
        answer ← attempt (get_secret r secret.namespace secret.name)
        reread failing field e answer)
      else fail (because failing [] e)

  abbrev pub create_key_secret : A → String → String → String → Secret → InfraStep A String
  create_key_secret owner failing field public_key desired = do
    secret ← lift (r.services.own_secret owner desired)
    answer ← attempt (new_secret r secret)
    created_or_raced failing field desired public_key answer

  -- ensureSSHKeySecret, by what the Get of the Secret answers.
  abbrev pub ssh_secret_answer : A → String → String → Result Secret → InfraStep A String
  ssh_secret_answer owner namespace store_name (ok secret) = lift (
      not_empty
        (missing_field "ssh secret %q missing %q" (ssh_secret_name store_name)
          ssh_secret_public_key)
        (lookup secret.contents ssh_secret_public_key))
  ssh_secret_answer owner namespace store_name (err e) =
      if is_not_found e
      then (do
        (private_pem, authorized_key) ← generate_open_ssh_key_pair "nio-remote-build"
        create_key_secret owner "creating ssh secret: %w" ssh_secret_public_key authorized_key (
            key_secret (ssh_secret_name store_name) namespace store_name (
              (ssh_secret_private_key, private_pem)
              ∷ (ssh_secret_public_key, authorized_key)
              ∷ [])))
      else fail (because "getting ssh secret: %w" [] e)

  unfoldable pub ensure_ssh_key_secret : A → String → String → InfraStep A String
  ensure_ssh_key_secret owner namespace store_name = do
    answer ← attempt (get_secret r namespace (ssh_secret_name store_name))
    ssh_secret_answer owner namespace store_name answer

module _ (r : InfraReconciler NixStore) where
  -- The Secret that the spec names.
  abbrev pub referenced_answer : String → Result Secret → InfraStep NixStore String
  referenced_answer name (err e) =
      fail (because "reading signing-key secret %q: %w" (str name ∷ []) e)
  referenced_answer name (ok secret) = lift (
      not_empty
        (missing_field "signing-key secret %q missing %q" secret.name
          signing_key_secret_public_field)
        (lookup secret.contents signing_key_secret_public_field))

  abbrev pub generated_answer : NixStore → Result Secret → InfraStep NixStore String
  generated_answer store (ok secret) = lift (
      not_empty
        (missing_field "generated signing-key secret %q missing %q" (generated_secret_name store)
          signing_key_secret_public_field)
        (lookup secret.contents signing_key_secret_public_field))
  generated_answer store (err e) =
      if is_not_found e
      then (do
        (private_key, public_key) ← generate_nix_signing_key r (key_name_of store)
        create_key_secret r store "creating signing-key secret: %w" signing_key_secret_public_field
            public_key (signing_key_secret store private_key public_key))
      else fail (because "getting signing-key secret: %w" [] e)

  abbrev pub signing_key_by : NixStore → Option String → InfraStep NixStore String
  signing_key_by store (some name) = do
    answer ← attempt (get_secret r store.namespace name)
    referenced_answer name answer
  signing_key_by store none = do
    answer ← attempt (get_secret r store.namespace (generated_secret_name store))
    generated_answer store answer

  -- The public key.
  unfoldable pub ensure_signing_key : NixStore → InfraStep NixStore String
  ensure_signing_key store = signing_key_by store store.spec.signing_key_secret_ref
