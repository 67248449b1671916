-- ===== src/Workload/Infra.antt =====
-- resolveInfra, ensureAdditionalFilesConfigMap, ensureOwnedBuilder: the store and the builder that a
-- workload refers to.
use Prim.Native.String.{◌++◌}
use nio.Prelude.{ℕ, ◌+◌, String, not, ◌||◌, List, [], ◌∷◌, Option, none, some, ◌==◌, if◌then◌else◌}
use nio.Prelude.Decimal.{decimal}
use nio.Kube.{
  is_not_found, is_already_exists, message_of, Message, sprintf, wrapped, str, Result, ok, err,
}
use nio.Kube.Actions.{◌>>=◌, ◌>>◌, pure, fail, attempt, lift}
use nio.Api.Workload.{NixFile, NixSpec, NixBuilderSpec}
use nio.Api.Builder.{NixBuilder, NixStore, ConfigMap, new_nix_builder}
use nio.Api.Names.{phase_ready}
use nio.Render.Paths.{validate_file_path, validate_additional_files}
use nio.Render.Config.{StoreInfo, BuilderInfo}
use nio.Render.Pod.{additional_files_config_map_name, ssh_private_key_path}
use nio.Workload.State.{
  WorkloadReconciler, WorkStep, new_builder, store_config_map, drop_config_map,
}

-- infraDeps: an empty `notReady` is none.
pub record InfraDeps : Type 0 where
  pub store : Option StoreInfo
  pub builder : Option BuilderInfo
  pub not_ready : Option Message
  pub ssh_secret_name : String

abbrev pub no_deps : InfraDeps
no_deps = record { store = none; builder = none; not_ready = none; ssh_secret_name = "" }

abbrev pub not_ready_deps : Message → InfraDeps → InfraDeps
not_ready_deps message deps = record deps { not_ready = some message }

-- sshSecretName
abbrev pub ssh_secret_name : String → String
ssh_secret_name store_name = store_name ++ "-ssh"

-- The inline contents, by the index of the file.
unfoldable pub inline_contents : ℕ → List NixFile → List (String × String)
inline_contents i [] = []
inline_contents i (f ∷ fs) =
    let rest = inline_contents (i + 1) fs in
    elim f.inline [ none ↦ rest | some content ↦ ("file-" ++ decimal i, content) ∷ rest ]

-- A path that the pod would use and that is not accepted.
abbrev pub bad_dir : NixSpec → Option Message
bad_dir nix = if nix.source.dir == "" then none else elim (validate_file_path nix.source.dir) [
  | ok _ ↦ none
  | err e ↦ some (wrapped "source.dir: %v" [] (message_of e))
]

abbrev pub bad_path : NixSpec → Option Message
bad_path nix = elim (bad_dir nix) [
  | some m ↦ some m
  | none ↦ elim (validate_additional_files nix.additional_files) [
    | ok _ ↦ none
    | err e ↦ some (message_of e)
  ]
]

abbrev ignore_not_found : Result (Unit {0}) → Result (Unit {0})
ignore_not_found (ok _) = ok tt
ignore_not_found (err e) = if is_not_found e then ok tt else err e

module _ {A : Type 0} (r : WorkloadReconciler A) where
  abbrev pub drop_stale : Result ConfigMap → WorkStep A (Unit {0})
  drop_stale (err e) = if is_not_found e then pure tt else fail e
  drop_stale (ok existing) = do
    answer ← attempt (drop_config_map r existing)
    lift (ignore_not_found answer)

  abbrev pub get_config_map : String → String → WorkStep A ConfigMap
  get_config_map namespace name s = (r.services.get_config_map s.history namespace name, s)

  -- Create or update the map of the inline contents, or remove it where there are none.
  abbrev pub put_contents : A → List (String × String) → WorkStep A (Unit {0})
  put_contents owner [] = do
    answer ← attempt (
        get_config_map (r.kind.namespace owner)
          (additional_files_config_map_name (r.kind.name owner)))
    drop_stale answer
  put_contents owner (c ∷ cs) = do
    map ← lift (
        r.services.own_config_map owner (record {
          name = additional_files_config_map_name (r.kind.name owner);
          namespace = r.kind.namespace owner;
          owner = none;
          contents = c ∷ cs;
        }))
    store_config_map r map

  unfoldable pub ensure_additional_files_config_map : A → NixSpec → WorkStep A (Unit {0})
  ensure_additional_files_config_map owner nix =
      put_contents owner (inline_contents 0 nix.additional_files)

  -- Created: an object that is already there is as good.
  abbrev pub created : Result (Unit {0}) → WorkStep A (Unit {0})
  created (ok _) = pure tt
  created (err e) = if is_already_exists e then pure tt else fail e

  abbrev pub own_builder : String → A → NixSpec → NixBuilderSpec → WorkStep A String
  own_builder name owner nix template = do
    builder ← lift (
        r.services.own_builder owner (
          new_nix_builder name (r.kind.namespace owner) (elim template.store_ref [
            | none ↦ record template { store_ref = nix.store_ref }
            | some ref ↦ template
          ])))
    answer ← attempt (new_builder r builder)
    created answer
    pure name

  abbrev pub get_builder : String → String → WorkStep A NixBuilder
  get_builder namespace name s = (r.services.get_builder s.history namespace name, s)

  abbrev pub get_store : String → String → WorkStep A NixStore
  get_store namespace name s = (r.services.get_store s.history namespace name, s)

  abbrev pub builder_answer :
      String → A → NixSpec → NixBuilderSpec → Result NixBuilder → WorkStep A String
  builder_answer name owner nix template (ok existing) = pure name
  builder_answer name owner nix template (err e) =
      if is_not_found e then own_builder name owner nix template else fail e

  unfoldable pub ensure_owned_builder : A → NixSpec → NixBuilderSpec → WorkStep A String
  ensure_owned_builder owner nix template = do
    let name = r.kind.name owner ++ "-builder"
    answer ← attempt (get_builder (r.kind.namespace owner) name)
    builder_answer name owner nix template answer

  -- The store of the workload.
  abbrev pub store_answer : A → String → InfraDeps → Result NixStore → WorkStep A InfraDeps
  store_answer owner name deps (err e) =
      if is_not_found e
      then pure (not_ready_deps (sprintf "NixStore %q not found" (str name ∷ [])) deps)
      else fail e
  store_answer owner name deps (ok store) =
      if not (store.phase == phase_ready) || store.substituter_url == ""
      then pure (not_ready_deps (sprintf "NixStore %q not ready" (str name ∷ [])) deps)
      else pure (record deps {
        store = some (record {
          substituter_url = store.substituter_url;
          public_key = store.public_key;
          push_url = "ssh-ng://root@" ++ store.name ++ "." ++ r.kind.namespace owner ++ ".svc";
        });
      })

  abbrev pub store_named : A → InfraDeps → Option String → WorkStep A InfraDeps
  store_named owner deps none = pure deps
  store_named owner deps (some name) = do
    answer ← attempt (get_store (r.kind.namespace owner) name)
    store_answer owner name deps answer

  unfoldable pub with_store : A → NixSpec → InfraDeps → WorkStep A InfraDeps
  with_store owner nix deps = store_named owner deps nix.store_ref

  -- The name of the builder, by reference or by template; none is the empty one.
  abbrev pub builder_by :
      A → NixSpec → Option String → Option NixBuilderSpec → WorkStep A (Option String)
  builder_by owner nix (some name) template = pure (some name)
  builder_by owner nix none none = pure none
  builder_by owner nix none (some template) = do
    name ← ensure_owned_builder owner nix template
    pure (some name)

  unfoldable pub builder_name : A → NixSpec → WorkStep A (Option String)
  builder_name owner nix = builder_by owner nix nix.builder_ref nix.builder_template

  -- The store whose key dispatches builds: the builder's, or else the workload's.
  abbrev pub ssh_store : NixBuilder → NixSpec → Option String
  ssh_store builder nix = elim builder.spec.store_ref [ some ref ↦ some ref | none ↦ nix.store_ref ]

  abbrev pub with_ssh : NixBuilder → InfraDeps → Option String → InfraDeps
  with_ssh builder deps none = record deps {
    builder = some (record {
      endpoint = builder.builder_endpoint;
      systems = builder.spec.systems;
      ssh_key_path = "";
    });
  }
  with_ssh builder deps (some store) = record deps {
    builder = some (record {
      endpoint = builder.builder_endpoint;
      systems = builder.spec.systems;
      ssh_key_path = ssh_private_key_path;
    });
    ssh_secret_name = ssh_secret_name store;
  }

  abbrev pub infra_builder_answer :
      NixSpec → String → InfraDeps → Result NixBuilder → WorkStep A InfraDeps
  infra_builder_answer nix name deps (err e) =
      if is_not_found e
      then pure (not_ready_deps (sprintf "NixBuilder %q not found" (str name ∷ [])) deps)
      else fail e
  infra_builder_answer nix name deps (ok builder) =
      if not builder.ready || builder.builder_endpoint == ""
      then pure (not_ready_deps (sprintf "NixBuilder %q not ready" (str name ∷ [])) deps)
      else pure (with_ssh builder deps (ssh_store builder nix))

  abbrev pub builder_named : A → NixSpec → InfraDeps → Option String → WorkStep A InfraDeps
  builder_named owner nix deps none = pure deps
  builder_named owner nix deps (some name) = if name == "" then pure deps else (do
    answer ← attempt (get_builder (r.kind.namespace owner) name)
    infra_builder_answer nix name deps answer)

  -- The builder, unless the store already stalls the workload.
  abbrev pub builder_unless : A → NixSpec → InfraDeps → Option Message → WorkStep A InfraDeps
  builder_unless owner nix deps (some m) = pure deps
  builder_unless owner nix deps none = do
    name ← builder_name owner nix
    builder_named owner nix deps name

  unfoldable pub with_builder : A → NixSpec → InfraDeps → WorkStep A InfraDeps
  with_builder owner nix deps = builder_unless owner nix deps deps.not_ready

  -- What follows the check of the paths.
  abbrev pub infra_unless : A → NixSpec → Option Message → WorkStep A InfraDeps
  infra_unless owner nix (some m) = pure (not_ready_deps m no_deps)
  infra_unless owner nix none = do
    ensure_additional_files_config_map owner nix
    deps ← with_store owner nix no_deps
    with_builder owner nix deps

  unfoldable pub resolve_infra : A → NixSpec → WorkStep A InfraDeps
  resolve_infra owner nix = infra_unless owner nix (bad_path nix)
