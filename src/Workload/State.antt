-- ===== src/Workload/State.antt =====
-- The working copy of a workload controller, and its calls. The kind of the workload is an
-- argument. What the API server, Git and the clock answer is a record of functions of the calls
-- made so far.
use nio.Prelude.{ℕ, String, Bool, List, ◌∷◌, Option, none, some, ◌≡◌}
use nio.Kube.{Error, Result, ok, err}
use nio.Kube.Conditions.{Meta}
use nio.Kube.Actions.{Action}
use nio.GitAuth.{GitCreds}
use nio.Api.Core.{Labels, Secret}
use nio.Api.Workload.{NixSpec, NixWorkloadStatus}
use nio.Api.Batch.{BatchJob, BatchCronJob}
use nio.Api.Builder.{NixBuilder, NixStore, ConfigMap, Pod}
use nio.Api.Rollout.{Deployment, StatefulSet}

-- The artifact of a Flux source: `status.artifact.revision` and `.url`, where they are texts.
pub record FluxSource : Type 0 where
  pub revision : Option String
  pub url : Option String

-- The calls that write.
pub data Call (A : Type 0) : Type 0 where
  update_object update_object_status : A → Call A
  create_builder : NixBuilder → Call A
  put_config_map delete_config_map : ConfigMap → Call A
  create_job delete_job : BatchJob → Call A
  create_cron_job update_cron_job : BatchCronJob → Call A
  create_deployment update_deployment : Deployment → Call A
  create_stateful_set update_stateful_set : StatefulSet → Call A

pub record Event (A : Type 0) : Type 0 where
  pub call : Call A
  pub failure : Option Error

-- The latest call first.
abbrev pub History : Type 0 → Type 0
History A = List (Event A)

-- What the controllers read and write of an object of the kind.
pub record Kind (A : Type 0) : Type 0 where
  pub name : A → String
  pub namespace : A → String
  pub generation : A → ℕ
  pub is_deleting : A → Bool
  pub finalizers : A → List String
  pub set_finalizers : List String → A → A
  pub nix : A → NixSpec
  pub workload : A → NixWorkloadStatus
  pub set_workload : NixWorkloadStatus → A → A
  -- The status is apart from the metadata and the spec.
  pub namespace-set_workload :
      (st : NixWorkloadStatus) (object : A) → namespace (set_workload st object) ≡ namespace object
  pub nix-set_workload :
      (st : NixWorkloadStatus) (object : A) → nix (set_workload st object) ≡ nix object

pub record Services (A : Type 0) : Type 0 where
  -- Get, by namespace and name
  pub get_object : History A → String → String → Result A
  pub get_secret : History A → String → String → Result Secret
  pub get_store : History A → String → String → Result NixStore
  pub get_builder : History A → String → String → Result NixBuilder
  pub get_config_map : History A → String → String → Result ConfigMap
  pub get_job : History A → String → String → Result BatchJob
  pub get_cron_job : History A → String → String → Result BatchCronJob
  pub get_deployment : History A → String → String → Result Deployment
  pub get_stateful_set : History A → String → String → Result StatefulSet
  -- a Flux source, by its API version, kind, namespace and name
  pub get_flux_source : History A → String → String → String → String → Result FluxSource
  -- List, by namespace and labels; by namespace
  pub list_jobs : History A → String → Labels → Result (List BatchJob)
  pub list_all_jobs : History A → String → Result (List BatchJob)
  pub list_pods : History A → String → Labels → Result (List Pod)
  -- writes
  pub update_object : History A → A → Result A
  pub update_object_status : History A → A → Result A
  pub create_builder : History A → NixBuilder → Option Error
  pub delete_config_map : History A → ConfigMap → Option Error
  pub create_job : History A → BatchJob → Option Error
  pub delete_job : History A → BatchJob → Option Error
  pub create_cron_job : History A → BatchCronJob → Option Error
  pub update_cron_job : History A → BatchCronJob → Option Error
  pub create_deployment : History A → Deployment → Option Error
  pub update_deployment : History A → Deployment → Option Error
  pub create_stateful_set : History A → StatefulSet → Option Error
  pub update_stateful_set : History A → StatefulSet → Option Error
  -- controllerutil.CreateOrUpdate of a ConfigMap
  pub put_config_map : History A → ConfigMap → Option Error
  -- controllerutil.SetControllerReference
  pub own_builder : A → NixBuilder → Result NixBuilder
  pub own_config_map : A → ConfigMap → Result ConfigMap
  pub own_job : A → BatchJob → Result BatchJob
  pub own_cron_job : A → BatchCronJob → Result BatchCronJob
  pub own_deployment : A → Deployment → Result Deployment
  pub own_stateful_set : A → StatefulSet → Result StatefulSet
  -- controllerutil.ContainsFinalizer, AddFinalizer, RemoveFinalizer
  pub contains_finalizer : List String → String → Bool
  pub add_finalizer : List String → String → List String
  pub remove_finalizer : List String → String → List String
  -- GitResolver.LsRemote: the repository, the ref, the credentials
  pub ls_remote : History A → String → String → Option GitCreds → Result String
  -- metav1.Now(), in seconds
  pub now : History A → ℕ
  -- SHA-256 of a text, in hexadecimal
  pub sha256_hex : String → String

pub record WorkloadReconciler (A : Type 0) : Type 0 where
  pub services : Services A
  pub meta : Meta
  pub kind : Kind A

pub record WorkSt (A : Type 0) : Type 0 where
  pub object : A
  pub history : History A

abbrev pub WorkStep : Type 0 → Type 0 → Type 0
WorkStep A B = Action (WorkSt A) B

module _ {A : Type 0} where
  abbrev pub logged : Call A → Option Error → WorkSt A → WorkSt A
  logged c e s = record s { history = record { call = c; failure = e } ∷ s.history }

  -- A call that returns only an error.
  abbrev pub answered : Call A → Option Error → WorkStep A (Unit {0})
  answered c none s = (ok tt, logged c none s)
  answered c (some e) s = (err e, logged c (some e) s)

  -- A write of the working copy, which the stored object replaces.
  abbrev pub replaced : Call A → Result A → WorkStep A (Unit {0})
  replaced c (ok stored) s = (ok tt, record (logged c none s) { object = stored })
  replaced c (err e) s = (err e, logged c (some e) s)

  module _ (r : WorkloadReconciler A) where
    abbrev pub write_object : WorkStep A (Unit {0})
    write_object s =
        replaced (update_object s.object) (r.services.update_object s.history s.object) s

    abbrev pub write_status : WorkStep A (Unit {0})
    write_status s =
        replaced (update_object_status s.object)
          (r.services.update_object_status s.history s.object) s

    abbrev pub new_builder : NixBuilder → WorkStep A (Unit {0})
    new_builder b s = answered (create_builder b) (r.services.create_builder s.history b) s

    abbrev pub store_config_map : ConfigMap → WorkStep A (Unit {0})
    store_config_map m s = answered (put_config_map m) (r.services.put_config_map s.history m) s

    abbrev pub drop_config_map : ConfigMap → WorkStep A (Unit {0})
    drop_config_map m s =
        answered (delete_config_map m) (r.services.delete_config_map s.history m) s

    abbrev pub new_job : BatchJob → WorkStep A (Unit {0})
    new_job j s = answered (create_job j) (r.services.create_job s.history j) s

    abbrev pub drop_job : BatchJob → WorkStep A (Unit {0})
    drop_job j s = answered (delete_job j) (r.services.delete_job s.history j) s

    abbrev pub new_cron_job : BatchCronJob → WorkStep A (Unit {0})
    new_cron_job c s = answered (create_cron_job c) (r.services.create_cron_job s.history c) s

    abbrev pub write_cron_job : BatchCronJob → WorkStep A (Unit {0})
    write_cron_job c s = answered (update_cron_job c) (r.services.update_cron_job s.history c) s

    abbrev pub new_deployment : Deployment → WorkStep A (Unit {0})
    new_deployment d s = answered (create_deployment d) (r.services.create_deployment s.history d) s

    abbrev pub write_deployment : Deployment → WorkStep A (Unit {0})
    write_deployment d s =
        answered (update_deployment d) (r.services.update_deployment s.history d) s

    abbrev pub new_stateful_set : StatefulSet → WorkStep A (Unit {0})
    new_stateful_set d s =
        answered (create_stateful_set d) (r.services.create_stateful_set s.history d) s

    abbrev pub write_stateful_set : StatefulSet → WorkStep A (Unit {0})
    write_stateful_set d s =
        answered (update_stateful_set d) (r.services.update_stateful_set s.history d) s

    -- A change of the shared status, given the generation.
    abbrev pub change_status : (ℕ → NixWorkloadStatus → NixWorkloadStatus) → A → A
    change_status f object =
        r.kind.set_workload (f (r.kind.generation object) (r.kind.workload object)) object
