-- ===== src/Cluster/State.antt =====
-- The reconciler of NixClusters: its working copy of the cluster, and its calls. What the API
-- server and the libraries answer are functions of the calls made so far.
use nio.Prelude.{String, Bool, List, ◌∷◌, Option, none, some}
use nio.Kube.{Error, Result, ok, err}
use nio.Kube.Conditions.{Meta}
use nio.Kube.Times.{Times}
use nio.Kube.Actions.{Action}
use nio.Api.Core.{Labels}
use nio.Api.Workload.{NixCronJob}
use nio.Api.Machine.{Machine}
use nio.Api.Builder.{NixBuilder}
use nio.Api.Cluster.{LabelSelector, NixCluster}

pub data ClusterCall : Type 0 where
  update_cluster update_cluster_status : NixCluster → ClusterCall
  -- controllerutil.CreateOrUpdate, with the object whose labels and spec its function copies
  create_or_update_cron : NixCronJob → ClusterCall
  update_cron : NixCronJob → ClusterCall
  -- by namespace and name
  delete_cron : String → String → ClusterCall

pub record ClusterEvent : Type 0 where
  pub call : ClusterCall
  pub failure : Option Error

-- The calls of one reconcile, the latest first.
abbrev pub ClusterHistory : Type 0
ClusterHistory = List ClusterEvent

pub record ClusterClient : Type 0 where
  pub get_cluster : ClusterHistory → String → String → Result NixCluster
  pub list_machines : ClusterHistory → String → Result (List Machine)
  pub get_builder : ClusterHistory → String → String → Result NixBuilder
  pub get_cron : ClusterHistory → String → String → Result NixCronJob
  pub update_cluster : ClusterHistory → NixCluster → Result NixCluster
  pub update_cluster_status : ClusterHistory → NixCluster → Result NixCluster
  -- by namespace and name, with the function that changes the found (or a new) object
  pub create_or_update_cron :
      ClusterHistory → String → String → (NixCronJob → Result NixCronJob) → Option Error
  pub update_cron : ClusterHistory → NixCronJob → Option Error
  pub delete_cron : ClusterHistory → String → String → Option Error
  -- controllerutil.SetControllerReference
  pub set_controller : NixCluster → NixCronJob → Result NixCronJob
  -- controllerutil.ContainsFinalizer, AddFinalizer, RemoveFinalizer
  pub contains_finalizer : List String → String → Bool
  pub add_finalizer : List String → String → List String
  pub remove_finalizer : List String → String → List String
  -- metav1.LabelSelectorAsSelector, with `Matches` of what it returns
  pub as_selector : LabelSelector → Result (Labels → Bool)

pub record ClusterSt : Type 0 where
  pub cluster : NixCluster
  pub history : ClusterHistory

abbrev pub ClusterStep : Type 0 → Type 0
ClusterStep A = Action ClusterSt A

-- NixClusterReconciler, with the library calls that it makes.
pub record NixClusterReconciler : Type 0 where
  pub client : ClusterClient
  pub open client use *
  pub meta : Meta
  pub open meta use *
  pub times : Times

abbrev pub cluster_logged : ClusterCall → Option Error → ClusterSt → ClusterSt
cluster_logged c e s = record s { history = record { call = c; failure = e } ∷ s.history }

-- A call that returns only an error.
abbrev pub cluster_answered : ClusterCall → Option Error → ClusterStep (Unit {0})
cluster_answered c none s = (ok tt, cluster_logged c none s)
cluster_answered c (some e) s = (err e, cluster_logged c (some e) s)

-- A write of the working copy, which the stored object replaces.
abbrev pub cluster_replaced : ClusterCall → Result NixCluster → ClusterStep (Unit {0})
cluster_replaced c (ok stored) s = (ok tt, record (cluster_logged c none s) { cluster = stored })
cluster_replaced c (err e) s = (err e, cluster_logged c (some e) s)

module _ (r : NixClusterReconciler) where
  abbrev pub write_cluster : ClusterStep (Unit {0})
  write_cluster s =
      cluster_replaced (update_cluster s.cluster) (r.client.update_cluster s.history s.cluster) s

  abbrev pub write_cluster_status : ClusterStep (Unit {0})
  write_cluster_status s =
      cluster_replaced (update_cluster_status s.cluster)
        (r.client.update_cluster_status s.history s.cluster) s

  abbrev pub list_machines : String → ClusterStep (List Machine)
  list_machines ns s = (r.client.list_machines s.history ns, s)

  abbrev pub get_builder : String → String → ClusterStep NixBuilder
  get_builder ns name s = (r.client.get_builder s.history ns name, s)

  abbrev pub get_cron : String → String → ClusterStep NixCronJob
  get_cron ns name s = (r.client.get_cron s.history ns name, s)

  abbrev pub write_cron : NixCronJob → ClusterStep (Unit {0})
  write_cron cron s = cluster_answered (update_cron cron) (r.client.update_cron s.history cron) s

  abbrev pub remove_cron : String → String → ClusterStep (Unit {0})
  remove_cron ns name s =
      cluster_answered (delete_cron ns name) (r.client.delete_cron s.history ns name) s

  -- The object to create or update, and the function that changes it.
  abbrev pub put_cron : NixCronJob → (NixCronJob → Result NixCronJob) → ClusterStep (Unit {0})
  put_cron desired change s =
      cluster_answered (create_or_update_cron desired)
        (r.client.create_or_update_cron s.history desired.namespace desired.name change) s
