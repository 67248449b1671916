-- ===== src/Samples/Backends.antt =====
-- A store and a builder of which nothing is there yet, and whose StatefulSets are ready.
use nio.Prelude.{[], ◌∷◌, none, some, refl}
use nio.Kube.{Error, not_found, text, Result, ok, err}
use nio.Kube.Conditions.{slice_meta}
use nio.Kube.Ensures.{Holds}
use nio.Api.Core.{Service}
use nio.Api.Workload.{NixJob}
use nio.Api.Builder.{NixStore, NixBuilder, new_nix_builder}
use nio.Api.Rollout.{StatefulSet}
use nio.Workload.State.{WorkloadReconciler}
use nio.Workload.Infra.{no_deps}
use nio.Infra.State.{Services, InfraReconciler, InfraSt}
use nio.Infra.Keys.{signing_key_secret_name, ensure_signing_key}
use nio.Infra.Server
use nio.Infra.Store
use nio.Infra.Builder
use nio.Infra.Proofs.Writes.{SafeWrites}
use nio.Infra.Proofs.SafeWrites.{reconcile-SafeWrites}
use nio.Infra.Store.{observed}
use nio.Infra.Proofs.Reports.{Reports, steps, reconcile_found-Reports}
use nio.Infra.Proofs.Keys.{IsHeld, ensure_signing_key-IsHeld}
use nio.Infra.Proofs.Endpoints.{IsUsed, IsUsedBuilder, published-AreUsed}
use nio.Infra.Proofs.Mounts.{IsServer}
use nio.Infra.Proofs.WorkerMounts.{IsWorker}
use nio.Infra.Proofs.CanStart.{desired_stateful_set-CanStart}
use nio.Samples.Operator.{cache, hello, operator, start}

abbrev absent : Error
absent = not_found (text "not found")

abbrev store : NixStore
store = cache ""

abbrev big : NixBuilder
big = new_nix_builder "big" "default" (record {
  store_ref = some "cache";
  image = "";
  systems = "x86_64-linux" ∷ [];
  max_jobs = some 4;
  storage = none;
  template = none;
})

abbrev served : Service
served = record {
  name = "cache";
  namespace = "default";
  labels = ("team", "infra") ∷ [];
  owner_uids = [];
  cluster_ip = "";
  selector = [];
  ports = [];
}

-- The StatefulSet of the store, with a count of ready replicas.
abbrev running : StatefulSet
running = record (Server.desired_stateful_set store) { ready_replicas = 1 }

abbrev services : {A : Type 0} → A → Result StatefulSet → Services A
services object sts = record {
  get_object = λ h namespace name. ok object;
  get_secret = λ h namespace name. err absent;
  get_stateful_set = λ h namespace name. sts;
  service_to_mutate = λ h namespace name. ok served;
  put_service = λ h svc. none;
  update_object_status = λ h o. ok o;
  create_secret = λ h secret. none;
  create_stateful_set = λ h sts. none;
  update_stateful_set = λ h sts. none;
  own_secret = λ o secret. ok (record secret { owner_uids = "uid" ∷ [] });
  own_service = λ o svc. ok (record svc { owner_uids = "uid" ∷ [] });
  own_stateful_set = λ o sts. ok (record sts { owner_uids = "uid" ∷ [] });
  generate_key = λ h. ok ("PUBLIC", "PRIVATE");
  base64 = λ key. key;
  marshal_private_key = λ key comment. ok key;
  new_public_key = λ key. ok key;
  pem_encode = λ key. key;
  marshal_authorized_key = λ key. key;
}

abbrev keeper : {A : Type 0} → A → Result StatefulSet → InfraReconciler A
keeper object sts = record { services = services object sts; meta = slice_meta }

abbrev server : WorkloadReconciler NixJob
server = operator "Ready" []

abbrev first : InfraSt NixStore
first = record { object = store; history = [] }

reconcile-SafeWrites_example :
    SafeWrites
      (keeper store (err absent))
      (Store.reconcile (keeper store (err absent)) "default" "cache").1
    × SafeWrites
        (keeper big (err absent))
        (Builder.reconcile (keeper big (err absent)) "default" "cache").1
reconcile-SafeWrites_example =
    reconcile-SafeWrites (keeper store (err absent)) (keeper big (err absent)) "default" "cache"

reconcile_found-Reports_example :
    Reports
      (keeper store (ok running))
      (steps
        (keeper store (ok running))
        (observed store)
        (record first { object = observed store }))
      (Store.reconcile_found (keeper store (ok running)) first).0
      (Store.reconcile_found (keeper store (ok running)) first).1.history
reconcile_found-Reports_example = reconcile_found-Reports (keeper store (ok running)) first

ensure_signing_key-IsHeld_example :
    Holds
      (IsHeld (keeper store (ok running)) store (signing_key_secret_name store))
      (ensure_signing_key (keeper store (ok running)) store first).0
ensure_signing_key-IsHeld_example =
    ensure_signing_key-IsHeld (keeper store (ok running)) store first

published-AreUsed_example :
    IsUsed server
      (keeper store (ok running))
      hello
      "cache"
      no_deps
      running
      "cache-1:AAAA"
      store
      start
    × IsUsedBuilder server (keeper big (ok running)) hello.spec.nix "big" no_deps running big start
published-AreUsed_example =
    published-AreUsed server (keeper store (ok running)) (keeper big (ok running)) hello
      hello.spec.nix "cache" "big" no_deps running "cache-1:AAAA" store big start refl

desired_stateful_set-CanStart_example : IsServer store served × IsWorker big served
desired_stateful_set-CanStart_example = desired_stateful_set-CanStart store big served
