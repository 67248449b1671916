-- ===== src/Infra/Proofs/WorkerMounts.antt =====
-- About the StatefulSet of a builder: what its containers mount, and whom its Service serves.
use nio.Prelude.{
  String, true, false, List, [], ◌∷◌, Option, none, some, is_some, ◌≡◌, refl, ◌⊎◌, inl, inr, All,
  ap, ◌∙◌,
}
use nio.Api.Core.{Volume, VolumeMount, Service, empty_dir}
use nio.Api.Builder.{NixBuilder}
use nio.Api.Rollout.{StatefulSet}
use nio.Render.Proofs.Pod.{volume_named, named-upsert_volume}
use nio.Workload.Infra.{ssh_secret_name}
use nio.Infra.Pods.{secret_volume, mount_at, pod_of}
use nio.Infra.Scripts.{builder_start_script}
use nio.Infra.Proofs.Mounts.{
  has_claim, HasSource, Runs, Serves, nix_mount, key_mount, named-upsert_volume_same,
  upsert_container-Runs,
}
use nio.Infra.Worker

-- The key of the store that the worker accepts builds of, where there is one.
abbrev pub HasKeyOf : StatefulSet → Option String → Type 0
HasKeyOf sts none = Unit {0}
HasKeyOf sts (some ref) =
    volume_named sts.spec.template.volumes "nio-ssh"
    ≡ some (secret_volume "nio-ssh" (ssh_secret_name ref))

with_scratch-Has :
    (storage : Option String) (volumes : List Volume)
    → (is_some (volume_named (Worker.with_scratch storage volumes) "nix-store") ≡ true)
      ⊎ (has_claim (Worker.claims_of storage) "nix-store" ≡ true)
with_scratch-Has none volumes = inl (
    ap is_some (
      named-upsert_volume_same volumes
        (record { name = "nix-store"; source = empty_dir false none })))
with_scratch-Has (some claim) volumes = inr refl

named-with_scratch :
    (storage : Option String) (volumes : List Volume)
    → volume_named (Worker.with_scratch storage volumes) "nio-ssh" ≡ volume_named volumes "nio-ssh"
named-with_scratch none volumes =
    named-upsert_volume volumes (record { name = "nix-store"; source = empty_dir false none })
      "nio-ssh" refl
named-with_scratch (some claim) volumes = refl

-- Where the key of the store is mounted.
abbrev pub key_mounts : Option String → List VolumeMount
key_mounts none = []
key_mounts (some ref) = key_mount "nio-ssh" "/etc/nio/ssh" ∷ []

worker_mounts_lem :
    (ref : Option String) → Worker.worker_mounts ref ≡ nix_mount "/nix" ∷ key_mounts ref
worker_mounts_lem none = refl
worker_mounts_lem (some ref) = refl

worker_mounts-Have :
    (sts : StatefulSet) (ref : Option String)
    → HasSource sts (mount_at "nix-store" "/nix")
    → HasKeyOf sts ref
    → All (HasSource sts) (Worker.worker_mounts ref)
worker_mounts-Have sts none nix key = (nix, tt)
worker_mounts-Have sts (some ref) nix key = (nix, (inl (ap is_some key), tt))

module _ (builder : NixBuilder) where
  -- The pods of the builder run the worker, with the key, and its Service finds them.
  abbrev pub IsWorker : Service → Type 0
  IsWorker svc =
      Runs (Worker.desired_stateful_set builder) "builder"
        ("sh" ∷ "-c" ∷ builder_start_script (is_some builder.spec.store_ref) ∷ [])
        (key_mounts builder.spec.store_ref)
      × HasKeyOf (Worker.desired_stateful_set builder) builder.spec.store_ref
      × Serves (Worker.desired_stateful_set builder) (Worker.served builder svc)

  keyed :
      (ref : Option String) (volumes : List Volume) (sts : StatefulSet)
      → sts.spec.template.volumes
        ≡ Worker.with_scratch builder.spec.storage (Worker.with_key_volume ref volumes)
      → HasKeyOf sts ref
  keyed none volumes sts e = tt
  keyed (some ref) volumes sts e =
      ap (λ vs. volume_named vs "nio-ssh") e
      ∙ named-with_scratch builder.spec.storage _
      ∙ named-upsert_volume_same volumes (secret_volume "nio-ssh" (ssh_secret_name ref))

  worker-HasKeyOf : HasKeyOf (Worker.desired_stateful_set builder) builder.spec.store_ref
  unfolding Worker.desired_stateful_set
  worker-HasKeyOf =
      keyed builder.spec.store_ref (pod_of builder.spec.template).volumes
        (Worker.desired_stateful_set builder) refl

  worker-HasStore :
      (path : String) → HasSource (Worker.desired_stateful_set builder) (mount_at "nix-store" path)
  unfolding Worker.desired_stateful_set
  worker-HasStore path = with_scratch-Has builder.spec.storage _

  worker-Runs :
      Runs
        (Worker.desired_stateful_set builder)
        "builder"
        ("sh" ∷ "-c" ∷ builder_start_script (is_some builder.spec.store_ref) ∷ [])
        (key_mounts builder.spec.store_ref)
  unfolding Worker.desired_stateful_set
  worker-Runs =
      upsert_container-Runs (Worker.desired_stateful_set builder)
        (pod_of builder.spec.template).containers _ (Worker.worker _ builder) _ _ refl refl refl
        refl refl (worker_mounts_lem builder.spec.store_ref)
        (worker_mounts-Have (Worker.desired_stateful_set builder) builder.spec.store_ref
          (worker-HasStore "/nix") worker-HasKeyOf)
        (worker-HasStore "/nix-vol", tt)

  pub desired-IsWorker : (svc : Service) → IsWorker svc
  unfolding Worker.served Worker.desired_stateful_set
  desired-IsWorker svc = (worker-Runs, worker-HasKeyOf, (refl, refl))
