-- ===== src/Infra/Proofs/Mounts.antt =====
-- About the StatefulSet of a store: what its containers mount, and whom its Service serves.
use nio.Prelude.{
  String, Bool, true, false, ◌||◌, List, [], ◌∷◌, Option, none, some, is_some, ◌≡◌, refl, arith,
  ◌==◌, eq_iff, ◌⊎◌, inl, inr, Bool-cases, All, eq_refl, ap, sym, subst, ◌∙◌, if◌then◌else◌,
}
use nio.Api.Core.{Volume, VolumeMount, Container, Service, VolumeClaimTemplate}
use nio.Api.Builder.{NixStore}
use nio.Api.Rollout.{StatefulSet}
use nio.Render.Mounts.{upsert_volume}
use nio.Render.Proofs.Pod.{volume_named, named-upsert_volume}
use nio.Workload.Infra.{ssh_secret_name}
use nio.Infra.Keys.{signing_key_secret_name}
use nio.Infra.Pods.{merged, upsert_container, secret_volume, pod_of}
use nio.Infra.Scripts.{store_start_script}
use nio.Infra.Server

-- The first container of a name.
unfoldable pub container_named : List Container → String → Option Container
container_named [] name = none
container_named (c ∷ cs) name = if c.name == name then some c else container_named cs name

abbrev pub has_claim : List VolumeClaimTemplate → String → Bool
has_claim [] name = false
has_claim (c ∷ cs) name = c.name == name || has_claim cs name

-- The pods have a volume of the name, of their own or claimed.
abbrev pub HasSource : StatefulSet → VolumeMount → Type 0
HasSource sts m =
    (is_some (volume_named sts.spec.template.volumes m.name) ≡ true)
    ⊎ (has_claim sts.spec.volume_claim_templates m.name ≡ true)

-- The volume of /nix, mounted at a path, and a mount that cannot be written to.
abbrev pub nix_mount : String → VolumeMount
nix_mount path = record { name = "nix-store"; mount_path = path; read_only = false }

abbrev pub key_mount : String → String → VolumeMount
key_mount name path = record { name = name; mount_path = path; read_only = true }

-- What the init container of the operator runs: it copies the image's /nix into the volume, once.
abbrev pub seed_command : List String
seed_command = "sh" ∷ "-c" ∷ "[ -e /nix-vol/store ] || cp --archive /nix/. /nix-vol/" ∷ []

-- The container of a name, with its command and its mounts, and before it the first init container,
-- which seeds the volume that is mounted at /nix: what they mount is there.
abbrev pub Runs : StatefulSet → String → List String → List VolumeMount → Type 0
Runs sts name command mounts =
    (c : Container) × (first : Container) × (others : List Container) × (container_named
        sts.spec.template.containers name
      ≡ some c)
    × (c.command ≡ command)
    × (c.volume_mounts ≡ nix_mount "/nix" ∷ mounts)
    × All (HasSource sts) c.volume_mounts
    × (sts.spec.template.init_containers ≡ first ∷ others)
    × (first.name ≡ "bootstrap")
    × (first.command ≡ seed_command)
    × (first.volume_mounts ≡ nix_mount "/nix-vol" ∷ [])
    × All (HasSource sts) first.volume_mounts

-- The Service and the selector find the pods.
abbrev pub Serves : StatefulSet → Service → Type 0
Serves sts svc =
    (svc.selector ≡ sts.spec.template.labels)
    × (sts.spec.selector
        ≡ some (record { match_labels = sts.spec.template.labels; match_expressions = [] }))

pub named-upsert_volume_same :
    (volumes : List Volume) (v : Volume) → volume_named (upsert_volume volumes v) v.name ≡ some v
unfolding volume_named upsert_volume
named-upsert_volume_same [] v = rw (eq_refl v.name) refl
named-upsert_volume_same (x ∷ xs) v =
    ground (arith, eq_iff x.name v.name, eq_iff v.name v.name, named-upsert_volume_same xs v)

-- The container with what the operator owns of it.
abbrev IsMerged : Container → Option Container → Type 0
IsMerged c found =
    (x : Container) × (found ≡ some x)
    × (x.command ≡ c.command)
    × (x.volume_mounts ≡ c.volume_mounts)

container_named-upsert_container :
    (containers : List Container) (c : Container)
    → IsMerged c (container_named (upsert_container containers c) c.name)
unfolding container_named upsert_container
container_named-upsert_container [] c = rw (eq_refl c.name) (c, refl, refl, refl)
container_named-upsert_container (x ∷ xs) c = elim (Bool-cases (x.name == c.name)) [
  | inl e ↦ rw (e, e) (merged x c, refl, refl, refl)
  | inr e ↦ rw (e, e) (container_named-upsert_container xs c)
]

-- From a container that is set in a list.
pub upsert_container-Runs :
    (sts : StatefulSet) (containers others : List Container) (c first : Container)
    (mounts : List VolumeMount)
    → sts.spec.template.containers ≡ upsert_container containers c
    → sts.spec.template.init_containers ≡ first ∷ others
    → first.name ≡ "bootstrap"
    → first.command ≡ seed_command
    → first.volume_mounts ≡ nix_mount "/nix-vol" ∷ []
    → c.volume_mounts ≡ nix_mount "/nix" ∷ mounts
    → All (HasSource sts) c.volume_mounts
    → All (HasSource sts) first.volume_mounts
    → Runs sts c.name c.command mounts
upsert_container-Runs sts containers others c first mounts set init name seeding seeded own sources
      seeds =
    let (x, found, command, same) = container_named-upsert_container containers c in
    (
      x,
      first,
      others,
      ap (λ cs. container_named cs c.name) set ∙ found,
      command,
      same ∙ own,
      subst (All (HasSource sts)) (sym same) sources,
      init,
      name,
      seeding,
      seeded,
      seeds,
    )

module _ (store : NixStore) where
  -- The pods of the store run the server, with its keys, and its Service finds them.
  abbrev pub IsServer : Service → Type 0
  IsServer svc =
      Runs (Server.desired_stateful_set store) "store" ("sh" ∷ "-c" ∷ store_start_script ∷ [])
        (key_mount "signing-key" "/etc/nix/signing" ∷ key_mount "nio-ssh" "/etc/nio/ssh" ∷ [])
      × (volume_named (Server.desired_stateful_set store).spec.template.volumes "signing-key"
          ≡ some (secret_volume "signing-key" (signing_key_secret_name store)))
      × (volume_named (Server.desired_stateful_set store).spec.template.volumes "nio-ssh"
          ≡ some (secret_volume "nio-ssh" (ssh_secret_name store.name)))
      × Serves (Server.desired_stateful_set store) (Server.served store svc)

  signing_volume :
      volume_named (Server.desired_stateful_set store).spec.template.volumes "signing-key"
      ≡ some (secret_volume "signing-key" (signing_key_secret_name store))
  unfolding Server.desired_stateful_set
  signing_volume =
      named-upsert_volume _ (secret_volume "nio-ssh" (ssh_secret_name store.name)) "signing-key"
        refl
      ∙ named-upsert_volume_same _ (secret_volume "signing-key" (signing_key_secret_name store))

  ssh_volume :
      volume_named (Server.desired_stateful_set store).spec.template.volumes "nio-ssh"
      ≡ some (secret_volume "nio-ssh" (ssh_secret_name store.name))
  unfolding Server.desired_stateful_set
  ssh_volume = named-upsert_volume_same _ (secret_volume "nio-ssh" (ssh_secret_name store.name))

  server-Runs :
      Runs
        (Server.desired_stateful_set store)
        "store"
        ("sh" ∷ "-c" ∷ store_start_script ∷ [])
        (key_mount "signing-key" "/etc/nix/signing" ∷ key_mount "nio-ssh" "/etc/nio/ssh" ∷ [])
  unfolding Server.desired_stateful_set
  server-Runs =
      upsert_container-Runs (Server.desired_stateful_set store)
        (pod_of store.spec.template).containers _ (Server.server_container _) _ _ refl refl refl
        refl refl refl
        (inr refl, (inl (ap is_some signing_volume), (inl (ap is_some ssh_volume), tt)))
        (inr refl, tt)

  pub desired-IsServer : (svc : Service) → IsServer svc
  unfolding Server.served Server.desired_stateful_set
  desired-IsServer svc = (server-Runs, signing_volume, ssh_volume, (refl, refl))
