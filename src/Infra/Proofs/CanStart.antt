-- ===== src/Infra/Proofs/CanStart.antt =====
-- About the StatefulSets and the Services of a store and of a builder, for a template of the user.
use nio.Api.Core.{Service}
use nio.Api.Builder.{NixStore, NixBuilder}
use nio.Infra.Proofs.Mounts.{IsServer, desired-IsServer}
use nio.Infra.Proofs.WorkerMounts.{IsWorker, desired-IsWorker}

-- For every template of the user, in the StatefulSets that the controllers ask for: the container
-- of the server or of the worker is there with its start script, the volume of /nix mounted at /nix
-- and the keys mounted read-only, the signing key at /etc/nix/signing and the SSH key at
-- /etc/nio/ssh (for a worker, only when it names a store); the first init container is the
-- one that copies /nix of the image into that same volume, unless it has a store; and each of their
-- mounts has a volume of the pod or a claim. The volumes of the keys are the Secrets that the store's
-- controller keeps. The Service selects those pods, and so does the StatefulSet.
pub desired_stateful_set-CanStart :
    (store : NixStore) (builder : NixBuilder) (svc : Service)
    → IsServer store svc × IsWorker builder svc
desired_stateful_set-CanStart store builder svc =
    (desired-IsServer store svc, desired-IsWorker builder svc)
