-- ===== src/Lib.antt =====
-- NIO, a Kubernetes operator that installs NixOS on machines and runs Nix workloads: a model of
-- its controllers, and what the model shows.
--
-- The program. Each controller reconciles one kind of object: it reads the object from the API
-- server, drives children of other kinds, and writes a status. A Machine is a host with a key. A
-- NixosConfiguration names a machine, a flake and a Git repository: it is installed once by a
-- NixJob (`<name>-install`), kept up to date by a NixCronJob (`<name>-day2`) and, when it is
-- deleted, replaced by another NixJob (`<name>-onremove`). A NixCluster selects machines for its
-- node groups by label and drives one NixCronJob (`<name>-converge`). The children are reconciled
-- by controllers of their own into batch Jobs and CronJobs; the parents read them only through
-- their status. A workload may refer to a NixStore, a binary cache with a signing key, and to a
-- NixBuilder, a remote build host; their controllers run them as StatefulSets and publish the
-- endpoints that the workload's pods use.
--
-- The files, with the code that they follow:
--   Prelude            shared names; lists, sets of names, sort.Strings, the order of texts, the
--                      parts of Go's strings and path packages that the code calls
--   Kube               apimachinery and controller-runtime as the code sees them: errors and
--                      results, ctrl.Result, status conditions, times; Go functions that change
--                      state and return an error (Actions), invariants of them (Keeps) and
--                      contracts (Ensures)
--   Api                api/v1alpha1: the types and names
--   Client             the API server of the NixosConfiguration controller: its answers, and the
--                      log of the calls
--   Children           internal/controller/nixosconfiguration_children.go: the three children
--   Configuration      internal/controller/nixosconfiguration_controller.go
--     State              the reconciler, its working copy and its calls
--     Phase              setPhase, setBlocked, setDegraded
--     Owner              configEarlier, machineOwner
--     Ensure             the children created or updated, found, suspended, deleted
--     Install            reconcileInstall, markFullDiskInstallCompleted
--     DayTwo             reconcileDayTwo, writeBackMachineStatus
--     Removing           reconcileRemoving, finalize, bumpOnRemoveRetries, clearMachineStatus
--     Reconcile          runStateMachine, Reconcile
--   Cluster            internal/controller/nixcluster_controller.go
--     Select             matchingMachines, selectGroupMembers
--     NodeFile           renderMemberNodeFile, renderNodeFileContent, escapeNixString
--     Systems            nixSystemForArch, checkBuilderCoversMembers
--     Converge           convergePodTemplate, desiredConvergeCronJob and the calls on the child
--     Groups             the loop of Reconcile over the node groups
--     Status, Conditions coarseMemberStatus, clusterPhase, setConditions
--     Reconcile          Reconcile, fail, reconcileRemoving
--   Converge           convergeStall, which both controllers use
--   GitAuth            internal/gitauth/gitauth.go
--     Exec               Creds.Env, and ExecGitResolver of internal/controller/nixresolve.go
--   Infra              what serves the builds of the workloads
--     State              the reconciler of a NixStore or a NixBuilder, its calls
--     Keys               ensureSigningKey; internal/controller/nix_sshkey.go: ensureSSHKeySecret
--     Pods, Scripts      upsertContainer, the init container, the start scripts
--     Server, Store      internal/controller/nixstore_controller.go: what is asked for, Reconcile
--     Worker, Builder    internal/controller/nixbuilder_controller.go: likewise
--   Machine            internal/controller/machine_controller.go
--     Credentials        buildSSHConfig
--     Scan               scanArchitecture
--     Reconcile          checkDiscoverable, reconcile, reconcileDelete, Reconcile
--     Watch              findMachinesForSecret
--   Render             internal/controller/nixrender.go
--     Paths              validateFilePath, validateAdditionalFiles
--     Shell, Commands    shellQuote, shellJoin, runCommand, buildCommand
--     Revision           compositeRevision, whose hash is a parameter
--     Config             buildNixConfig
--     Mounts             the functions on lists of volumes, mounts, variables and containers
--     Inject, Fetch      additionalFilesInjection, fetchSourceScript
--     Pod, Template      nixStoreVolume, renderPodTemplate
--   Workload           what the controllers of the workloads have in common
--     State              the reconciler of any kind of workload, its calls
--     Status             internal/controller/nixworkload.go: conditions, pollInterval,
--                        triggerOnChange; the states that observePodInit sees
--     Pods               observePodInit
--     Infra              the same file: resolveInfra, ensureAdditionalFilesConfigMap,
--                        ensureOwnedBuilder
--     Resolve, LsRemote  internal/controller/nixresolve.go
--     Flow               the order of Reconcile that the controllers share, up to what is run
--   Job                internal/controller/nixjob_controller.go: the run-Job, its history
--   CronJob            internal/controller/nixcronjob_controller.go
--     Runs               lastFinishedRuns, latestRunFailed
--     Project            desiredCronJob, project, fireImmediateJob
--     Reconcile          observe, Reconcile
--   Rollout            internal/controller/nixdeployment_controller.go (Deployments) and
--                      nixstatefulset_controller.go (StatefulSets)
--   */Watch            findConfigsForMachine, findConfigsForOrphanRemoveJob,
--                      findClustersForMachine, and nixworkload_watches.go (Workload/Watch)
--   */Proofs           the theorems of a part
--   Samples            objects, servers that answer from them, tests and runs
--
-- How the code is modelled. A reconcile is a function from the server to its answer and the log of
-- the calls it made, the latest first. The working copy of the object is the state that the calls
-- change; what a call changed stays changed when a later one returns an error, as in Go. What the
-- server answers is a function of the log, so that a server which changes, conflicts or fails
-- between two calls is covered; the theorems hold for all servers. `retry.RetryOnConflict`, the
-- functions of apimachinery's meta package, `metav1.Time`, `controllerutil` and
-- `LabelSelectorAsSelector` are parameters; where a theorem relies on their behaviour, it is a law
-- that an implementation in the library meets. A map of names is the list of its keys, a pointer
-- an Option, a `metav1.Time` its seconds. Messages keep their format and arguments and are not
-- rendered. The conversions to int32 wrap around. Every loop of the modelled code runs over a list
-- or a text, so that there is no fuel: the functions recur on it, and all of them are total.
--
-- The reconciles of NixJob, NixCronJob, NixDeployment and NixStatefulSet are the same text up to
-- the infrastructure: they are one function here, whose argument is what follows. Of a Job, a
-- CronJob, a Deployment, a StatefulSet and a pod template, the fields that the operator reads or
-- writes are modelled; the others are kept by the API's types and by no function of the source. A
-- negative count of replicas or of jobs, which the fields of a NixStore and a NixBuilder admit
-- and a StatefulSet does not, is left out. The workloads take any GitResolver as a parameter; the
-- one that runs git is modelled by itself, over a host whose file system and processes are
-- parameters. So are the generation and the encoding of keys.
--
-- What is not modelled: the registration with the manager, logging and metrics; the SSH client,
-- which is a parameter of the Machine controller. Object names are taken to have no character
-- that Go's `%q` escapes, which the API server's validation of names gives.
pub mod Api
pub mod Children
pub mod Client
pub mod Cluster
pub mod Configuration
pub mod Converge
pub mod CronJob
pub mod GitAuth
pub mod Infra
pub mod Job
pub mod Kube
pub mod Machine
pub mod Prelude
pub mod Render
pub mod Rollout
pub mod Samples
pub mod Workload
