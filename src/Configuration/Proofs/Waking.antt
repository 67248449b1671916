-- ===== src/Configuration/Proofs/Waking.antt =====
-- About the decommission job: it outlives its configuration, and its events reach it.
use nio.Prelude.{String, Bool, false, [], ◌∷◌, none, ◌≡◌, ◌==◌, refl, arith, All, inl, inr}
use nio.Kube.{Message, Result, ok, err}
use nio.Kube.Actions.{◌>>=◌, lift, attempt}
use nio.Kube.Keeps.{Keeps, Keeps-bind, Keeps-attempt, keeps_rules}
use nio.Kube.Ensures.{Holds}
use nio.Kube.Binds.{Result-cases}
use nio.Api.Workload.{NixJob}
use nio.Api.Machine.{Machine}
use nio.Api.Configuration.{NixosConfiguration}
use nio.Client.{create_job, Event, History}
use nio.Children.{require_target_key, map_additional_files, build_decommission_nix_job}
use nio.Configuration.State.{St, Reconciler, emit, get_job, create_nix_job}
use nio.Configuration.Ensure.{
  label_config_name, label_machine_name, label_operation, operation_decommission, create_if_missing,
  with_ttl, decommission_ttl_seconds, ensure_decommission_nix_job,
}
use nio.Configuration.Watch.{label_value, find_configs_for_orphan_remove_job}

-- A job without an owner, in the namespace of the configuration.
abbrev IsOrphanOf : NixosConfiguration → NixJob → Type 0
IsOrphanOf config job = (job.owner ≡ none) × (job.namespace ≡ config.namespace)

build-IsOrphanOf :
    (config : NixosConfiguration) (machine : Machine)
    → Holds (IsOrphanOf config) (build_decommission_nix_job config machine)
unfolding build_decommission_nix_job
build-IsOrphanOf config machine = elim (Result-cases (require_target_key machine)) [
  | inr (x, e) ↦ rw e tt
  | inl (secret, e) ↦ elim (Result-cases (map_additional_files config)) [
    | inr (x, f) ↦ rw (e, f) tt
    | inl (files, f) ↦ rw (e, f) (refl, refl)
  ]
]

-- The job that is to be created, from the one that was built.
abbrev labelled : NixosConfiguration → Machine → NixJob → NixJob
labelled config machine built = record built {
  labels =
      (label_config_name, config.name)
      ∷ (label_machine_name, machine.name)
      ∷ (label_operation, operation_decommission)
      ∷ [];
  spec = record built.spec {
    job_template = with_ttl decommission_ttl_seconds built.spec.job_template;
  };
}

-- The job is not deleted with its configuration, and an event of it is mapped to it.
abbrev pub Wakes : NixosConfiguration → NixJob → Type 0
Wakes config job =
    (job.owner ≡ none)
    × (find_configs_for_orphan_remove_job job
        ≡ record { name = config.name; namespace = config.namespace } ∷ [])

abbrev CreatesWaking : NixosConfiguration → Event → Type 0
CreatesWaking config e = elim e.call [ create_job j ↦ Wakes config j | _ ↦ Unit {0} ]

abbrev pub CreatesOnly : NixosConfiguration → History → Type 0
CreatesOnly config = All (CreatesWaking config)

module _ (r : Reconciler) (config : NixosConfiguration) (named : (config.name == "") ≡ false) where
  abbrev Safe : St → Type 0
  Safe s = CreatesOnly config s.history

  Keeps-get_job : (namespace name : String) → Keeps Safe (get_job r namespace name)
  Keeps-get_job namespace name = record { at = λ s h. h }

  Keeps-emit : (warning : Bool) (reason : String) (m : Message) → Keeps Safe (emit warning reason m)
  Keeps-emit warning reason m = record { at = λ s h. ground arith }

  Keeps-create : (job : NixJob) → Wakes config job → Keeps Safe (create_nix_job r job)
  Keeps-create job w = record { at = λ s h. ground arith }

  labelled-Wakes :
      (job : NixJob) (machine : String)
      → IsOrphanOf config job
      → job.labels
        ≡ (label_config_name, config.name)
          ∷ (label_machine_name, machine)
          ∷ (label_operation, operation_decommission)
          ∷ []
      → Wakes config job
  unfolding find_configs_for_orphan_remove_job label_value
  labelled-Wakes job machine (orphan, same) labels = (orphan, rw (labels, named, same) refl)

  Keeps-create_if_missing :
      (desired : NixJob) (found : Result NixJob)
      → Wakes config desired
      → Keeps Safe (create_if_missing r desired found)
  Keeps-create_if_missing desired (ok existing) w = search keeps_rules
  Keeps-create_if_missing desired (err e) w = search (keeps_rules, Keeps-create, Keeps-emit) depth 9

  -- The created job has the labels, whatever the builder answers.
  Keeps-built :
      (answer : Result NixJob) (machine : Machine)
      → Holds (IsOrphanOf config) answer
      → Keeps Safe (
          lift answer >>= λ built.
          attempt (
            get_job r
              (labelled config machine built).namespace
              (labelled config machine built).name)
          >>= create_if_missing r (labelled config machine built))
  Keeps-built (err e) machine h = record { at = λ s k. k }
  Keeps-built (ok built) machine h =
      let desired = labelled config machine built in
      let k : Keeps Safe
          (attempt (get_job r desired.namespace desired.name) >>= create_if_missing r desired) =
        Keeps-bind (attempt (get_job r desired.namespace desired.name)) _
          (Keeps-attempt _ (Keeps-get_job _ _))
          (λ found.
            Keeps-create_if_missing desired found
              (labelled-Wakes desired machine.name (h.0, h.1) refl)) in
      record { at = λ s p. k.at s p }

-- About ensureDecommissionNixJob alone, the step of the removal that starts the decommission: it
-- creates no other job than one that has no owner, so that it is not deleted along with the
-- configuration, and whose events are mapped to exactly this configuration, so that the removal
-- goes on when the job ends. It supposes that the configuration has a name.
pub ensure_decommission_nix_job-CreatesOnly :
    (r : Reconciler) (machine : Machine) (s : St) (named : (s.config.name == "") ≡ false)
    → CreatesOnly s.config s.history
    → CreatesOnly s.config (ensure_decommission_nix_job r machine s).1.history
unfolding ensure_decommission_nix_job
ensure_decommission_nix_job-CreatesOnly r machine s named h =
    (Keeps-built r s.config named (build_decommission_nix_job s.config machine) machine
        (build-IsOrphanOf s.config machine)).at
      s h
