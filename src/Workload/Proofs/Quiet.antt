-- ===== src/Workload/Proofs/Quiet.antt =====
-- About resolveInfra: its calls write no Job, CronJob, Deployment or StatefulSet.
use nio.Prelude.{String, List, [], ◌∷◌, Option, none, some, arith}
use nio.Kube.{Result, ok, err}
use nio.Kube.Keeps.{Keeps, keeps_rules}
use nio.Api.Workload.{NixSpec, NixBuilderSpec}
use nio.Api.Builder.{NixBuilder, ConfigMap}
use nio.Workload.State.{
  create_job, delete_job, create_cron_job, update_cron_job, create_deployment, update_deployment,
  create_stateful_set, update_stateful_set, Event, History, WorkloadReconciler, WorkSt, new_builder,
  store_config_map, drop_config_map,
}
use nio.Workload.Infra.{
  inline_contents, ensure_additional_files_config_map, drop_stale, put_contents, created,
  builder_answer, ensure_owned_builder, builder_by, builder_name, get_config_map, get_builder,
  get_store,
}

module _ {A : Type 0} where
  -- A call that is not of a Job, a CronJob, a Deployment or a StatefulSet.
  abbrev pub IsQuietCall : Event A → Type 0
  IsQuietCall e = elim e.call [
    | create_job j ↦ ⊥
    | delete_job j ↦ ⊥
    | create_cron_job c ↦ ⊥
    | update_cron_job c ↦ ⊥
    | create_deployment d ↦ ⊥
    | update_deployment d ↦ ⊥
    | create_stateful_set d ↦ ⊥
    | update_stateful_set d ↦ ⊥
    | _ ↦ Unit {0}
  ]

  abbrev pub IsQuiet : History A → Type 0
  IsQuiet [] = Unit {0}
  IsQuiet (e ∷ h) = IsQuietCall e × IsQuiet h

  abbrev pub Quiet : WorkSt A → Type 0
  Quiet s = IsQuiet s.history

  module _ (r : WorkloadReconciler A) where
    Keeps-get_config_map : (ns name : String) → Keeps Quiet (get_config_map r ns name)
    Keeps-get_config_map ns name = record { at = λ s h. h }

    Keeps-drop_config_map : (m : ConfigMap) → Keeps Quiet (drop_config_map r m)
    Keeps-drop_config_map m = record { at = λ s h. ground arith }

    Keeps-store_config_map : (m : ConfigMap) → Keeps Quiet (store_config_map r m)
    Keeps-store_config_map m = record { at = λ s h. ground arith }

    Keeps-drop_stale : (answer : Result ConfigMap) → Keeps Quiet (drop_stale r answer)
    Keeps-drop_stale (ok existing) = search (keeps_rules, Keeps-drop_config_map) depth 7
    Keeps-drop_stale (err e) = search keeps_rules depth 5

    Keeps-put_contents :
        (owner : A) (contents : List (String × String))
        → Keeps Quiet (put_contents r owner contents)
    Keeps-put_contents owner [] =
        search (keeps_rules, Keeps-get_config_map, Keeps-drop_stale) depth 7
    Keeps-put_contents owner (c ∷ cs) = search (keeps_rules, Keeps-store_config_map) depth 7

    pub Keeps-ensure_config_map :
        (owner : A) (nix : NixSpec) → Keeps Quiet (ensure_additional_files_config_map r owner nix)
    unfolding ensure_additional_files_config_map
    Keeps-ensure_config_map owner nix =
        Keeps-put_contents owner (inline_contents 0 nix.additional_files)

    Keeps-new_builder : (b : NixBuilder) → Keeps Quiet (new_builder r b)
    Keeps-new_builder b = record { at = λ s h. ground arith }

    Keeps-created : (answer : Result (Unit {0})) → Keeps Quiet (created r answer)
    Keeps-created (ok _) = search keeps_rules
    Keeps-created (err e) = search keeps_rules depth 5

    Keeps-builder_answer :
        (name : String) (owner : A) (nix : NixSpec) (template : NixBuilderSpec)
        (answer : Result NixBuilder)
        → Keeps Quiet (builder_answer r name owner nix template answer)
    Keeps-builder_answer name owner nix template (ok b) = search keeps_rules
    Keeps-builder_answer name owner nix template (err e) =
        search (keeps_rules, Keeps-new_builder, Keeps-created) depth 9

    Keeps-get_builder : (ns name : String) → Keeps Quiet (get_builder r ns name)
    Keeps-get_builder ns name = record { at = λ s h. h }

    Keeps-get_store : (ns name : String) → Keeps Quiet (get_store r ns name)
    Keeps-get_store ns name = record { at = λ s h. h }

    Keeps-ensure_owned_builder :
        (owner : A) (nix : NixSpec) (template : NixBuilderSpec)
        → Keeps Quiet (ensure_owned_builder r owner nix template)
    unfolding ensure_owned_builder
    Keeps-ensure_owned_builder owner nix template =
        search (keeps_rules, Keeps-get_builder, Keeps-builder_answer) depth 7

    Keeps-builder_by :
        (owner : A) (nix : NixSpec) (ref : Option String) (template : Option NixBuilderSpec)
        → Keeps Quiet (builder_by r owner nix ref template)
    Keeps-builder_by owner nix (some name) template = search keeps_rules
    Keeps-builder_by owner nix none none = search keeps_rules
    Keeps-builder_by owner nix none (some template) =
        search (keeps_rules, Keeps-ensure_owned_builder) depth 7

    pub Keeps-builder_name : (owner : A) (nix : NixSpec) → Keeps Quiet (builder_name r owner nix)
    unfolding builder_name
    Keeps-builder_name owner nix = Keeps-builder_by owner nix nix.builder_ref nix.builder_template
