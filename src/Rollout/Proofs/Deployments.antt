-- ===== src/Rollout/Proofs/Deployments.antt =====
-- About observe of the NixDeployment controller: when a revision counts as rolled out.
use nio.Prelude.{
  ◌≤◌, ◌<◌, String, true, false, List, [], ◌∷◌, none, ◌≡◌, ◌==◌, refl, subst, sym, arith, ◌⊎◌, inl,
  inr, Bool-cases, Option-cases,
}
use nio.Kube.{Error, ok, err}
use nio.Kube.Binds.{Result-cases}
use nio.Api.Core.{Labels}
use nio.Api.Rollout.{NixDeployment, Deployment}
use nio.Api.Builder.{Pod}
use nio.Api.Names.{phase_ready, label_workload_kind, label_workload_name, label_revision}
use nio.Render.Revision.{composite_revision}
use nio.Workload.State.{History, WorkloadReconciler, WorkSt}
use nio.Workload.Status.{
  PodInitState, observe_pods, mark_stalled, mark_ready, mark_progressing, clear_stalled,
}
use nio.Workload.Resolve.{ResolvedSource}
use nio.Workload.Pods.{observe_pod_init}
use nio.Rollout.Deployments.{
  kind_nix_deployment, replica_failure, desired_replicas, is_rolled_out, with_verdict, with_counts,
  observe,
}

-- Every replica is of the observed spec, available and ready, and there is one.
abbrev pub IsRolledOut : Deployment → Type 0
IsRolledOut dep =
    (dep.generation ≤ dep.observed_generation)
    × (dep.updated_replicas ≡ desired_replicas dep.spec.replicas)
    × (dep.available_replicas ≡ desired_replicas dep.spec.replicas)
    × (dep.ready_replicas ≡ desired_replicas dep.spec.replicas)
    × (0 < desired_replicas dep.spec.replicas)

-- The rolled-out revision stays, and the phase is another than Ready, or stays.
abbrev pub Stays : NixDeployment → NixDeployment → Type 0
Stays before after =
    (after.status.workload.rolled_out_revision ≡ before.status.workload.rolled_out_revision)
    × (((after.status.workload.phase == phase_ready) ≡ false)
        ⊎ (after.status.workload.phase ≡ before.status.workload.phase))

-- The revision becomes the rolled-out one.
abbrev pub IsAdvanced : String → NixDeployment → Type 0
IsAdvanced revision after =
    (after.status.workload.rolled_out_revision ≡ revision)
    × (after.status.workload.phase ≡ phase_ready)

is_rolled_out-IsRolledOut : (dep : Deployment) → is_rolled_out dep ≡ true → IsRolledOut dep
unfolding is_rolled_out
is_rolled_out-IsRolledOut dep h =
    (ground arith, ground arith, ground arith, ground arith, ground arith)

module _ (r : WorkloadReconciler NixDeployment) (res : ResolvedSource) where
  with_verdict-cases :
      (dep : Deployment) (init : PodInitState) (nd : NixDeployment)
      → Stays nd (with_verdict r res dep init nd)
        ⊎ (IsAdvanced res.revision (with_verdict r res dep init nd)
            × (init.failing ≡ false)
            × (replica_failure dep.conditions ≡ none)
            × IsRolledOut dep)
  unfolding with_verdict mark_stalled mark_ready mark_progressing clear_stalled
  with_verdict-cases dep init nd = elim (Bool-cases init.failing) [
    | inl f ↦ rw f (inl (refl, inl refl))
    | inr f ↦ elim (Option-cases (replica_failure dep.conditions)) [
      | inr (message, e) ↦ rw (f, e) (inl (refl, inl refl))
      | inl e ↦ elim (Bool-cases (is_rolled_out dep)) [
        | inl o ↦ rw (f, e, o) (inr ((refl, refl), refl, refl, is_rolled_out-IsRolledOut dep o))
        | inr o ↦ elim (Bool-cases init.building) [
          | inl b ↦ rw (f, e, o, b) (inl (refl, inl refl))
          | inr b ↦ rw (f, e, o, b) (inl (refl, inl refl))
        ]
      ]
    ]
  ]

  abbrev pub labels_of : NixDeployment → Labels
  labels_of nd =
      (label_workload_kind, kind_nix_deployment)
      ∷ (label_workload_name, nd.name)
      ∷ (
        label_revision,
        composite_revision r.services.sha256_hex res.revision nd.spec.nix.run nd.spec.nix.args,
      )
      ∷ []

  abbrev nothing_seen : PodInitState
  nothing_seen = record { building = false; failing = false }

  -- What the server answers: a Deployment that is rolled out and reports no failure, and pods of
  -- the revision of which none fails its build.
  abbrev pub IsSeen : History NixDeployment → NixDeployment → Type 0
  IsSeen h nd =
      (dep : Deployment) × (pods : List Pod) × (r.services.get_deployment h nd.namespace nd.name
        ≡ ok dep)
      × (r.services.list_pods h nd.namespace (labels_of nd) ≡ ok pods)
      × ((observe_pods nothing_seen pods).failing ≡ false)
      × (replica_failure dep.conditions ≡ none)
      × IsRolledOut dep

  -- The object after the observation, by the answers of the server.
  observe-failed :
      (s : WorkSt NixDeployment) (x : Error)
      → r.services.get_deployment s.history s.object.namespace s.object.name ≡ err x
      → (observe r res s).1.object ≡ s.object
  unfolding observe
  observe-failed s x e = rw e refl

  observe-unlisted :
      (s : WorkSt NixDeployment) (dep : Deployment) (x : Error)
      → r.services.get_deployment s.history s.object.namespace s.object.name ≡ ok dep
      → r.services.list_pods s.history s.object.namespace (labels_of s.object) ≡ err x
      → (observe r res s).1.object ≡ with_counts dep s.object
  unfolding observe observe_pod_init
  observe-unlisted s dep x e l = rw e (rw l refl)

  observe-seen :
      (s : WorkSt NixDeployment) (dep : Deployment) (pods : List Pod)
      → r.services.get_deployment s.history s.object.namespace s.object.name ≡ ok dep
      → r.services.list_pods s.history s.object.namespace (labels_of s.object) ≡ ok pods
      → (observe r res s).1.object
        ≡ with_verdict r res dep (observe_pods nothing_seen pods) (with_counts dep s.object)
  unfolding observe observe_pod_init
  observe-seen s dep pods e l = rw e (rw l refl)

  -- What is to be shown of an object.
  abbrev IsObserved : WorkSt NixDeployment → NixDeployment → Type 0
  IsObserved s after =
      Stays s.object after ⊎ (IsAdvanced res.revision after × IsSeen s.history s.object)

  pub observe-IsAdvanced :
      (s : WorkSt NixDeployment)
      → Stays s.object (observe r res s).1.object
        ⊎ (IsAdvanced res.revision (observe r res s).1.object × IsSeen s.history s.object)
  observe-IsAdvanced s =
      let nd = s.object in
      elim (Result-cases (r.services.get_deployment s.history nd.namespace nd.name)) [
        | inr (x, e) ↦ subst (IsObserved s) (sym (observe-failed s x e)) (inl (refl, inr refl))
        | inl (dep, e) ↦
            elim (Result-cases (r.services.list_pods s.history nd.namespace (labels_of nd))) [
              | inr (x, l) ↦
                  subst (IsObserved s) (sym (observe-unlisted s dep x e l)) (inl (refl, inr refl))
              | inl (pods, l) ↦
                  subst (IsObserved s) (sym (observe-seen s dep pods e l))
                    (elim (with_verdict-cases dep (observe_pods nothing_seen pods)
                      (with_counts dep nd)) [
                        | inl stays ↦ inl stays
                        | inr (advanced, sound, whole, out) ↦
                            inr (advanced, (dep, pods, e, l, sound, whole, out))
                      ])
            ]
      ]
