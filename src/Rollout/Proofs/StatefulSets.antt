-- ===== src/Rollout/Proofs/StatefulSets.antt =====
-- About observe of the NixStatefulSet controller: when a revision counts as rolled out.
use nio.Prelude.{
  ◌≤◌, ◌<◌, String, true, false, List, [], ◌∷◌, ◌≡◌, ◌==◌, refl, subst, sym, arith, ◌⊎◌, inl, inr,
  Bool-cases,
}
use nio.Kube.{Error, ok, err}
use nio.Kube.Binds.{Result-cases}
use nio.Api.Core.{Labels}
use nio.Api.Rollout.{NixStatefulSet, StatefulSet}
use nio.Api.Builder.{Pod}
use nio.Api.Names.{phase_ready, label_workload_kind, label_workload_name, label_revision}
use nio.Render.Revision.{composite_revision}
use nio.Workload.State.{History, WorkloadReconciler, WorkSt}
use nio.Workload.Status.{
  PodInitState, observe_pods, mark_stalled, mark_ready, mark_progressing, clear_stalled,
}
use nio.Workload.Resolve.{ResolvedSource}
use nio.Workload.Pods.{observe_pod_init}
use nio.Rollout.Deployments.{desired_replicas}
use nio.Rollout.StatefulSets.{
  kind_nix_stateful_set, is_rolled_out, with_verdict, with_counts, observe,
}

-- Every replica is of the observed spec and ready, and there is one.
abbrev pub IsRolledOut : StatefulSet → Type 0
IsRolledOut sts =
    (sts.generation ≤ sts.observed_generation)
    × (sts.updated_replicas ≡ desired_replicas sts.spec.replicas)
    × (sts.ready_replicas ≡ desired_replicas sts.spec.replicas)
    × (0 < desired_replicas sts.spec.replicas)

-- The rolled-out revision stays, and the phase is another than Ready, or stays.
abbrev pub Stays : NixStatefulSet → NixStatefulSet → Type 0
Stays before after =
    (after.status.workload.rolled_out_revision ≡ before.status.workload.rolled_out_revision)
    × (((after.status.workload.phase == phase_ready) ≡ false)
        ⊎ (after.status.workload.phase ≡ before.status.workload.phase))

-- The revision becomes the rolled-out one.
abbrev pub IsAdvanced : String → NixStatefulSet → Type 0
IsAdvanced revision after =
    (after.status.workload.rolled_out_revision ≡ revision)
    × (after.status.workload.phase ≡ phase_ready)

is_rolled_out-IsRolledOut : (sts : StatefulSet) → is_rolled_out sts ≡ true → IsRolledOut sts
unfolding is_rolled_out
is_rolled_out-IsRolledOut sts h = (ground arith, ground arith, ground arith, ground arith)

module _ (r : WorkloadReconciler NixStatefulSet) (res : ResolvedSource) where
  with_verdict-cases :
      (sts : StatefulSet) (init : PodInitState) (nss : NixStatefulSet)
      → Stays nss (with_verdict r res sts init nss)
        ⊎ (IsAdvanced res.revision (with_verdict r res sts init nss)
            × (init.failing ≡ false)
            × IsRolledOut sts)
  unfolding with_verdict mark_stalled mark_ready mark_progressing clear_stalled
  with_verdict-cases sts init nss = elim (Bool-cases init.failing) [
    | inl f ↦ rw f (inl (refl, inl refl))
    | inr f ↦ elim (Bool-cases (is_rolled_out sts)) [
      | inl o ↦ rw (f, o) (inr ((refl, refl), refl, is_rolled_out-IsRolledOut sts o))
      | inr o ↦ elim (Bool-cases init.building) [
        | inl b ↦ rw (f, o, b) (inl (refl, inl refl))
        | inr b ↦ rw (f, o, b) (inl (refl, inl refl))
      ]
    ]
  ]

  abbrev pub labels_of : NixStatefulSet → Labels
  labels_of nss =
      (label_workload_kind, kind_nix_stateful_set)
      ∷ (label_workload_name, nss.name)
      ∷ (
        label_revision,
        composite_revision r.services.sha256_hex res.revision nss.spec.nix.run nss.spec.nix.args,
      )
      ∷ []

  abbrev nothing_seen : PodInitState
  nothing_seen = record { building = false; failing = false }

  -- What the server answers: a StatefulSet that is rolled out, and pods of
  -- the revision of which none fails its build.
  abbrev pub IsSeen : History NixStatefulSet → NixStatefulSet → Type 0
  IsSeen h nss =
      (sts : StatefulSet) × (pods : List Pod) × (r.services.get_stateful_set h nss.namespace
          nss.name
        ≡ ok sts)
      × (r.services.list_pods h nss.namespace (labels_of nss) ≡ ok pods)
      × ((observe_pods nothing_seen pods).failing ≡ false)
      × IsRolledOut sts

  -- The object after the observation, by the answers of the server.
  observe-failed :
      (s : WorkSt NixStatefulSet) (x : Error)
      → r.services.get_stateful_set s.history s.object.namespace s.object.name ≡ err x
      → (observe r res s).1.object ≡ s.object
  unfolding observe
  observe-failed s x e = rw e refl

  observe-unlisted :
      (s : WorkSt NixStatefulSet) (sts : StatefulSet) (x : Error)
      → r.services.get_stateful_set s.history s.object.namespace s.object.name ≡ ok sts
      → r.services.list_pods s.history s.object.namespace (labels_of s.object) ≡ err x
      → (observe r res s).1.object ≡ with_counts sts s.object
  unfolding observe observe_pod_init
  observe-unlisted s sts x e l = rw e (rw l refl)

  observe-seen :
      (s : WorkSt NixStatefulSet) (sts : StatefulSet) (pods : List Pod)
      → r.services.get_stateful_set s.history s.object.namespace s.object.name ≡ ok sts
      → r.services.list_pods s.history s.object.namespace (labels_of s.object) ≡ ok pods
      → (observe r res s).1.object
        ≡ with_verdict r res sts (observe_pods nothing_seen pods) (with_counts sts s.object)
  unfolding observe observe_pod_init
  observe-seen s sts pods e l = rw e (rw l refl)

  -- What is to be shown of an object.
  abbrev IsObserved : WorkSt NixStatefulSet → NixStatefulSet → Type 0
  IsObserved s after =
      Stays s.object after ⊎ (IsAdvanced res.revision after × IsSeen s.history s.object)

  -- An observation of a NixStatefulSet either leaves the rolled-out revision, and does not make the
  -- phase Ready; or the resolved revision becomes the rolled-out one and the phase is Ready, and
  -- then the server answered with a StatefulSet whose latest spec was observed, all of whose
  -- replicas, at least one, are updated and ready, and no pod of the revision fails its build.
  pub observe-IsAdvanced :
      (s : WorkSt NixStatefulSet)
      → Stays s.object (observe r res s).1.object
        ⊎ (IsAdvanced res.revision (observe r res s).1.object × IsSeen s.history s.object)
  observe-IsAdvanced s =
      let nss = s.object in
      elim (Result-cases (r.services.get_stateful_set s.history nss.namespace nss.name)) [
        | inr (x, e) ↦ subst (IsObserved s) (sym (observe-failed s x e)) (inl (refl, inr refl))
        | inl (sts, e) ↦
            elim (Result-cases (r.services.list_pods s.history nss.namespace (labels_of nss))) [
              | inr (x, l) ↦
                  subst (IsObserved s) (sym (observe-unlisted s sts x e l)) (inl (refl, inr refl))
              | inl (pods, l) ↦
                  subst (IsObserved s) (sym (observe-seen s sts pods e l))
                    (elim (with_verdict-cases sts (observe_pods nothing_seen pods)
                      (with_counts sts nss)) [
                        | inl stays ↦ inl stays
                        | inr (advanced, sound, out) ↦ inr (advanced, (sts, pods, e, l, sound, out))
                      ])
            ]
      ]
