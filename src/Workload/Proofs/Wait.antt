-- ===== src/Workload/Proofs/Wait.antt =====
-- About the shared flow: a workload whose store is not ready.
use nio.Prelude.{
  ℕ, String, Bool, true, false, Option, none, some, ◌≡◌, ◌∙◌, sym, subst, refl, arith, ◌==◌,
  if◌then◌else◌,
}
use nio.Kube.{Error, Message, Result, ok, err, Requeue, no_requeue}
use nio.Kube.Actions.{◌>>◌, pure}
use nio.Kube.Keeps.{Keeps, keeps_rules}
use nio.Kube.Ensures.{Ensures, Any, Ensures-bind, Ensures-Keeps, Ensures-weaken}
use nio.Render.Config.{StoreInfo}
use nio.Api.Workload.{NixSpec, NixWorkloadStatus}
use nio.Api.Builder.{NixStore}
use nio.Api.Names.{phase_ready, phase_suspended}
use nio.Workload.State.{History, WorkloadReconciler, WorkSt, WorkStep, write_status, change_status}
use nio.Workload.Resolve.{ResolvedSource, resolve_revision}
use nio.Workload.Infra.{InfraDeps, resolve_infra}
use nio.Workload.Flow.{
  update_status, observed, git_synced, infra_answer, with_infra, with_revision, reconcile_workload,
}
use nio.Workload.Proofs.Quiet.{IsQuiet, Quiet}
use nio.Workload.Proofs.Infra.{StoreFor, IsReadyFor, wanted_builder, infra-IsReadyFor}

module _ {A : Type 0} (r : WorkloadReconciler A)
    (run : ResolvedSource → InfraDeps → WorkStep A (Unit {0})) where
  Keeps-write_status : Keeps Quiet (write_status r)
  Keeps-write_status = record { at = λ s h. ground arith }

  Keeps-update_status :
      (f : ℕ → NixWorkloadStatus → NixWorkloadStatus) → Keeps Quiet (update_status r f)
  Keeps-update_status f = record { at = λ s h. h }

  -- The rollout is to wait.
  abbrev Waits : InfraDeps → Type 0
  Waits deps = (message : Message) × (deps.not_ready ≡ some message)

  answer-Quiet :
      (nix : NixSpec) (res : ResolvedSource) (deps : InfraDeps) (message : Message)
      → Keeps Quiet (infra_answer r run nix res deps (some message))
  answer-Quiet nix res deps message =
      search (keeps_rules, Keeps-write_status, Keeps-update_status) depth 7

  with_infra-Quiet :
      (nix : NixSpec) (res : ResolvedSource) (deps : InfraDeps)
      → Waits deps
      → Keeps Quiet (with_infra r run nix res deps)
  unfolding with_infra
  with_infra-Quiet nix res deps (message, e) =
      subst (λ m. Keeps Quiet (infra_answer r run nix res deps m)) (sym e)
        (answer-Quiet nix res deps message)

  suspended-Quiet : Keeps Quiet (
      update_status r (λ _ st. record st { phase = phase_suspended })
      >> write_status r
      >> pure no_requeue)
  suspended-Quiet = search (keeps_rules, Keeps-write_status, Keeps-update_status) depth 7

  if-Quiet :
      (b : Bool) (m n : WorkStep A Requeue) (s : WorkSt A)
      → IsQuiet (m s).1.history
      → IsQuiet (n s).1.history
      → IsQuiet ((if b then m else n) s).1.history
  if-Quiet true m n s h k = h
  if-Quiet false m n s h k = k

  -- A store that stays not ready.
  module _ (ns : String) (nix : NixSpec) (name : String) (store : NixStore)
      (named : nix.store_ref ≡ some name)
      (answers : (h : History A) → r.services.get_store h ns name ≡ ok store)
      (unready : (store.phase == phase_ready) ≡ false) where
    -- No answer of the server is a store that is Ready.
    never_ready : (info : Option StoreInfo) → StoreFor r ns (some name) info → ⊥
    never_ready info (h, found, i, e, ready, url, same, same_url, same_key) =
        ground (arith, answers h)

    not_ready-Waits :
        (wanted : Option String) (deps : InfraDeps) (m : Option Message)
        → deps.not_ready ≡ m
        → IsReadyFor r ns nix wanted deps
        → Waits deps
    not_ready-Waits wanted deps (some message) e ready = (message, e)
    not_ready-Waits wanted deps none e ready =
        let (store_ready, builder) = rw e at ready in
        absurd
          (never_ready deps.store (subst (λ ref. StoreFor r ns ref deps.store) named store_ready))

    infra-Waits :
        (owner : A) → r.kind.namespace owner ≡ ns → Ensures Quiet Waits (resolve_infra r owner nix)
    infra-Waits owner same =
        Ensures-weaken (IsReadyFor r ns nix (wanted_builder r owner nix)) Waits
          (resolve_infra r owner nix)
          (λ deps ready. not_ready-Waits _ deps deps.not_ready refl ready)
          (subst
            (λ n.
              Ensures Quiet (IsReadyFor r n nix (wanted_builder r owner nix))
                (resolve_infra r owner nix))
            same (infra-IsReadyFor r owner nix))

    git_failed-Quiet : (e : Error) → Keeps Quiet (with_revision r run nix (err e))
    git_failed-Quiet e = search (keeps_rules, Keeps-write_status, Keeps-update_status) depth 7

    with_revision-Quiet :
        (answer : Result ResolvedSource) (s : WorkSt A)
        → r.kind.namespace s.object ≡ ns
        → IsQuiet s.history
        → IsQuiet (with_revision r run nix answer s).1.history
    with_revision-Quiet (err e) s same h = (git_failed-Quiet e).at s h
    with_revision-Quiet (ok res) s same h =
        let f = git_synced r res (r.services.now s.history) in
        let t : WorkSt A = record s { object = change_status r f s.object } in
        (Ensures-bind Waits Any (resolve_infra r t.object nix) (with_infra r run nix res)
            (infra-Waits t.object (r.kind.namespace-set_workload _ s.object ∙ same))
            (λ deps waits.
              Ensures-Keeps (with_infra r run nix res deps)
                (with_infra-Quiet nix res deps waits))).keeps
          t h

    reconciled-Quiet :
        (s : WorkSt A)
        → r.kind.namespace s.object ≡ ns
        → r.kind.nix s.object ≡ nix
        → IsQuiet s.history
        → IsQuiet (reconcile_workload r run s).1.history
    unfolding reconcile_workload
    reconciled-Quiet s same spec h =
        let t : WorkSt A = record s { object = change_status r (observed r) s.object } in
        let spec' : r.kind.nix t.object ≡ nix = r.kind.nix-set_workload _ s.object ∙ spec in
        let same' : r.kind.namespace t.object ≡ ns =
          r.kind.namespace-set_workload _ s.object ∙ same in
        if-Quiet (r.kind.nix t.object).suspend _ _ t (suspended-Quiet.at t h) (
          subst
            (λ n.
              IsQuiet
                (with_revision r run n
                  (resolve_revision r s.history (r.kind.namespace t.object) n.source) t).1.history)
            (sym spec') (with_revision-Quiet _ t same' h))

-- While the store that a workload refers to is not Ready, whatever else the server, Git and the
-- checks of the paths answer, a reconcile of the workload makes no call on a Job, a
-- CronJob, a Deployment or a StatefulSet: nothing is run, the rollout does not go on, and what ran before is left alone. This holds for
-- every kind of workload, whatever it does once the infrastructure is there.
pub reconcile_workload-IsQuiet :
    {A : Type 0} (r : WorkloadReconciler A)
    (run : ResolvedSource → InfraDeps → WorkStep A (Unit {0})) (s : WorkSt A) (name : String)
    (store : NixStore)
    → (r.kind.nix s.object).store_ref ≡ some name
    → ((h : History A) → r.services.get_store h (r.kind.namespace s.object) name ≡ ok store)
    → (store.phase == phase_ready) ≡ false
    → IsQuiet s.history
    → IsQuiet (reconcile_workload r run s).1.history
reconcile_workload-IsQuiet r run s name store named answers unready h =
    reconciled-Quiet r run (r.kind.namespace s.object) (r.kind.nix s.object) name store named
      answers unready s refl refl h
