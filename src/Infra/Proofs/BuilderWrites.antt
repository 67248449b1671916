-- ===== src/Infra/Proofs/BuilderWrites.antt =====
-- About the reconcile of a NixBuilder: what it creates and changes.
use nio.Prelude.{String, ◌≡◌, refl, Bool-cases, inl, inr}
use nio.Kube.{Error, is_not_found, Result, ok, err, Requeue}
use nio.Kube.Actions.{◌>>=◌, attempt, fail, get}
use nio.Kube.Keeps.{Keeps, Keeps-bind, Keeps-attempt, keeps_rules}
use nio.Kube.Binds.{Result-cases}
use nio.Api.Builder.{NixBuilder}
use nio.Api.Rollout.{StatefulSet}
use nio.Infra.State.{InfraReconciler, InfraSt, InfraStep, write_status}
use nio.Infra.Worker
use nio.Infra.Builder
use nio.Infra.Proofs.Writes.{
  Safe, Keeps-then, Keeps-write_status, Keeps-get_stateful_set, Keeps-service_to_mutate,
  Keeps-store_service, new_stateful_set-Safe, write_stateful_set-Safe,
}

module _ (r : InfraReconciler NixBuilder) where
  Keeps-service : (builder : NixBuilder) → Keeps (Safe r) (Builder.ensure_service r builder)
  unfolding Builder.ensure_service
  Keeps-service builder =
      search (keeps_rules, Keeps-service_to_mutate r, Keeps-store_service r) depth 7

  stateful_set-Safe :
      (builder : NixBuilder) (desired : StatefulSet) (answer : Result StatefulSet)
      (s : InfraSt NixBuilder)
      → r.services.own_stateful_set builder (Worker.desired_stateful_set builder) ≡ ok desired
      → r.services.get_stateful_set s.history builder.namespace builder.name ≡ answer
      → Safe r s
      → Safe r (Builder.stateful_set_answer r desired answer s).1
  unfolding Worker.desired_stateful_set
  stateful_set-Safe builder desired (ok existing) s o e h =
      write_stateful_set-Safe r (Builder.updated r desired existing) s
        (builder.namespace, builder.name, existing, e, refl, refl, refl, refl, refl) h
  stateful_set-Safe builder desired (err x) s o e h = elim (Bool-cases (is_not_found x)) [
    | inr n ↦ rw n h
    | inl n ↦ rw n (
        new_stateful_set-Safe r desired s (Worker.desired_stateful_set builder, builder, x, o, e, n)
          h)
  ]

  Keeps-stateful_set :
      (builder : NixBuilder) → Keeps (Safe r) (Builder.ensure_stateful_set r builder)
  unfolding Builder.ensure_stateful_set
  Keeps-stateful_set builder = record {
    at = λ s h.
        elim (Result-cases
          (r.services.own_stateful_set builder (Worker.desired_stateful_set builder))) [
            | inr (x, o) ↦ rw o h
            | inl (desired, o) ↦ rw o (stateful_set-Safe builder desired _ s o refl h)
          ];
  }

  Keeps-failed : (reason : String) (e : Error) → Keeps (Safe r) (Builder.failed r reason e)
  unfolding Builder.failed
  Keeps-failed reason e =
      Keeps-then r (Builder.degraded r reason e) (attempt (write_status r) >>= λ _. fail e)
        (search (keeps_rules, Keeps-write_status r) depth 7)

  Keeps-status_answer :
      (answer : Result (Unit {0})) → Keeps (Safe r) (Builder.status_answer r answer)
  Keeps-status_answer (ok _) = search keeps_rules
  Keeps-status_answer (err e) = search keeps_rules depth 5

  Keeps-publish : (sts : StatefulSet) → Keeps (Safe r) (Builder.publish r sts)
  unfolding Builder.publish
  Keeps-publish sts =
      Keeps-then r (Builder.published r sts)
        (attempt (write_status r) >>= λ answer. Builder.status_answer r answer)
        (Keeps-bind (attempt (write_status r)) _
          (Keeps-attempt (write_status r) (Keeps-write_status r)) Keeps-status_answer)

  Keeps-or_failed :
      {B : Type 0} (reason : String) (rest : B → InfraStep NixBuilder Requeue) (answer : Result B)
      → ((b : B) → Keeps (Safe r) (rest b))
      → Keeps (Safe r) (Builder.or_failed r reason rest answer)
  Keeps-or_failed reason rest (ok b) k = k b
  Keeps-or_failed reason rest (err e) k = Keeps-failed reason e

  Keeps-reconcile_builder :
      (builder : NixBuilder) → Keeps (Safe r) (Builder.reconcile_builder r builder)
  Keeps-reconcile_builder builder =
      search
        (
          keeps_rules,
          Keeps-or_failed,
          Keeps-service,
          Keeps-stateful_set,
          Keeps-get_stateful_set r,
          Keeps-publish,
        )
        depth 20

  pub reconcile_found-Safe : Keeps (Safe r) (Builder.reconcile_found r)
  unfolding Builder.reconcile_found
  reconcile_found-Safe =
      Keeps-then r Builder.observed (get >>= λ s. Builder.reconcile_builder r s.object)
        (search (keeps_rules, Keeps-reconcile_builder) depth 7)
