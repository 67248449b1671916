-- ===== src/Infra/Builder.antt =====
-- The NixBuilder controller (internal/controller/nixbuilder_controller.go).
use Prim.Native.String.{◌++◌}
use nio.Prelude.{ℕ, String, false, [], leb, if◌then◌else◌}
use nio.Kube.{
  Error, is_not_found, is_conflict, Message, message_of, text, Result, ok, err, Requeue, no_requeue,
  requeue_now, requeue_in,
}
use nio.Kube.Conditions.{ConditionStatus, condition_true, condition_false}
use nio.Kube.Actions.{◌>>=◌, ◌>>◌, pure, fail, attempt, lift, get}
use nio.Api.Builder.{NixBuilder}
use nio.Api.Names.{condition_ready, condition_stalled, phase_ready, phase_degraded, phase_pending}
use nio.Api.Rollout.{StatefulSet}
use nio.Infra.State.{
  History, InfraReconciler, InfraStep, write_status, get_stateful_set, service_to_mutate,
  store_service, new_stateful_set, write_stateful_set, change,
}
use nio.Infra.Worker.{desired_stateful_set, served}

-- nixBuilderRequeue, in seconds
abbrev pub nix_builder_requeue : ℕ
nix_builder_requeue = 30

abbrev pub observed : NixBuilder → NixBuilder
observed builder = record builder { observed_generation = builder.generation }

module _ (r : InfraReconciler NixBuilder) where
  abbrev pub put_condition : String → ConditionStatus → String → Message → NixBuilder → NixBuilder
  put_condition type status reason message builder = record builder {
    conditions = r.meta.set_status_condition builder.conditions (record {
      type = type;
      status = status;
      observed_generation = builder.generation;
      reason = reason;
      message = message;
    });
  }

  -- The status that an error leaves.
  unfoldable pub degraded : String → Error → NixBuilder → NixBuilder
  degraded reason cause builder =
      put_condition condition_ready condition_false reason (message_of cause) (
        put_condition condition_stalled condition_true reason (message_of cause)
          (record builder { phase = phase_degraded; ready = false }))

  -- fail: an error of the status update is only logged.
  unfoldable pub failed : String → Error → InfraStep NixBuilder Requeue
  failed reason cause = do change (degraded reason cause); _ ← attempt (write_status r); fail cause

  -- `if v, err := f(); err != nil { return r.fail(ctx, &builder, reason, err) }`
  abbrev pub or_failed :
      {B : Type 0}
      → String
      → (B → InfraStep NixBuilder Requeue)
      → Result B
      → InfraStep NixBuilder Requeue
  or_failed reason rest (ok b) = rest b
  or_failed reason rest (err e) = failed reason e

  unfoldable pub ensure_service : NixBuilder → InfraStep NixBuilder (Unit {0})
  ensure_service builder = do
    svc ← service_to_mutate r builder.namespace builder.name
    owned ← lift (r.services.own_service builder (served builder svc))
    store_service r owned

  -- Only the template of a StatefulSet that is there is set.
  abbrev pub updated : StatefulSet → StatefulSet → StatefulSet
  updated desired existing = record existing {
    spec = record existing.spec { template = desired.spec.template };
  }

  abbrev pub stateful_set_answer :
      StatefulSet → Result StatefulSet → InfraStep NixBuilder (Unit {0})
  stateful_set_answer desired (ok existing) = write_stateful_set r (updated desired existing)
  stateful_set_answer desired (err e) =
      if is_not_found e then new_stateful_set r desired else fail e

  unfoldable pub ensure_stateful_set : NixBuilder → InfraStep NixBuilder (Unit {0})
  ensure_stateful_set builder = do
    desired ← lift (r.services.own_stateful_set builder (desired_stateful_set builder))
    answer ← attempt (get_stateful_set r builder.namespace builder.name)
    stateful_set_answer desired answer

  -- The endpoint, and whether the worker is ready.
  abbrev pub with_endpoint : StatefulSet → NixBuilder → NixBuilder
  with_endpoint sts builder = record builder {
    builder_endpoint = "ssh-ng://root@" ++ builder.name ++ "." ++ builder.namespace ++ ".svc";
    ready = leb 1 sts.ready_replicas;
  }

  -- The phase and the conditions.
  abbrev pub with_phase : NixBuilder → NixBuilder
  with_phase builder =
      if builder.ready
      then (let ready =
            put_condition condition_ready condition_true "BuilderReady"
              (text "builder worker is ready") (record builder { phase = phase_ready }) in
          record ready {
            conditions = r.meta.remove_status_condition ready.conditions condition_stalled;
          })
      else put_condition condition_ready condition_false "BuilderNotReady"
          (text "builder worker is not ready") (record builder { phase = phase_pending })

  unfoldable pub published : StatefulSet → NixBuilder → NixBuilder
  published sts builder = with_phase (with_endpoint sts builder)

  abbrev pub status_answer : Result (Unit {0}) → InfraStep NixBuilder Requeue
  status_answer (ok _) = pure (requeue_in nix_builder_requeue)
  status_answer (err e) = if is_conflict e then pure requeue_now else fail e

  unfoldable pub publish : StatefulSet → InfraStep NixBuilder Requeue
  publish sts = do change (published sts); answer ← attempt (write_status r); status_answer answer

  -- What follows each call that succeeded, the last one first.
  abbrev pub observe : NixBuilder → InfraStep NixBuilder Requeue
  observe builder = do
    answer ← attempt (get_stateful_set r builder.namespace builder.name)
    or_failed "StatefulSetError" publish answer

  abbrev pub after_service : NixBuilder → InfraStep NixBuilder Requeue
  after_service builder = do
    answer ← attempt (ensure_stateful_set builder)
    or_failed "StatefulSetError" (λ _. observe builder) answer

  abbrev pub reconcile_builder : NixBuilder → InfraStep NixBuilder Requeue
  reconcile_builder builder = do
    answer ← attempt (ensure_service builder)
    or_failed "ServiceError" (λ _. after_service builder) answer

  -- The builder was found.
  unfoldable pub reconcile_found : InfraStep NixBuilder Requeue
  reconcile_found = do change observed; s ← get; reconcile_builder s.object

  abbrev pub start : Result NixBuilder → Result Requeue × History NixBuilder
  start (ok builder) =
      let done = reconcile_found (record { object = builder; history = [] }) in
      (done.0, done.1.history)
  start (err e) = (if is_not_found e then ok no_requeue else err e, [])

  unfoldable pub reconcile : String → String → Result Requeue × History NixBuilder
  reconcile namespace name = start (r.services.get_object [] namespace name)
