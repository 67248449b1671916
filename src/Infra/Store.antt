-- ===== src/Infra/Store.antt =====
-- The NixStore controller (internal/controller/nixstore_controller.go).
use Prim.Native.String.{◌++◌}
use nio.Prelude.{ℕ, String, ◌&&◌, [], ◌∷◌, ltb, leb, if◌then◌else◌}
use nio.Prelude.Decimal.{decimal}
use nio.Kube.{
  Error, is_not_found, is_conflict, Message, message_of, text, sprintf, num, Result, ok, err,
  Requeue, no_requeue, requeue_now, requeue_in,
}
use nio.Kube.Conditions.{ConditionStatus, condition_true, condition_false}
use nio.Kube.Actions.{◌>>=◌, ◌>>◌, pure, fail, attempt, lift, get}
use nio.Api.Builder.{NixStore}
use nio.Api.Names.{condition_ready, condition_stalled, phase_ready, phase_degraded, phase_pending}
use nio.Api.Rollout.{StatefulSet}
use nio.Infra.State.{
  History, InfraReconciler, InfraStep, write_status, get_stateful_set, service_to_mutate,
  store_service, new_stateful_set, write_stateful_set, change,
}
use nio.Infra.Keys.{ensure_signing_key, ensure_ssh_key_secret}
use nio.Infra.Server.{nix_store_http_port, replicas_of, host_of, desired_stateful_set, served}

-- nixStoreRequeue, in seconds
abbrev pub nix_store_requeue : ℕ
nix_store_requeue = 30

abbrev pub observed : NixStore → NixStore
observed store = record store { observed_generation = store.generation }

module _ (r : InfraReconciler NixStore) where
  abbrev pub put_condition : String → ConditionStatus → String → Message → NixStore → NixStore
  put_condition type status reason message store = record store {
    conditions = r.meta.set_status_condition store.conditions (record {
      type = type;
      status = status;
      observed_generation = store.generation;
      reason = reason;
      message = message;
    });
  }

  -- The status that an error leaves.
  unfoldable pub degraded : String → Error → NixStore → NixStore
  degraded reason cause store =
      put_condition condition_ready condition_false reason (message_of cause) (
        put_condition condition_stalled condition_true reason (message_of cause)
          (record store { phase = phase_degraded }))

  -- fail: an error of the status update is only logged.
  unfoldable pub failed : String → Error → InfraStep NixStore Requeue
  failed reason cause = do change (degraded reason cause); _ ← attempt (write_status r); fail cause

  -- `if v, err := f(); err != nil { return r.fail(ctx, &store, reason, err) }`
  abbrev pub or_failed :
      {B : Type 0}
      → String
      → (B → InfraStep NixStore Requeue)
      → Result B
      → InfraStep NixStore Requeue
  or_failed reason rest (ok b) = rest b
  or_failed reason rest (err e) = failed reason e

  unfoldable pub ensure_service : NixStore → InfraStep NixStore (Unit {0})
  ensure_service store = do
    svc ← service_to_mutate r store.namespace store.name
    owned ← lift (r.services.own_service store (served store svc))
    store_service r owned

  -- Only the mutable fields of a StatefulSet that is there are set.
  abbrev pub updated : StatefulSet → StatefulSet → StatefulSet
  updated desired existing = record existing {
    spec = record existing.spec {
      replicas = desired.spec.replicas;
      template = desired.spec.template;
    };
  }

  abbrev pub stateful_set_answer : StatefulSet → Result StatefulSet → InfraStep NixStore (Unit {0})
  stateful_set_answer desired (ok existing) = write_stateful_set r (updated desired existing)
  stateful_set_answer desired (err e) =
      if is_not_found e then new_stateful_set r desired else fail e

  unfoldable pub ensure_stateful_set : NixStore → InfraStep NixStore (Unit {0})
  ensure_stateful_set store = do
    desired ← lift (r.services.own_stateful_set store (desired_stateful_set store))
    answer ← attempt (get_stateful_set r store.namespace store.name)
    stateful_set_answer desired answer

  -- The endpoints.
  abbrev pub with_endpoints : StatefulSet → String → NixStore → NixStore
  with_endpoints sts public_key store = record store {
    ready_replicas = sts.ready_replicas;
    public_key = public_key;
    substituter_url = "http://" ++ host_of store ++ ":" ++ decimal nix_store_http_port;
    store_uri = "ssh-ng://root@" ++ host_of store;
  }

  -- The phase and the conditions, by the replicas that are ready.
  abbrev pub with_phase : StatefulSet → NixStore → NixStore
  with_phase sts store =
      if leb (replicas_of store) sts.ready_replicas && ltb 0 (replicas_of store)
      then (let ready =
            put_condition condition_ready condition_true "StoreReady" (text "store server is ready")
              (record store { phase = phase_ready }) in
          record ready {
            conditions = r.meta.remove_status_condition ready.conditions condition_stalled;
          })
      else put_condition condition_ready condition_false "StoreNotReady"
          (sprintf "%d/%d server replicas ready"
            (num sts.ready_replicas ∷ num (replicas_of store) ∷ []))
          (record store { phase = phase_pending })

  unfoldable pub published : StatefulSet → String → NixStore → NixStore
  published sts public_key store = with_phase sts (with_endpoints sts public_key store)

  abbrev pub status_answer : Result (Unit {0}) → InfraStep NixStore Requeue
  status_answer (ok _) = pure (requeue_in nix_store_requeue)
  status_answer (err e) = if is_conflict e then pure requeue_now else fail e

  unfoldable pub publish : String → StatefulSet → InfraStep NixStore Requeue
  publish public_key sts = do
    change (published sts public_key)
    answer ← attempt (write_status r)
    status_answer answer

  -- What follows each call that succeeded, the last one first.
  abbrev pub observe : NixStore → String → InfraStep NixStore Requeue
  observe store public_key = do
    answer ← attempt (get_stateful_set r store.namespace store.name)
    or_failed "StatefulSetError" (publish public_key) answer

  abbrev pub after_service : NixStore → String → InfraStep NixStore Requeue
  after_service store public_key = do
    answer ← attempt (ensure_stateful_set store)
    or_failed "StatefulSetError" (λ _. observe store public_key) answer

  abbrev pub after_keys : NixStore → String → InfraStep NixStore Requeue
  after_keys store public_key = do
    answer ← attempt (ensure_service store)
    or_failed "ServiceError" (λ _. after_service store public_key) answer

  abbrev pub after_signing_key : NixStore → String → InfraStep NixStore Requeue
  after_signing_key store public_key = do
    answer ← attempt (ensure_ssh_key_secret r store store.namespace store.name)
    or_failed "SSHKeyError" (λ _. after_keys store public_key) answer

  abbrev pub reconcile_store : NixStore → InfraStep NixStore Requeue
  reconcile_store store = do
    answer ← attempt (ensure_signing_key r store)
    or_failed "SigningKeyError" (after_signing_key store) answer

  -- The store was found.
  unfoldable pub reconcile_found : InfraStep NixStore Requeue
  reconcile_found = do change observed; s ← get; reconcile_store s.object

  abbrev pub start : Result NixStore → Result Requeue × History NixStore
  start (ok store) =
      let done = reconcile_found (record { object = store; history = [] }) in
      (done.0, done.1.history)
  start (err e) = (if is_not_found e then ok no_requeue else err e, [])

  unfoldable pub reconcile : String → String → Result Requeue × History NixStore
  reconcile namespace name = start (r.services.get_object [] namespace name)
