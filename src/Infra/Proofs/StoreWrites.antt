-- ===== src/Infra/Proofs/StoreWrites.antt =====
-- About the reconcile of a NixStore: what it creates and changes.
use nio.Prelude.{String, Option, none, some, ◌≡◌, refl, Bool-cases, inl, inr}
use nio.Kube.{Error, is_not_found, Result, ok, err, Requeue}
use nio.Kube.Actions.{◌>>=◌, attempt, fail, get}
use nio.Kube.Keeps.{Keeps, Keeps-bind, Keeps-attempt, keeps_rules}
use nio.Kube.Binds.{Result-cases}
use nio.Api.Core.{Secret}
use nio.Api.Builder.{NixStore}
use nio.Api.Rollout.{StatefulSet}
use nio.Infra.State.{InfraReconciler, InfraSt, InfraStep, write_status}
use nio.Infra.Keys.{
  generated_secret_name, generate_nix_signing_key, generated_answer, referenced_answer,
  signing_key_by, ensure_signing_key,
}
use nio.Infra.Server
use nio.Infra.Store
use nio.Infra.Proofs.Writes.{
  Safe, Keeps-then, Keeps-write_status, Keeps-get_stateful_set, Keeps-service_to_mutate,
  Keeps-store_service, create_key_secret-Safe, new_stateful_set-Safe, write_stateful_set-Safe,
  same_rest, signing_pair-same, Keeps-ssh_key,
}

module _ (r : InfraReconciler NixStore) where
  generated-Safe :
      (store : NixStore) (answer : Result Secret) (s : InfraSt NixStore)
      → r.services.get_secret s.history store.namespace (generated_secret_name store) ≡ answer
      → Safe r s
      → Safe r (generated_answer r store answer s).1
  generated-Safe store (ok secret) s e h = h
  generated-Safe store (err x) s e h = elim (Bool-cases (is_not_found x)) [
    | inr n ↦ rw n h
    | inl n ↦ rw n (
        same_rest r (generate_nix_signing_key r _ s) _ s (signing_pair-same r _ s)
          (λ pair. create_key_secret-Safe r store _ _ _ _ x s e n h) h)
  ]

  Keeps-referenced :
      (name : String) (answer : Result Secret) → Keeps (Safe r) (referenced_answer r name answer)
  Keeps-referenced name (ok secret) = search keeps_rules
  Keeps-referenced name (err e) = search keeps_rules

  Keeps-signing_by :
      (store : NixStore) (ref : Option String) → Keeps (Safe r) (signing_key_by r store ref)
  Keeps-signing_by store (some name) = record {
    at = λ s h.
        (Keeps-referenced name (r.services.get_secret s.history store.namespace name)).at s h;
  }
  Keeps-signing_by store none = record { at = λ s h. generated-Safe store _ s refl h }

  Keeps-signing_key : (store : NixStore) → Keeps (Safe r) (ensure_signing_key r store)
  unfolding ensure_signing_key
  Keeps-signing_key store = Keeps-signing_by store store.spec.signing_key_secret_ref

  Keeps-service : (store : NixStore) → Keeps (Safe r) (Store.ensure_service r store)
  unfolding Store.ensure_service
  Keeps-service store =
      search (keeps_rules, Keeps-service_to_mutate r, Keeps-store_service r) depth 7

  stateful_set-Safe :
      (store : NixStore) (desired : StatefulSet) (answer : Result StatefulSet)
      (s : InfraSt NixStore)
      → r.services.own_stateful_set store (Server.desired_stateful_set store) ≡ ok desired
      → r.services.get_stateful_set s.history store.namespace store.name ≡ answer
      → Safe r s
      → Safe r (Store.stateful_set_answer r desired answer s).1
  unfolding Server.desired_stateful_set
  stateful_set-Safe store desired (ok existing) s o e h =
      write_stateful_set-Safe r (Store.updated r desired existing) s
        (store.namespace, store.name, existing, e, refl, refl, refl, refl, refl) h
  stateful_set-Safe store desired (err x) s o e h = elim (Bool-cases (is_not_found x)) [
    | inr n ↦ rw n h
    | inl n ↦
        rw n (
          new_stateful_set-Safe r desired s (Server.desired_stateful_set store, store, x, o, e, n)
            h)
  ]

  Keeps-stateful_set : (store : NixStore) → Keeps (Safe r) (Store.ensure_stateful_set r store)
  unfolding Store.ensure_stateful_set
  Keeps-stateful_set store = record {
    at = λ s h.
        elim (Result-cases
          (r.services.own_stateful_set store (Server.desired_stateful_set store))) [
            | inr (x, o) ↦ rw o h
            | inl (desired, o) ↦ rw o (stateful_set-Safe store desired _ s o refl h)
          ];
  }

  Keeps-failed : (reason : String) (e : Error) → Keeps (Safe r) (Store.failed r reason e)
  unfolding Store.failed
  Keeps-failed reason e =
      Keeps-then r (Store.degraded r reason e) (attempt (write_status r) >>= λ _. fail e)
        (search (keeps_rules, Keeps-write_status r) depth 7)

  Keeps-status_answer : (answer : Result (Unit {0})) → Keeps (Safe r) (Store.status_answer r answer)
  Keeps-status_answer (ok _) = search keeps_rules
  Keeps-status_answer (err e) = search keeps_rules depth 5

  Keeps-publish :
      (public_key : String) (sts : StatefulSet) → Keeps (Safe r) (Store.publish r public_key sts)
  unfolding Store.publish
  Keeps-publish public_key sts =
      Keeps-then r (Store.published r sts public_key)
        (attempt (write_status r) >>= λ answer. Store.status_answer r answer)
        (Keeps-bind (attempt (write_status r)) _
          (Keeps-attempt (write_status r) (Keeps-write_status r)) Keeps-status_answer)

  Keeps-or_failed :
      {B : Type 0} (reason : String) (rest : B → InfraStep NixStore Requeue) (answer : Result B)
      → ((b : B) → Keeps (Safe r) (rest b))
      → Keeps (Safe r) (Store.or_failed r reason rest answer)
  Keeps-or_failed reason rest (ok b) k = k b
  Keeps-or_failed reason rest (err e) k = Keeps-failed reason e

  Keeps-reconcile_store : (store : NixStore) → Keeps (Safe r) (Store.reconcile_store r store)
  Keeps-reconcile_store store =
      search
        (
          keeps_rules,
          Keeps-or_failed,
          Keeps-signing_key,
          Keeps-ssh_key r,
          Keeps-service,
          Keeps-stateful_set,
          Keeps-get_stateful_set r,
          Keeps-publish,
        )
        depth 20

  pub reconcile_found-Safe : Keeps (Safe r) (Store.reconcile_found r)
  unfolding Store.reconcile_found
  reconcile_found-Safe =
      Keeps-then r Store.observed (get >>= λ s. Store.reconcile_store r s.object)
        (search (keeps_rules, Keeps-reconcile_store) depth 7)
