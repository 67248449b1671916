-- ===== src/Infra/Proofs/Reports.antt =====
-- About the status that a reconcile of a NixStore writes last.
use nio.Prelude.{
  ◌≤◌, ◌<◌, String, true, false, ◌&&◌, ◌∷◌, Option, none, some, ◌≡◌, refl, arith, ltb, leb, ◌⊎◌,
  inl, inr, Bool-cases, if◌then◌else◌,
}
use nio.Kube.{
  Error, is_conflict, message_of, Message, Result, ok, err, Requeue, requeue_now, requeue_in,
}
use nio.Kube.Conditions.{Condition, condition_true, holds}
use nio.Kube.Actions.{◌>>=◌, attempt}
use nio.Kube.Binds.{Result-cases}
use nio.Api.Builder.{NixStore}
use nio.Api.Rollout.{StatefulSet}
use nio.Api.Names.{condition_ready, condition_stalled, phase_ready, phase_degraded, phase_pending}
use nio.Infra.State.{
  update_object_status, History, InfraReconciler, InfraSt, InfraStep, get_stateful_set,
}
use nio.Infra.Keys.{ensure_signing_key, ensure_ssh_key_secret}
use nio.Infra.Server.{replicas_of}
use nio.Infra.Store.{
  nix_store_requeue, degraded, failed, or_failed, published, publish, observe, observed,
  after_service, ensure_service, ensure_stateful_set, after_keys, after_signing_key,
  reconcile_store, reconcile_found,
}

-- The condition is True, with the reason and the message.
abbrev pub IsTrueOf : String → Message → Option Condition → Type 0
IsTrueOf reason message none = ⊥
IsTrueOf reason message (some c) =
    (c.status ≡ condition_true) × (c.reason ≡ reason) × (c.message ≡ message)

-- How the steps ended: the first that failed, with its reason and its error, or else the public key
-- and the StatefulSet that were read.
pub data Outcome : Type 0 where
  stopped : String → Error → Outcome
  completed : String → StatefulSet → Outcome

-- A step before others, of which an error is the end.
abbrev stops :
    {B : Type 0}
    → String
    → Result B × InfraSt NixStore
    → (B → InfraSt NixStore → Outcome × InfraSt NixStore)
    → Outcome × InfraSt NixStore
stops reason (err e, t) rest = (stopped reason e, t)
stops reason (ok b, t) rest = rest b t

module _ (r : InfraReconciler NixStore) where
  abbrev found : NixStore → String → Option Condition
  found store = r.meta.find_status_condition store.conditions

  -- Ready, and as many replicas are ready as the spec asks for, which is one at least.
  abbrev pub IsReady : NixStore → Type 0
  IsReady store =
      (store.phase ≡ phase_ready)
      × (holds (found store condition_ready) ≡ true)
      × (found store condition_stalled ≡ none)
      × (0 < replicas_of store)
      × (replicas_of store ≤ store.ready_replicas)

  -- Not Ready, and too few replicas are ready or none is asked for.
  abbrev pub IsPending : NixStore → Type 0
  IsPending store =
      (store.phase ≡ phase_pending)
      × (holds (found store condition_ready) ≡ false)
      × ((replicas_of store ≡ 0) ⊎ (store.ready_replicas < replicas_of store))

  -- Stalled with the reason and the text of the error, and not Ready.
  abbrev pub IsDegraded : String → Error → NixStore → Type 0
  IsDegraded reason cause store =
      (store.phase ≡ phase_degraded)
      × (holds (found store condition_ready) ≡ false)
      × IsTrueOf reason (message_of cause) (found store condition_stalled)

  -- The steps of the reconcile, in the order of the code: each one only after those before it.
  abbrev last_step : NixStore → String → InfraSt NixStore → Outcome × InfraSt NixStore
  last_step store key t =
      stops "StatefulSetError" (get_stateful_set r store.namespace store.name t)
        (λ sts u. (completed key sts, u))

  abbrev pods_step : NixStore → String → InfraSt NixStore → Outcome × InfraSt NixStore
  pods_step store key t =
      stops "StatefulSetError" (ensure_stateful_set r store t) (λ _ u. last_step store key u)

  abbrev service_step : NixStore → String → InfraSt NixStore → Outcome × InfraSt NixStore
  service_step store key t =
      stops "ServiceError" (ensure_service r store t) (λ _ u. pods_step store key u)

  abbrev ssh_step : NixStore → String → InfraSt NixStore → Outcome × InfraSt NixStore
  ssh_step store key t =
      stops "SSHKeyError" (ensure_ssh_key_secret r store store.namespace store.name t)
        (λ _ u. service_step store key u)

  abbrev pub steps : NixStore → InfraSt NixStore → Outcome × InfraSt NixStore
  steps store s = stops "SigningKeyError" (ensure_signing_key r store s) (ssh_step store)

  -- What is answered after a status update that may have failed.
  abbrev pub status_answered : Option Error → Result Requeue
  status_answered none = ok (requeue_in nix_store_requeue)
  status_answered (some e) = if is_conflict e then ok requeue_now else err e

  -- What the status says and what is answered, by how the steps ended.
  abbrev pub Verdict : Outcome → Result Requeue → Option Error → NixStore → Type 0
  Verdict (stopped reason cause) answer failure store =
      IsDegraded reason cause store × (answer ≡ err cause)
  Verdict (completed key sts) answer failure store =
      (IsReady store ⊎ IsPending store)
      × (store.public_key ≡ key)
      × (store.ready_replicas ≡ sts.ready_replicas)
      × (answer ≡ status_answered failure)

  -- After the calls of the steps comes one more, which is a status update, with the verdict.
  abbrev pub Reports : Outcome × InfraSt NixStore → Result Requeue → History NixStore → Type 0
  Reports ended answer h =
      (store : NixStore) × (failure : Option Error) × (h
        ≡ record { call = update_object_status store; failure = failure } ∷ ended.1.history)
      × Verdict ended.0 answer failure store

  published-cases :
      (sts : StatefulSet) (public_key : String) (store : NixStore)
      → IsReady (published r sts public_key store) ⊎ IsPending (published r sts public_key store)
  unfolding published
  published-cases sts public_key store =
      elim (Bool-cases (leb (replicas_of store) sts.ready_replicas && ltb 0 (replicas_of store))) [
        | inl t ↦ rw t (
            simp (r.meta.find-set, r.meta.find-remove)
              (inl (refl, refl, refl, ground arith, ground arith)))
        | inr f ↦ rw f (simp r.meta.find-set (inr (refl, refl, ground arith)))
      ]

  published_lem :
      (sts : StatefulSet) (public_key : String) (store : NixStore)
      → ((published r sts public_key store).public_key ≡ public_key)
        × ((published r sts public_key store).ready_replicas ≡ sts.ready_replicas)
  unfolding published
  published_lem sts public_key store = ground arith

  degraded-IsDegraded :
      (reason : String) (cause : Error) (store : NixStore)
      → IsDegraded reason cause (degraded r reason cause store)
  unfolding degraded
  degraded-IsDegraded reason cause store = simp r.meta.find-set (refl, refl, (refl, refl, refl))

  failed-Reports :
      (reason : String) (cause : Error) (s : InfraSt NixStore)
      → Reports
          (stopped reason cause, s)
          (failed r reason cause s).0
          (failed r reason cause s).1.history
  unfolding failed
  failed-Reports reason cause s =
      let o = degraded r reason cause s.object in
      let said = degraded-IsDegraded reason cause s.object in
      elim (Result-cases (r.services.update_object_status s.history o)) [
        | inl (stored, e) ↦ rw e (o, none, refl, (said, refl))
        | inr (x, e) ↦ rw e (o, some x, refl, (said, refl))
      ]

  publish-Reports :
      (public_key : String) (sts : StatefulSet) (s : InfraSt NixStore)
      → Reports
          (completed public_key sts, s)
          (publish r public_key sts s).0
          (publish r public_key sts s).1.history
  unfolding publish
  publish-Reports public_key sts s =
      let o = published r sts public_key s.object in
      let cases = published-cases sts public_key s.object in
      let (key, ready) = published_lem sts public_key s.object in
      elim (Result-cases (r.services.update_object_status s.history o)) [
        | inl (stored, e) ↦ rw e (o, none, refl, (cases, key, ready, refl))
        | inr (x, e) ↦ elim (Bool-cases (is_conflict x)) [
          | inl c ↦ rw (e, c) (o, some x, refl, (cases, key, ready, rw c refl))
          | inr c ↦ rw (e, c) (o, some x, refl, (cases, key, ready, rw c refl))
        ]
      ]

  -- An action that ends with the report on the steps.
  record Ends (ended : InfraSt NixStore → Outcome × InfraSt NixStore)
      (m : InfraStep NixStore Requeue) : Type 0 where
    pub at : (s : InfraSt NixStore) → Reports (ended s) (m s).0 (m s).1.history

  or_failed-Ends :
      {B : Type 0} (reason : String) (m : InfraStep NixStore B)
      (rest : B → InfraStep NixStore Requeue)
      (ended : B → InfraSt NixStore → Outcome × InfraSt NixStore)
      → ((b : B) → Ends (ended b) (rest b))
      → Ends (λ s. stops reason (m s) ended) (attempt m >>= or_failed r reason rest)
  or_failed-Ends reason m rest ended k = record { at = λ s. by (m s).0 (m s).1 }
    where
      by :
          (answer : Result _) (s : InfraSt NixStore)
          → Reports
              (stops reason (answer, s) ended)
              (or_failed r reason rest answer s).0
              (or_failed r reason rest answer s).1.history
      by (ok b) s = (k b).at s
      by (err e) s = failed-Reports reason e s

  observe-Ends :
      (store : NixStore) (key : String) → Ends (last_step store key) (observe r store key)
  observe-Ends store key =
      or_failed-Ends "StatefulSetError" (get_stateful_set r store.namespace store.name)
        (publish r key) (λ sts u. (completed key sts, u))
        (λ sts. record { at = publish-Reports key sts })

  service-Ends :
      (store : NixStore) (key : String) → Ends (pods_step store key) (after_service r store key)
  service-Ends store key =
      or_failed-Ends "StatefulSetError" (ensure_stateful_set r store) (λ _. observe r store key)
        (λ _. last_step store key) (λ _. observe-Ends store key)

  keys-Ends :
      (store : NixStore) (key : String) → Ends (service_step store key) (after_keys r store key)
  keys-Ends store key =
      or_failed-Ends "ServiceError" (ensure_service r store) (λ _. after_service r store key)
        (λ _. pods_step store key) (λ _. service-Ends store key)

  signing-Ends :
      (store : NixStore) (key : String) → Ends (ssh_step store key) (after_signing_key r store key)
  signing-Ends store key =
      or_failed-Ends "SSHKeyError" (ensure_ssh_key_secret r store store.namespace store.name)
        (λ _. after_keys r store key) (λ _. service_step store key) (λ _. keys-Ends store key)

  store-Ends : (store : NixStore) → Ends (steps store) (reconcile_store r store)
  store-Ends store =
      or_failed-Ends "SigningKeyError" (ensure_signing_key r store) (after_signing_key r store)
        (ssh_step store) (signing-Ends store)

  -- A reconcile of a NixStore that exists runs five steps in order (the signing key, the SSH key, the
  -- Service, the StatefulSet, and the reading of the StatefulSet), each one only when those before
  -- it succeeded, and then makes exactly one more call, a status update. When a step failed, the
  -- update says Degraded, Stalled with the reason of that step and the text of its error, and not
  -- Ready, and that error is returned. When all succeeded, it publishes the key and the ready
  -- replicas that were read, and says Ready, and not Stalled, exactly when as many replicas are ready
  -- as the spec asks for, one at least, and else Pending and not Ready; a conflict on that update is
  -- tried again at once, any other error of it is returned, and else the next reconcile is after
  -- 30 s.
  pub reconcile_found-Reports :
      (s : InfraSt NixStore)
      → Reports
          (steps (observed s.object) (record s { object = observed s.object }))
          (reconcile_found r s).0
          (reconcile_found r s).1.history
  unfolding reconcile_found
  reconcile_found-Reports s =
      (store-Ends (observed s.object)).at (record s { object = observed s.object })
