-- ===== src/Infra/Proofs/Writes.antt =====
-- About the calls of the NixStore and NixBuilder controllers that create or change an object.
use nio.Prelude.{
  String, true, [], ◌∷◌, ◌≡◌, sym, subst, refl, arith, Bool-cases, Option-cases, inl, inr,
}
use nio.Kube.{Error, is_not_found, Result, ok, err}
use nio.Kube.Keeps.{Keeps, keeps_rules}
use nio.Kube.Actions.{and_then, ◌>>◌}
use nio.Kube.Binds.{Result-cases}
use nio.Api.Core.{Secret, Service}
use nio.Api.Rollout.{StatefulSet}
use nio.Workload.Infra.{ssh_secret_name}
use nio.Infra.State.{
  Call, update_object_status, create_secret, put_service, create_stateful_set, update_stateful_set,
  History, InfraReconciler, InfraSt, InfraStep, write_status, get_secret, get_stateful_set,
  service_to_mutate, store_service, new_stateful_set, write_stateful_set, change,
}
use nio.Infra.Keys.{
  create_key_secret, reread, created_or_raced, generate_open_ssh_key_pair, generate_nix_signing_key,
  ssh_secret_answer, ensure_ssh_key_secret,
}

module _ {A : Type 0} (r : InfraReconciler A) where
  -- The Secret is the one that was to be created, with an owner, and the server had none of its
  -- name.
  abbrev pub MayCreateSecret : History A → Secret → Type 0
  MayCreateSecret h secret =
      (desired : Secret) × (owner : A) × (x : Error) × (r.services.own_secret owner desired
        ≡ ok secret)
      × (r.services.get_secret h desired.namespace desired.name ≡ err x)
      × (is_not_found x ≡ true)

  abbrev pub MayCreateStatefulSet : History A → StatefulSet → Type 0
  MayCreateStatefulSet h sts =
      (desired : StatefulSet) × (owner : A) × (x : Error) × (r.services.own_stateful_set owner
          desired
        ≡ ok sts)
      × (r.services.get_stateful_set h desired.namespace desired.name ≡ err x)
      × (is_not_found x ≡ true)

  -- The StatefulSet is the one that was read, in the fields that the server does not let change.
  abbrev pub IsUpdateOf : History A → StatefulSet → Type 0
  IsUpdateOf h sts =
      (namespace : String) × (name : String) × (existing : StatefulSet)
      × (r.services.get_stateful_set h namespace name ≡ ok existing)
      × (sts.name ≡ existing.name)
      × (sts.namespace ≡ existing.namespace)
      × (sts.spec.selector ≡ existing.spec.selector)
      × (sts.spec.service_name ≡ existing.spec.service_name)
      × (sts.spec.volume_claim_templates ≡ existing.spec.volume_claim_templates)

  abbrev pub IsSafeCall : History A → Call A → Type 0
  IsSafeCall h (update_object_status object) = Unit {0}
  IsSafeCall h (create_secret secret) = MayCreateSecret h secret
  IsSafeCall h (put_service svc) = Unit {0}
  IsSafeCall h (create_stateful_set sts) = MayCreateStatefulSet h sts
  IsSafeCall h (update_stateful_set sts) = IsUpdateOf h sts

  abbrev pub SafeWrites : History A → Type 0
  SafeWrites [] = Unit {0}
  SafeWrites (e ∷ h) = IsSafeCall h e.call × SafeWrites h

  abbrev pub Safe : InfraSt A → Type 0
  Safe s = SafeWrites s.history

  pub Keeps-then :
      {B : Type 0} (f : A → A) (k : InfraStep A B) → Keeps Safe k → Keeps Safe (change f >> k)
  Keeps-then f k c = record { at = λ s h. c.at (record s { object = f s.object }) h }

  pub Keeps-write_status : Keeps Safe (write_status r)
  Keeps-write_status = record { at = λ s h. ground arith }

  Keeps-get_secret : (namespace name : String) → Keeps Safe (get_secret r namespace name)
  Keeps-get_secret namespace name = record { at = λ s h. h }

  pub Keeps-get_stateful_set :
      (namespace name : String) → Keeps Safe (get_stateful_set r namespace name)
  Keeps-get_stateful_set namespace name = record { at = λ s h. h }

  pub Keeps-service_to_mutate :
      (namespace name : String) → Keeps Safe (service_to_mutate r namespace name)
  Keeps-service_to_mutate namespace name = record { at = λ s h. h }

  pub Keeps-store_service : (svc : Service) → Keeps Safe (store_service r svc)
  Keeps-store_service svc = record { at = λ s h. ground arith }

  pub new_stateful_set-Safe :
      (sts : StatefulSet) (s : InfraSt A)
      → MayCreateStatefulSet s.history sts
      → Safe s
      → Safe (new_stateful_set r sts s).1
  new_stateful_set-Safe sts s may h =
      elim (Option-cases (r.services.create_stateful_set s.history sts)) [
        | inl c ↦ rw c (may, h)
        | inr (y, c) ↦ rw c (may, h)
      ]

  pub write_stateful_set-Safe :
      (sts : StatefulSet) (s : InfraSt A)
      → IsUpdateOf s.history sts
      → Safe s
      → Safe (write_stateful_set r sts s).1
  write_stateful_set-Safe sts s update h =
      elim (Option-cases (r.services.update_stateful_set s.history sts)) [
        | inl c ↦ rw c (update, h)
        | inr (y, c) ↦ rw c (update, h)
      ]

  -- After the Create there is no write.
  Keeps-reread :
      (failing field : String) (e : Error) (answer : Result Secret)
      → Keeps Safe (reread r failing field e answer)
  Keeps-reread failing field e (ok secret) = search keeps_rules
  Keeps-reread failing field e (err x) = search keeps_rules

  Keeps-raced :
      (failing field : String) (secret : Secret) (public_key : String) (answer : Result (Unit {0}))
      → Keeps Safe (created_or_raced r failing field secret public_key answer)
  Keeps-raced failing field secret public_key (ok _) = search keeps_rules
  Keeps-raced failing field secret public_key (err e) =
      search (keeps_rules, Keeps-get_secret, Keeps-reread) depth 7

  pub create_key_secret-Safe :
      (owner : A) (failing field public_key : String) (desired : Secret) (x : Error) (s : InfraSt A)
      → r.services.get_secret s.history desired.namespace desired.name ≡ err x
      → is_not_found x ≡ true
      → Safe s
      → Safe (create_key_secret r owner failing field public_key desired s).1
  create_key_secret-Safe owner failing field public_key desired x s missing n h =
      elim (Result-cases (r.services.own_secret owner desired)) [
        | inr (y, e) ↦ rw e h
        | inl (secret, e) ↦ elim (Option-cases (r.services.create_secret s.history secret)) [
          | inl c ↦ rw (e, c) ((desired, owner, x, e, missing, n), h)
          | inr (y, c) ↦
              rw (e, c)
                ((Keeps-raced failing field desired public_key (err y)).at _
                  ((desired, owner, x, e, missing, n), h))
        ]
      ]

  -- The rest after a call that leaves the state as it is.
  pub same_rest :
      {B C : Type 0} (x : Result B × InfraSt A) (f : B → InfraStep A C) (s : InfraSt A)
      → x.1 ≡ s
      → ((b : B) → Safe (f b s).1)
      → Safe s
      → Safe (and_then x f).1
  same_rest (ok b, t) f s e k h = subst (λ (u : InfraSt A). Safe (f b u).1) (sym e) (k b)
  same_rest (err x, t) f s e k h = subst Safe (sym e) h

  open_ssh_pair-same :
      (comment : String) (s : InfraSt A) → (generate_open_ssh_key_pair r comment s).1 ≡ s
  unfolding generate_open_ssh_key_pair
  open_ssh_pair-same comment s = ground arith

  pub signing_pair-same :
      (key_name : String) (s : InfraSt A) → (generate_nix_signing_key r key_name s).1 ≡ s
  unfolding generate_nix_signing_key
  signing_pair-same key_name s = ground arith

  ssh_answer-Safe :
      (owner : A) (namespace store_name : String) (answer : Result Secret) (s : InfraSt A)
      → r.services.get_secret s.history namespace (ssh_secret_name store_name) ≡ answer
      → Safe s
      → Safe (ssh_secret_answer r owner namespace store_name answer s).1
  ssh_answer-Safe owner namespace store_name (ok secret) s e h = h
  ssh_answer-Safe owner namespace store_name (err x) s e h = elim (Bool-cases (is_not_found x)) [
    | inr n ↦ rw n h
    | inl n ↦ rw n (
        same_rest (generate_open_ssh_key_pair r "nio-remote-build" s) _ s
          (open_ssh_pair-same "nio-remote-build" s)
          (λ pair. create_key_secret-Safe owner _ _ _ _ x s e n h) h)
  ]

  pub Keeps-ssh_key :
      (owner : A) (namespace store_name : String)
      → Keeps Safe (ensure_ssh_key_secret r owner namespace store_name)
  unfolding ensure_ssh_key_secret
  Keeps-ssh_key owner namespace store_name = record {
    at = λ s h. ssh_answer-Safe owner namespace store_name _ s refl h;
  }
