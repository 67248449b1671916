-- ===== src/Workload/Proofs/Infra.antt =====
-- About resolveInfra: when the rollout may go on.
use Prim.Native.String.{◌++◌}
use nio.Prelude.{
  String, true, false, not, ◌||◌, Option, none, some, ◌≡◌, refl, ◌⊎◌, inl, inr, arith, ◌==◌, subst,
}
use nio.Kube.{Message, is_not_found, Result, ok, err}
use nio.Kube.Actions.{pure, fail}
use nio.Kube.Ensures.{
  Ensures, Holds, Ensures-pure, Ensures-fail, Ensures-if, Ensures-bind, Ensures-after,
}
use nio.Api.Workload.{NixSpec, NixBuilderSpec}
use nio.Api.Builder.{NixBuilder, NixStore}
use nio.Api.Names.{phase_ready}
use nio.Render.Config.{StoreInfo, BuilderInfo}
use nio.Workload.State.{History, WorkloadReconciler, WorkSt}
use nio.Workload.Infra.{
  InfraDeps, no_deps, not_ready_deps, bad_path, ensure_additional_files_config_map, store_answer,
  store_named, with_store, builder_name, builder_by, ensure_owned_builder, builder_unless,
  infra_unless, ssh_store, with_ssh, infra_builder_answer, builder_named, with_builder,
  resolve_infra,
}
use nio.Workload.Proofs.Quiet.{IsQuiet, Quiet, Keeps-ensure_config_map, Keeps-builder_name}

module _ {A : Type 0} where
  module _ (r : WorkloadReconciler A) where
    -- The store that the workload refers to was read, is Ready and has an endpoint, and is the one
    -- in the result; or there is no reference and no store.
    abbrev pub StoreFor : String → Option String → Option StoreInfo → Type 0
    StoreFor ns none info = info ≡ none
    StoreFor ns (some name) info =
        (h : History A) × (store : NixStore) × (i : StoreInfo) × (r.services.get_store h ns name
          ≡ ok store)
        × ((store.phase == phase_ready) ≡ true)
        × ((store.substituter_url == "") ≡ false)
        × (info ≡ some i)
        × (i.substituter_url ≡ store.substituter_url)
        × (i.public_key ≡ store.public_key)

    -- The builder that a workload asks for: the one that it refers to, or the one of its own.
    abbrev pub wanted_builder : A → NixSpec → Option String
    wanted_builder owner nix = elim nix.builder_ref [
      | some name ↦ some name
      | none ↦ elim nix.builder_template [
        | some template ↦ some (r.kind.name owner ++ "-builder")
        | none ↦ none
      ]
    ]

    -- Likewise the builder of a name; without a name, or with an empty one, there is none.
    abbrev pub BuilderFor : String → Option String → Option BuilderInfo → Type 0
    BuilderFor ns none info = info ≡ none
    BuilderFor ns (some name) info =
        (((name == "") ≡ true) × (info ≡ none))
        ⊎ ((h : History A) × (builder : NixBuilder) × (i : BuilderInfo) × (r.services.get_builder h
                ns name
              ≡ ok builder)
            × (builder.ready ≡ true)
            × ((builder.builder_endpoint == "") ≡ false)
            × (info ≡ some i)
            × (i.endpoint ≡ builder.builder_endpoint))

    -- The rollout is to wait, or what the workload refers to is ready.
    abbrev pub IsReadyFor : String → NixSpec → Option String → InfraDeps → Type 0
    IsReadyFor ns nix wanted deps = elim deps.not_ready [
      | some message ↦ Unit {0}
      | none ↦ StoreFor ns nix.store_ref deps.store × BuilderFor ns wanted deps.builder
    ]

    -- The same, before the builder is looked up.
    abbrev HasStore : String → NixSpec → InfraDeps → Type 0
    HasStore ns nix deps = elim deps.not_ready [
      | some message ↦ Unit {0}
      | none ↦ StoreFor ns nix.store_ref deps.store × (deps.builder ≡ none)
    ]

    -- What a StoreFor needs, for one reference.
    abbrev HasRef : String → Option String → InfraDeps → Type 0
    HasRef ns ref deps = elim deps.not_ready [
      | some message ↦ Unit {0}
      | none ↦ StoreFor ns ref deps.store × (deps.builder ≡ none)
    ]

    answer-HasRef :
        (owner : A) (name : String) (h : History A) (answer : Result NixStore)
        → r.services.get_store h (r.kind.namespace owner) name ≡ answer
        → Ensures Quiet
            (HasRef (r.kind.namespace owner) (some name))
            (store_answer r owner name no_deps answer)
    answer-HasRef owner name h (err x) e =
        let R = HasRef (r.kind.namespace owner) (some name) in
        Ensures-if R (pure _) (fail x) (is_not_found x) (λ _. Ensures-fail R x)
          (λ _. Ensures-pure R _ tt)
    answer-HasRef owner name h (ok store) e =
        let R = HasRef (r.kind.namespace owner) (some name) in
        Ensures-if R (pure _) (pure _)
          (not (store.phase == phase_ready) || store.substituter_url == "")
          (λ t.
            Ensures-pure R _ ((h, store, _, e, ground arith, ground arith, refl, refl, refl), refl))
          (λ _. Ensures-pure R _ tt)

    store_named-HasRef :
        (owner : A) (ref : Option String)
        → Ensures Quiet (HasRef (r.kind.namespace owner) ref) (store_named r owner no_deps ref)
    store_named-HasRef owner none =
        Ensures-pure (HasRef (r.kind.namespace owner) none) no_deps (refl, refl)
    store_named-HasRef owner (some name) = record {
      keeps = λ s h. (answer-HasRef owner name s.history _ refl).keeps s h;
      gives = λ s h. (answer-HasRef owner name s.history _ refl).gives s h;
    }

    with_ssh-IsReadyFor :
        (ns : String) (nix : NixSpec) (name : String) (builder : NixBuilder) (deps : InfraDeps)
        (ref : Option String) (h : History A)
        → deps.not_ready ≡ none
        → StoreFor ns nix.store_ref deps.store
        → r.services.get_builder h ns name ≡ ok builder
        → builder.ready ≡ true
        → (builder.builder_endpoint == "") ≡ false
        → IsReadyFor ns nix (some name) (with_ssh r builder deps ref)
    with_ssh-IsReadyFor ns nix name builder deps none h free store e ready endpoint =
        rw free (store, inr (h, builder, _, e, ready, endpoint, refl, refl))
    with_ssh-IsReadyFor ns nix name builder deps (some ref) h free store e ready endpoint =
        rw free (store, inr (h, builder, _, e, ready, endpoint, refl, refl))

    answer-IsReadyFor :
        (ns : String) (nix : NixSpec) (name : String) (deps : InfraDeps) (h : History A)
        (answer : Result NixBuilder)
        → r.services.get_builder h ns name ≡ answer
        → deps.not_ready ≡ none
        → StoreFor ns nix.store_ref deps.store
        → Ensures Quiet
            (IsReadyFor ns nix (some name))
            (infra_builder_answer r nix name deps answer)
    answer-IsReadyFor ns nix name deps h (err x) e free store =
        Ensures-if (IsReadyFor ns nix (some name)) (pure _) (fail x) (is_not_found x)
          (λ _. Ensures-fail (IsReadyFor ns nix (some name)) x)
          (λ _. Ensures-pure (IsReadyFor ns nix (some name)) _ tt)
    answer-IsReadyFor ns nix name deps h (ok builder) e free store =
        Ensures-if (IsReadyFor ns nix (some name)) (pure _) (pure _)
          (not builder.ready || builder.builder_endpoint == "")
          (λ t. Ensures-pure (IsReadyFor ns nix (some name)) _ (
            with_ssh-IsReadyFor ns nix name builder deps (ssh_store r builder nix) h free store e
              (ground arith) (ground arith)))
          (λ _. Ensures-pure (IsReadyFor ns nix (some name)) _ tt)

    builder_named-IsReadyFor :
        (owner : A) (nix : NixSpec) (deps : InfraDeps) (name : Option String)
        → deps.not_ready ≡ none
        → StoreFor (r.kind.namespace owner) nix.store_ref deps.store
        → deps.builder ≡ none
        → Ensures Quiet
            (IsReadyFor (r.kind.namespace owner) nix name)
            (builder_named r owner nix deps name)
    builder_named-IsReadyFor owner nix deps none ready store free =
        Ensures-pure (IsReadyFor (r.kind.namespace owner) nix none) deps (rw ready (store, free))
    builder_named-IsReadyFor owner nix deps (some name) ready store free =
        let ns = r.kind.namespace owner in
        Ensures-if (IsReadyFor ns nix (some name)) (pure deps) _ (name == "")
          (λ _. record {
            keeps =
                λ s h. (answer-IsReadyFor ns nix name deps s.history _ refl ready store).keeps s h;
            gives =
                λ s h. (answer-IsReadyFor ns nix name deps s.history _ refl ready store).gives s h;
          })
          (λ t. Ensures-pure (IsReadyFor ns nix (some name)) deps (rw ready (store, inl (t, free))))

    owned-IsWanted :
        (owner : A) (nix : NixSpec) (ref : Option String) (template : Option NixBuilderSpec)
        (s : WorkSt A)
        → Holds
            (λ name. name ≡ elim ref [
              | some n ↦ some n
              | none ↦ elim template [
                | some t ↦ some (r.kind.name owner ++ "-builder")
                | none ↦ none
              ]
            ])
            (builder_by r owner nix ref template s).0
    unfolding ensure_owned_builder
    owned-IsWanted owner nix (some n) template s = refl
    owned-IsWanted owner nix none none s = refl
    owned-IsWanted owner nix none (some t) s = ground arith

    builder_name-IsWanted :
        (owner : A) (nix : NixSpec)
        → Ensures Quiet (λ name. name ≡ wanted_builder owner nix) (builder_name r owner nix)
    unfolding builder_name
    builder_name-IsWanted owner nix = record {
      keeps = (Keeps-builder_name r owner nix).at;
      gives = λ s h. owned-IsWanted owner nix nix.builder_ref nix.builder_template s;
    }

    builder_unless-IsReadyFor :
        (owner : A) (nix : NixSpec) (deps : InfraDeps) (message : Option Message)
        → deps.not_ready ≡ message
        → HasStore (r.kind.namespace owner) nix deps
        → Ensures Quiet
            (IsReadyFor (r.kind.namespace owner) nix (wanted_builder owner nix))
            (builder_unless r owner nix deps message)
    builder_unless-IsReadyFor owner nix deps (some m) e h =
        Ensures-pure (IsReadyFor (r.kind.namespace owner) nix (wanted_builder owner nix)) deps
          (rw e tt)
    builder_unless-IsReadyFor owner nix deps none e h =
        let (store, free) = rw e at h in
        Ensures-bind (λ name. name ≡ wanted_builder owner nix)
          (IsReadyFor (r.kind.namespace owner) nix (wanted_builder owner nix))
          (builder_name r owner nix) _ (builder_name-IsWanted owner nix)
          (λ name same.
            subst
              (λ wanted.
                Ensures Quiet (IsReadyFor (r.kind.namespace owner) nix wanted)
                  (builder_named r owner nix deps name))
              same (builder_named-IsReadyFor owner nix deps name e store free))

    store-HasStore :
        (owner : A) (nix : NixSpec)
        → Ensures Quiet (HasStore (r.kind.namespace owner) nix) (with_store r owner nix no_deps)
    unfolding with_store
    store-HasStore owner nix = store_named-HasRef owner nix.store_ref

    with_builder-IsReadyFor :
        (owner : A) (nix : NixSpec) (deps : InfraDeps)
        → HasStore (r.kind.namespace owner) nix deps
        → Ensures Quiet
            (IsReadyFor (r.kind.namespace owner) nix (wanted_builder owner nix))
            (with_builder r owner nix deps)
    unfolding with_builder
    with_builder-IsReadyFor owner nix deps h =
        builder_unless-IsReadyFor owner nix deps deps.not_ready refl h

    infra_unless-IsReadyFor :
        (owner : A) (nix : NixSpec) (m : Option Message)
        → Ensures Quiet
            (IsReadyFor (r.kind.namespace owner) nix (wanted_builder owner nix))
            (infra_unless r owner nix m)
    infra_unless-IsReadyFor owner nix (some m) =
        Ensures-pure (IsReadyFor (r.kind.namespace owner) nix (wanted_builder owner nix))
          (not_ready_deps m no_deps) tt
    infra_unless-IsReadyFor owner nix none =
        Ensures-after (IsReadyFor (r.kind.namespace owner) nix (wanted_builder owner nix))
          (ensure_additional_files_config_map r owner nix) _ (Keeps-ensure_config_map r owner nix)
          (λ _.
            Ensures-bind (HasStore (r.kind.namespace owner) nix)
              (IsReadyFor (r.kind.namespace owner) nix (wanted_builder owner nix))
              (with_store r owner nix no_deps) _ (store-HasStore owner nix)
              (λ deps h. with_builder-IsReadyFor owner nix deps h))

    pub infra-IsReadyFor :
        (owner : A) (nix : NixSpec)
        → Ensures Quiet
            (IsReadyFor (r.kind.namespace owner) nix (wanted_builder owner nix))
            (resolve_infra r owner nix)
    unfolding resolve_infra
    infra-IsReadyFor owner nix = infra_unless-IsReadyFor owner nix (bad_path nix)

-- Looking up the infrastructure makes no call on a Job, a CronJob, a
-- Deployment or a StatefulSet; and when it answers, the
-- rollout is to wait, or all that the workload asks for is ready: the store that it refers to was
-- read, is Ready and has an endpoint, and so has the builder that it refers to, or else the one that
-- its template makes, named after it; and these are the endpoints in the answer. Without a reference
-- to a store, or to a builder and a template, there is none (nor for an empty reference).
pub resolve_infra-IsReadyFor :
    {A : Type 0} (r : WorkloadReconciler A) (owner : A) (nix : NixSpec) (s : WorkSt A)
    → IsQuiet s.history
    → IsQuiet (resolve_infra r owner nix s).1.history
      × Holds
          (IsReadyFor r (r.kind.namespace owner) nix (wanted_builder r owner nix))
          (resolve_infra r owner nix s).0
resolve_infra-IsReadyFor r owner nix s quiet =
    ((infra-IsReadyFor r owner nix).keeps s quiet, (infra-IsReadyFor r owner nix).gives s quiet)
