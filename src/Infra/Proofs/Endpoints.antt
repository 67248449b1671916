-- ===== src/Infra/Proofs/Endpoints.antt =====
-- About the status of a NixStore and of a NixBuilder, as resolveInfra reads it for a workload.
use Prim.Native.String.{◌++◌}
use nio.Prelude.{
  ◌≤◌, ◌<◌, String, ◌&&◌, [], ◌∷◌, Option, none, some, ◌≡◌, refl, arith, ltb, leb, ◌⊎◌, inl, inr,
  Bool-cases,
}
use nio.Prelude.Decimal.{decimal}
use nio.Prelude.TextLaws.{append-not_empty}
use nio.Kube.{sprintf, str, ok}
use nio.Api.Workload.{NixSpec}
use nio.Api.Builder.{NixStore, NixBuilder}
use nio.Api.Rollout.{StatefulSet}
use nio.Render.Config.{BuilderInfo}
use nio.Workload.State.{WorkloadReconciler, WorkSt}
use nio.Workload.Infra.{
  InfraDeps, not_ready_deps, store_answer, infra_builder_answer, ssh_store, with_ssh,
}
use nio.Infra.State.{InfraReconciler}
use nio.Infra.Server
use nio.Infra.Server.{replicas_of}
use nio.Infra.Store
use nio.Infra.Builder

-- What a store that is Ready gives to a workload: its own substituter, public key and push URL.
abbrev pub store_deps : NixStore → InfraDeps → InfraDeps
store_deps store deps = record deps {
  store = some (record {
    substituter_url = store.substituter_url;
    public_key = store.public_key;
    push_url = store.store_uri;
  });
}

module _ {A : Type 0} (w : WorkloadReconciler A) (r : InfraReconciler NixStore) where
  -- What resolveInfra makes of the status that the controller publishes.
  abbrev pub IsUsed : A → String → InfraDeps → StatefulSet → String → NixStore → WorkSt A → Type 0
  IsUsed owner name deps sts public_key store s =
      let after = Store.published r sts public_key store in
      ((replicas_of store ≤ sts.ready_replicas)
        × (0 < replicas_of store)
        × (store_answer w owner name deps (ok after) s ≡ (ok (store_deps after deps), s))
        × (after.public_key ≡ public_key))
      ⊎ (((sts.ready_replicas < replicas_of store) ⊎ (replicas_of store ≡ 0))
          × (store_answer w owner name deps (ok after) s
              ≡ (ok (not_ready_deps (sprintf "NixStore %q not ready" (str name ∷ [])) deps), s)))

  published-IsUsed :
      (owner : A) (name : String) (deps : InfraDeps) (sts : StatefulSet) (public_key : String)
      (store : NixStore) (s : WorkSt A)
      → w.kind.namespace owner ≡ store.namespace
      → IsUsed owner name deps sts public_key store s
  unfolding Store.published
  published-IsUsed owner name deps sts public_key store s same =
      elim (Bool-cases (leb (replicas_of store) sts.ready_replicas && ltb 0 (replicas_of store))) [
        | inl t ↦
            rw
              (
                t,
                append-not_empty "http://"
                    (Server.host_of store ++ ":" ++ decimal Server.nix_store_http_port) refl,
                same,
              )
              (inl (ground arith, ground arith, refl, refl))
        | inr f ↦ rw f (inr (ground arith, refl))
      ]

module _ {A : Type 0} (w : WorkloadReconciler A) (r : InfraReconciler NixBuilder) where
  -- The builder is the one of the workload, at the endpoint of its status.
  abbrev pub IsDispatched : NixBuilder → InfraDeps → InfraDeps → Type 0
  IsDispatched builder deps found =
      (i : BuilderInfo) × (found.builder ≡ some i)
      × (i.endpoint ≡ builder.builder_endpoint)
      × (i.systems ≡ builder.spec.systems)
      × (found.store ≡ deps.store)
      × (found.not_ready ≡ deps.not_ready)

  abbrev pub IsUsedBuilder :
      NixSpec → String → InfraDeps → StatefulSet → NixBuilder → WorkSt A → Type 0
  IsUsedBuilder nix name deps sts builder s =
      let after = Builder.published r sts builder in
      ((0 < sts.ready_replicas)
        × ((found : InfraDeps) × (infra_builder_answer w nix name deps (ok after) s ≡ (ok found, s))
            × IsDispatched after deps found))
      ⊎ ((sts.ready_replicas ≡ 0)
          × (infra_builder_answer w nix name deps (ok after) s
              ≡ (ok (not_ready_deps (sprintf "NixBuilder %q not ready" (str name ∷ [])) deps), s)))

  with_ssh-IsDispatched :
      (builder : NixBuilder) (deps : InfraDeps) (ref : Option String)
      → IsDispatched builder deps (with_ssh w builder deps ref)
  with_ssh-IsDispatched builder deps none = (_, refl, refl, refl, refl, refl)
  with_ssh-IsDispatched builder deps (some store) = (_, refl, refl, refl, refl, refl)

  published-IsUsedBuilder :
      (nix : NixSpec) (name : String) (deps : InfraDeps) (sts : StatefulSet) (builder : NixBuilder)
      (s : WorkSt A)
      → IsUsedBuilder nix name deps sts builder s
  unfolding Builder.published
  published-IsUsedBuilder nix name deps sts builder s =
      elim (Bool-cases (leb 1 sts.ready_replicas)) [
        | inl t ↦
            rw
              (
                t,
                append-not_empty "ssh-ng://root@"
                    (builder.name ++ "." ++ builder.namespace ++ ".svc") refl,
              )
              (inl (
                ground arith,
                (
                  _,
                  refl,
                  with_ssh-IsDispatched (Builder.with_endpoint r sts builder) deps
                      (ssh_store w builder nix),
                ),
              ))
        | inr f ↦ rw f (inr (ground arith, refl))
      ]

module _ {A : Type 0} (w : WorkloadReconciler A) (r : InfraReconciler NixStore)
    (b : InfraReconciler NixBuilder) where
  -- The two controllers and resolveInfra agree. Of a store, in the namespace of the workload, the
  -- workload uses the endpoint, the push URL and the public key that the controller publishes,
  -- exactly when as many replicas are ready as the spec asks for, one at least; else it waits. Of a
  -- builder it uses the endpoint that the controller publishes exactly when a replica is ready.
  pub published-AreUsed :
      (owner : A) (nix : NixSpec) (store_name builder_name : String) (deps : InfraDeps)
      (sts : StatefulSet) (public_key : String) (store : NixStore) (builder : NixBuilder)
      (s : WorkSt A)
      → w.kind.namespace owner ≡ store.namespace
      → IsUsed w r owner store_name deps sts public_key store s
        × IsUsedBuilder w b nix builder_name deps sts builder s
  published-AreUsed owner nix store_name builder_name deps sts public_key store builder s same = (
    published-IsUsed w r owner store_name deps sts public_key store s same,
    published-IsUsedBuilder w b nix builder_name deps sts builder s,
  )
