-- ===== src/Infra/Proofs/SafeWrites.antt =====
-- About the NixStore and NixBuilder controllers: what they create and change.
use nio.Prelude.{String, []}
use nio.Kube.{Result, ok, err}
use nio.Api.Builder.{NixStore, NixBuilder}
use nio.Infra.State.{InfraReconciler}
use nio.Infra.Store
use nio.Infra.Builder
use nio.Infra.Proofs.Writes.{SafeWrites}
use nio.Infra.Proofs.StoreWrites
use nio.Infra.Proofs.BuilderWrites

store_start-Safe :
    (r : InfraReconciler NixStore) (answer : Result NixStore)
    → SafeWrites r (Store.start r answer).1
store_start-Safe r (ok store) =
    (StoreWrites.reconcile_found-Safe r).at (record { object = store; history = [] }) tt
store_start-Safe r (err e) = tt

builder_start-Safe :
    (r : InfraReconciler NixBuilder) (answer : Result NixBuilder)
    → SafeWrites r (Builder.start r answer).1
builder_start-Safe r (ok builder) =
    (BuilderWrites.reconcile_found-Safe r).at (record { object = builder; history = [] }) tt
builder_start-Safe r (err e) = tt

-- A reconcile of a NixStore or of a NixBuilder creates a Secret or a StatefulSet only when the
-- server has just answered that it has none of that name, and always with an owner; so a key is
-- never generated over one that is stored. It updates a StatefulSet only as the one it has just
-- read, with the name, the selector, the service name and the volume claims of that one.
pub reconcile-SafeWrites :
    (r : InfraReconciler NixStore) (b : InfraReconciler NixBuilder) (namespace name : String)
    → SafeWrites r (Store.reconcile r namespace name).1
      × SafeWrites b (Builder.reconcile b namespace name).1
unfolding Store.reconcile Builder.reconcile
reconcile-SafeWrites r b namespace name = (
  store_start-Safe r (r.services.get_object [] namespace name),
  builder_start-Safe b (b.services.get_object [] namespace name),
)
