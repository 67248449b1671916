-- ===== src/Workload/Watch.antt =====
-- The indexes of the workloads, and which workloads an event of a Secret or a Flux source concerns
-- (internal/controller/nixworkload_watches.go).
use nio.Prelude.{String, List, [], ◌∷◌, Option, none, some, map}
use nio.Kube.{Request, Result, ok, err}
use nio.Api.Workload.{NixSource, FluxSourceRef}
use nio.Workload.State.{Kind}

-- The values of an object under IndexByCredentialsSecret.
abbrev secret_keys : Option String → List String
secret_keys none = []
secret_keys (some name) = name ∷ []

unfoldable pub credentials_secret_index : NixSource → List String
credentials_secret_index src = secret_keys src.credentials_ref

-- The values of an object under IndexByFluxSource.
abbrev flux_keys : Option FluxSourceRef → List String
flux_keys none = []
flux_keys (some ref) = ref.name ∷ []

unfoldable pub flux_source_index : NixSource → List String
flux_source_index src = flux_keys src.flux_source_ref

module _ {A : Type 0} (kind : Kind A) where
  abbrev request_of : A → Request
  request_of object = record { name = kind.name object; namespace = kind.namespace object }

  abbrev requests_of : Result (List A) → List Request
  requests_of (ok items) = map request_of items
  requests_of (err e) = []

  -- `list_by` is the List by namespace and by the index; the arguments are those of the event.
  unfoldable pub enqueue_by_index :
      (String → String → Result (List A)) → String → String → List Request
  enqueue_by_index list_by namespace name = requests_of (list_by namespace name)
