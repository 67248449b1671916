-- ===== src/Cluster/Watch.antt =====
-- findClustersForMachine: the clusters that a change of a machine concerns.
use nio.Prelude.{String, List, [], map}
use nio.Kube.{Request, Result, ok, err}
use nio.Api.Machine.{Machine}
use nio.Api.Cluster.{NixCluster}

abbrev request_of : NixCluster → Request
request_of cluster = record { name = cluster.name; namespace = cluster.namespace }

abbrev requests_of : Result (List NixCluster) → List Request
requests_of (ok clusters) = map request_of clusters
requests_of (err e) = []

-- `list` is the List by namespace.
unfoldable pub find_clusters_for_machine :
    (String → Result (List NixCluster)) → Machine → List Request
find_clusters_for_machine list machine = requests_of (list machine.namespace)
