-- ===== src/Configuration/Watch.antt =====
-- findConfigsForMachine and findConfigsForOrphanRemoveJob: which configurations an event concerns.
use nio.Prelude.{String, not, List, [], ◌∷◌, map, ◌==◌, if◌then◌else◌}
use nio.Kube.{Request, Result, ok, err}
use nio.Api.Core.{Labels}
use nio.Api.Workload.{NixJob}
use nio.Api.Machine.{Machine}
use nio.Api.Configuration.{NixosConfiguration}
use nio.Configuration.Ensure.{label_config_name, label_operation, operation_decommission}

abbrev request_of : NixosConfiguration → Request
request_of config = record { name = config.name; namespace = config.namespace }

abbrev requests_of : Result (List NixosConfiguration) → List Request
requests_of (ok configs) = map request_of configs
requests_of (err e) = []

-- `list_by_machine` is the List by namespace and by the field index of the machine's name.
unfoldable pub find_configs_for_machine :
    (String → String → Result (List NixosConfiguration)) → Machine → List Request
find_configs_for_machine list_by_machine machine =
    requests_of (list_by_machine machine.namespace machine.name)

-- labels[key]
unfoldable pub label_value : Labels → String → String
label_value [] key = ""
label_value ((k, v) ∷ labels) key = if k == key then v else label_value labels key

unfoldable pub find_configs_for_orphan_remove_job : NixJob → List Request
find_configs_for_orphan_remove_job job =
    let config = label_value job.labels label_config_name in
    if not (label_value job.labels label_operation == operation_decommission)
    then []
    else if config == ""
    then []
    else record { name = config; namespace = job.namespace } ∷ []
