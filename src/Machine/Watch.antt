-- ===== src/Machine/Watch.antt =====
-- findMachinesForSecret: which machines a change of a secret concerns.
use nio.Prelude.{Bool, false, ◌&&◌, ◌||◌, not, List, [], ◌∷◌, ◌++◌, map, ◌==◌, if◌then◌else◌}
use nio.Kube.{Request, Result, ok, err}
use nio.Api.Machine.{Machine}
use nio.Api.Core.{Secret}
use nio.Machine.State.{MachineReconciler}

abbrev pub request_of : Machine → Request
request_of machine = record { name = machine.name; namespace = machine.namespace }

-- The loop that looks for the machine among the requests.
abbrev pub is_requested : List Request → Machine → Bool
is_requested [] machine = false
is_requested (q ∷ qs) machine =
    (q.name == machine.name && q.namespace == machine.namespace) || is_requested qs machine

unfoldable pub add_missing : List Request → List Machine → List Request
add_missing requests [] = requests
add_missing requests (machine ∷ machines) =
    add_missing
      (if not (is_requested requests machine)
        then requests ++ (request_of machine ∷ [])
        else requests)
      machines

abbrev pub with_listed : List Request → Result (List Machine) → List Request
with_listed requests (err e) = requests
with_listed requests (ok machines) = add_missing requests machines

abbrev pub after_keys : MachineReconciler → Secret → Result (List Machine) → List Request
after_keys r secret (err e) = []
after_keys r secret (ok machines) =
    with_listed (map request_of machines)
      (r.services.list_by_ssh_password_secret secret.namespace secret.name)

unfoldable pub find_machines_for_secret : MachineReconciler → Secret → List Request
find_machines_for_secret r secret =
    after_keys r secret (r.services.list_by_ssh_key_secret secret.namespace secret.name)
