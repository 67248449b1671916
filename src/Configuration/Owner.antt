-- ===== src/Configuration/Owner.antt =====
-- machineOwner: the configuration that owns a machine is the earliest one that names it.
use nio.Prelude.{String, Bool, not, List, [], ◌∷◌, some, ◌==◌, if◌then◌else◌}
use nio.Prelude.Order.{str_lt}
use nio.Kube.Times.{Times}
use nio.Kube.Actions.{◌>>=◌, pure, get}
use nio.Api.Configuration.{NixosConfiguration}
use nio.Configuration.State.{Step, Reconciler, list_configs}

unfoldable pub config_earlier : Times → NixosConfiguration → NixosConfiguration → Bool
config_earlier t a b =
    if t.equal (some a.creation_timestamp) (some b.creation_timestamp)
    then str_lt a.name b.name
    else t.before (some a.creation_timestamp) (some b.creation_timestamp)

-- The body of the loop over the configurations of the namespace.
unfoldable pub winner_after :
    Times → NixosConfiguration → NixosConfiguration → NixosConfiguration → NixosConfiguration
winner_after t config winner c =
    if not (c.spec.machine_ref == config.spec.machine_ref)
    then winner
    else if c.name == config.name
    then winner
    else if config_earlier t c winner
    then c
    else winner

unfoldable pub winner_from :
    Times → NixosConfiguration → NixosConfiguration → List NixosConfiguration → NixosConfiguration
winner_from t config winner [] = winner
winner_from t config winner (c ∷ cs) = winner_from t config (winner_after t config winner c) cs

-- The owner, by the listed configurations.
unfoldable pub owner_among : Times → NixosConfiguration → List NixosConfiguration → String
owner_among t config items = (winner_from t config config items).name

unfoldable pub machine_owner : Reconciler → Step String
machine_owner r = do
  s ← get
  items ← list_configs r s.config.namespace
  pure (owner_among r.times s.config items)
