-- ===== src/Api/ConfigPhase.antt =====
-- NixosConfiguration orchestrator phases (api/v1alpha1/nixosconfiguration_types.go).
use nio.Prelude.{String}

abbrev pub blocked : String
blocked = "Blocked"

abbrev pub installing : String
installing = "Installing"

abbrev pub converging : String
converging = "Converging"

abbrev pub ready : String
ready = "Ready"

abbrev pub degraded : String
degraded = "Degraded"

abbrev pub removing : String
removing = "Removing"
