-- ===== src/GitAuth/Proofs.antt =====
-- About ExecGitResolver.LsRemote: what is left of the credentials.
use nio.Prelude.{String, true, List, [], ◌∷◌, Option, none, some, ◌≡◌, ◌⊎◌}
use nio.Prelude.Texts.{path_join}
use nio.Prelude.Members.{contains}
use nio.Kube.{Result, ok, err}
use nio.GitAuth.Exec.{made, removed, wrote, ran, Calls, Host, Env}

-- A file of one of the directories.
abbrev pub IsWithin : List String → String → Type 0
IsWithin gone path =
    (dir : String) × (file : String) × (path ≡ path_join dir file) × (contains gone dir ≡ true)

-- From the latest call back: every directory that was made is removed later, and every file was
-- written into a directory that is removed later, for its owner only.
abbrev pub IsCleaned : List String → Calls → Type 0
IsCleaned gone [] = Unit {0}
IsCleaned gone (made dir ∷ h) = (contains gone dir ≡ true) × IsCleaned gone h
IsCleaned gone (removed dir ∷ h) = IsCleaned (dir ∷ gone) h
IsCleaned gone (wrote path content mode ∷ h) =
    IsWithin gone path × ((mode ≡ 0o600) ⊎ (mode ≡ 0o700)) × IsCleaned gone h
IsCleaned gone (ran argv vars ∷ h) = IsCleaned gone h

-- What the cleanup will remove.
abbrev pending : Option String → List String
pending none = []
pending (some dir) = dir ∷ []

-- Of an action: an error leaves nothing, and the cleanup of an answer would leave nothing.
abbrev IsOwed : Result Env × Calls → Type 0
IsOwed (ok (vars, dir), h) = IsCleaned (pending dir) h
IsOwed (err e, h) = IsCleaned [] h

module _ (g : Host) where
  -- In the directory that was made first.
  abbrev InDir : String → Calls → Type 0
  InDir dir h = IsCleaned (dir ∷ []) h
