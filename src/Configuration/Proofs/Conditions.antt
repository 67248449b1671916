-- ===== src/Configuration/Proofs/Conditions.antt =====
-- About setPhase: the conditions that it derives from a phase.
use nio.Prelude.{
  ℕ, String, Bool, true, false, not, ◌||◌, Option, none, some, ◌≡◌, refl, arith, ◌==◌,
  if◌then◌else◌,
}
use nio.Kube.{Message}
use nio.Kube.Conditions.{Condition, condition_true}
use nio.Api.Configuration.{NixosConfiguration}
use nio.Api.Names.{
  condition_ready, condition_stalled, condition_reconciling, condition_applied,
  condition_git_synced, reason_waiting, reason_config_applied,
}
use nio.Configuration.State.{Reconciler}
use nio.Configuration.Phase.{
  is_ready, is_stalled, when, condition_of, find_condition, put_condition, drop_condition,
  put_stalled, put_git_synced, with_phase, set_phase,
}

module _ (r : Reconciler) where
  find-put :
      (c : Condition) (config : NixosConfiguration) (t : String)
      → find_condition r (put_condition r c config) t
        ≡ (if c.type == t then some c else find_condition r config t)
  unfolding put_condition
  find-put c config t = r.meta.find-set config.status.conditions c t

  find-put_stalled :
      (b : Bool) (c : Condition) (config : NixosConfiguration) (t : String)
      → find_condition r (put_stalled r b c config) t
        ≡ (if c.type == t then (if b then some c else none) else find_condition r config t)
  unfolding put_stalled drop_condition
  find-put_stalled true c config t = find-put c config t
  find-put_stalled false c config t = r.meta.find-remove config.status.conditions c.type t

  find-with_phase :
      (phase : String) (config : NixosConfiguration) (t : String)
      → find_condition r (with_phase r phase config) t ≡ find_condition r config t
  unfolding with_phase
  find-with_phase phase config t = refl

  -- What a reader finds of the condition of the child, or before.
  abbrev pub mirrored : Option Condition → ℕ → Option Condition → Option Condition
  mirrored none gen before = before
  mirrored (some child) gen before =
      some (condition_of gen condition_git_synced child.status child.reason child.message)

  generation-put :
      (c : Condition) (config : NixosConfiguration)
      → (put_condition r c config).generation ≡ config.generation
  unfolding put_condition
  generation-put c config = refl

  generation-put_stalled :
      (b : Bool) (c : Condition) (config : NixosConfiguration)
      → (put_stalled r b c config).generation ≡ config.generation
  unfolding put_stalled drop_condition put_condition
  generation-put_stalled true c config = refl
  generation-put_stalled false c config = refl

  generation-with_phase :
      (phase : String) (config : NixosConfiguration)
      → (with_phase r phase config).generation ≡ config.generation
  unfolding with_phase
  generation-with_phase phase config = refl

  find-put_git_synced :
      (child : Option Condition) (config : NixosConfiguration) (t : String)
      → find_condition r (put_git_synced r child config) t ≡ (
          if condition_git_synced == t
          then mirrored child config.generation (find_condition r config t)
          else find_condition r config t)
  unfolding put_git_synced
  find-put_git_synced none config t = ground arith
  find-put_git_synced (some child) config t = find-put _ config t

  ruleset found = (
    find-put, find-put_stalled, find-with_phase, find-put_git_synced, generation-put,
    generation-put_stalled, generation-with_phase,
  )

  -- setPhase sets the phase, and changes nothing else but the conditions.
  pub phase-set_phase :
      (phase reason : String) (msg : Message) (applied : Bool) (child : Option Condition)
      (config : NixosConfiguration)
      → (set_phase r phase reason msg applied child config).status.phase ≡ phase
  unfolding set_phase put_git_synced put_condition put_stalled drop_condition with_phase
  phase-set_phase phase reason msg applied child config = ground arith

  module _ (phase reason : String) (msg : Message) (applied : Bool) (child : Option Condition)
      (config : NixosConfiguration) where
    abbrev pub after : NixosConfiguration
    after = set_phase r phase reason msg applied child config

    -- After setPhase, a reader finds `Ready` True in the Ready phase and False in every other one;
    -- `Stalled` True in Degraded and Blocked, and absent otherwise; `Reconciling` False in those
    -- three phases and True in every other one; `Applied` True exactly if that was passed; and
    -- `GitSynced` as the child has it, or as before where the child has none.
    pub set_phase_conditions :
        (find_condition r after condition_ready
          ≡ some
              (condition_of config.generation condition_ready (when (is_ready phase)) reason msg))
        × (find_condition r after condition_stalled ≡ (
            if is_stalled phase
            then some (condition_of config.generation condition_stalled condition_true reason msg)
            else none))
        × (find_condition r after condition_reconciling
            ≡ some (
                condition_of config.generation condition_reconciling
                  (when (not (is_ready phase || is_stalled phase)))
                  reason
                  msg))
        × (find_condition r after condition_applied
            ≡ some (
                condition_of config.generation condition_applied
                  (when applied)
                  (if applied then reason_config_applied else reason_waiting)
                  msg))
        × (find_condition r after condition_git_synced
            ≡ mirrored child config.generation (find_condition r config condition_git_synced))
    unfolding set_phase
    set_phase_conditions = (simp found, simp found, simp found, simp found, simp found)
