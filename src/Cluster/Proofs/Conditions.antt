-- ===== src/Cluster/Proofs/Conditions.antt =====
-- About setConditions: what a reader finds among the conditions of a cluster.
use nio.Prelude.{
  ℕ, String, Bool, true, false, not, ◌&&◌, Option, none, some, ◌≡◌, ◌∙◌, refl, ap, arith, ◌==◌, eqb,
  is_some, if◌then◌else◌,
}
use nio.Kube.{Message, text}
use nio.Kube.Conditions.{Condition, ConditionStatus, condition_true, condition_false, Meta}
use nio.Api.Workload.{NixCronJob}
use nio.Api.Cluster.{NixCluster}
use nio.Api.Names.{
  condition_ready, condition_stalled, condition_git_synced, condition_underprovisioned,
  cluster_ready, reason_succeeded,
}
use nio.Converge.{converge_stall}
use nio.Cluster.Conditions.{
  put, without_stalled, put_underprovisioned, put_git_synced, put_not_ready, put_ready, put_stall,
  set_conditions,
}

abbrev when : Bool → ConditionStatus
when b = if b then condition_true else condition_false

-- The status of a condition, if it is there.
abbrev status_of : Option Condition → Option ConditionStatus
status_of none = none
status_of (some c) = some c.status

module _ (m : Meta) where
  abbrev pub status_found : NixCluster → String → Option ConditionStatus
  status_found cluster t = status_of (m.find_status_condition cluster.status.conditions t)

  found-put :
      (t : String) (st : ConditionStatus) (reason : String) (msg : Message) (u : String)
      (c : NixCluster)
      → status_found (put m t st reason msg c) u ≡ (if t == u then some st else status_found c u)
  found-put t st reason msg u c = rw m.find-set (ground arith)

  found-without :
      (u : String) (c : NixCluster)
      → status_found (without_stalled m c) u
        ≡ (if condition_stalled == u then none else status_found c u)
  found-without u c = rw m.find-remove (ground arith)

  -- A test that picks how the cluster is changed.
  found-if :
      (test : Bool) (c d : NixCluster) (u : String) (answer : Bool → Option ConditionStatus)
      → status_found c u ≡ answer true
      → status_found d u ≡ answer false
      → status_found (if test then c else d) u ≡ answer test
  found-if true c d u answer p q = p
  found-if false c d u answer p q = q

  found-put_underprovisioned :
      (b : Bool) (u : String) (c : NixCluster)
      → status_found (put_underprovisioned m b c) u
        ≡ (if condition_underprovisioned == u then some (when b) else status_found c u)
  unfolding put_underprovisioned
  found-put_underprovisioned true u c = found-put _ _ _ _ u c
  found-put_underprovisioned false u c = found-put _ _ _ _ u c

  found-put_git_synced :
      (cron : NixCronJob) (have : Bool) (u : String) (c : NixCluster)
      → status_found (put_git_synced m cron have c) u ≡ (
          if condition_git_synced == u
          then some (when (have && not (cron.status.workload.resolved_revision == "")))
          else status_found c u)
  unfolding put_git_synced
  found-put_git_synced cron have u c =
      found-if (have && not (cron.status.workload.resolved_revision == "")) _ _ u
        (λ b. if condition_git_synced == u then some (when b) else status_found c u)
        (found-put condition_git_synced _ _ _ u c) (found-put condition_git_synced _ _ _ u c)

  found-put_not_ready :
      (stall : Option Condition) (total : ℕ) (u : String) (c : NixCluster)
      → status_found (put_not_ready m stall total c) u
        ≡ (if condition_ready == u then some condition_false else status_found c u)
  unfolding put_not_ready
  found-put_not_ready (some stall) total u c = found-put condition_ready _ _ _ u c
  found-put_not_ready none total u c =
      found-if (eqb total 0) _ _ u
        (λ b. if condition_ready == u then some condition_false else status_found c u)
        (found-put condition_ready _ _ _ u c) (found-put condition_ready _ _ _ u c)

  abbrev shown_ready : NixCluster → NixCluster
  shown_ready c =
      without_stalled m
        (put m condition_ready condition_true reason_succeeded (text "cluster converged") c)

  found-ready :
      (u : String) (c : NixCluster)
      → (condition_stalled == u) ≡ false
      → status_found (shown_ready c) u
        ≡ (if condition_ready == u then some condition_true else status_found c u)
  found-ready u c n = rw (found-without u, n) (found-put condition_ready _ _ _ u c)

  found-put_ready :
      (stall : Option Condition) (total : ℕ) (u : String) (c : NixCluster)
      → (condition_stalled == u) ≡ false
      → status_found (put_ready m stall total c) u ≡ (
          if condition_ready == u
          then some (when (c.status.phase == cluster_ready))
          else status_found c u)
  unfolding put_ready
  found-put_ready stall total u c n =
      found-if (c.status.phase == cluster_ready) (shown_ready c) (put_not_ready m stall total c) u
        (λ b. if condition_ready == u then some (when b) else status_found c u) (found-ready u c n)
        (found-put_not_ready stall total u c)

  found-put_stall :
      (stall : Option Condition) (u : String) (c : NixCluster)
      → status_found (put_stall m stall c) u ≡ (
          if condition_stalled == u
          then (if is_some stall then some condition_true else none)
          else status_found c u)
  unfolding put_stall
  found-put_stall none u c = found-without u c
  found-put_stall (some stall) u c = found-put _ _ _ _ u c

  phase-put_git_synced :
      (cron : NixCronJob) (have : Bool) (c : NixCluster)
      → (put_git_synced m cron have c).status.phase ≡ c.status.phase
  unfolding put_git_synced
  phase-put_git_synced cron have c = ground arith

  phase-put_underprovisioned :
      (b : Bool) (c : NixCluster) → (put_underprovisioned m b c).status.phase ≡ c.status.phase
  unfolding put_underprovisioned
  phase-put_underprovisioned true c = refl
  phase-put_underprovisioned false c = refl

  module _ (cron : NixCronJob) (have any_under : Bool) (total : ℕ) (c : NixCluster) where
    abbrev pub conditioned : NixCluster
    conditioned = set_conditions m cron have any_under total c

    -- After setConditions, a reader finds `Underprovisioned` True exactly if a group lacks members,
    -- `GitSynced` True exactly if the converge child is there and has resolved a revision, `Ready`
    -- True exactly in the Ready phase, and `Stalled` True if the child is stalled on its
    -- infrastructure and absent otherwise, whatever it was before.
    pub set_conditions_lem :
        (status_found conditioned condition_underprovisioned ≡ some (when any_under))
        × (status_found conditioned condition_git_synced
            ≡ some (when (have && not (cron.status.workload.resolved_revision == ""))))
        × (status_found conditioned condition_ready ≡ some (when (c.status.phase == cluster_ready)))
        × (status_found conditioned condition_stalled
            ≡ (if is_some (converge_stall m cron have) then some condition_true else none))
    unfolding set_conditions
    set_conditions_lem = (
      found-put_stall _ _ _
          ∙ found-put_ready _ total _ _ refl
          ∙ found-put_git_synced cron have _ _
          ∙ found-put_underprovisioned any_under _ c,
      found-put_stall _ _ _ ∙ found-put_ready _ total _ _ refl ∙ found-put_git_synced cron have _ _,
      found-put_stall _ _ _
          ∙ found-put_ready _ total _ _ refl
          ∙ ap (λ p. some (when (p == cluster_ready)))
              (phase-put_git_synced cron have _ ∙ phase-put_underprovisioned any_under c),
      found-put_stall _ _ _,
    )
