-- ===== src/Configuration/Proofs/Retries.antt =====
-- About the failure branch of reconcileInstall: the retries and their cap.
use nio.Prelude.{
  ℕ, suc, ◌≤◌, ◌<◌, String, Bool, true, false, ◌∷◌, Option, none, some, ◌≡◌, refl, ◌∙◌, ◌⊎◌, arith,
  ltb, leb, ◌==◌, if◌then◌else◌, Bool-cases, inl, inr, subst, sym, Option-cases,
}
use nio.Kube.{Error, Message, Result, ok, err, is_not_found, Requeue, no_requeue, requeue_in}
use nio.Kube.Conditions.{Condition}
use nio.Api.Workload.{NixJob}
use nio.Api.Configuration.{NixosConfiguration}
use nio.Api.ConfigPhase
use nio.Client.{delete_job}
use nio.Configuration.State.{St, Reconciler}
use nio.Configuration.Phase.{
  set_phase, set_degraded, put_git_synced, put_condition, put_stalled, drop_condition, with_phase,
}
use nio.Configuration.Ensure.{delete_job_if_exists}
use nio.Configuration.Install.{
  requeue_interval, max_install_retries, install_given_up, install_retried, install_failed,
  follow_install,
}
use nio.Configuration.Proofs.Gates.{AtMostEvent}
use nio.Configuration.Proofs.Conditions.{phase-set_phase}

-- What the deletion of a job makes of a failed install: the error, unless the job is gone.
abbrev pub retry_answer : Option Error → Result (Bool × Requeue)
retry_answer none = ok (false, requeue_in requeue_interval)
retry_answer (some e) = if is_not_found e then ok (false, requeue_in requeue_interval) else err e

cap_reached : (n : ℕ) → max_install_retries ≤ n → leb max_install_retries n ≡ true
cap_reached n h = ground arith

below_cap : (n : ℕ) → n < max_install_retries → leb max_install_retries n ≡ false
below_cap n h = ground arith

module _ (r : Reconciler) where
  retries-set_phase :
      (phase reason : String) (msg : Message) (applied : Bool) (child : Option Condition)
      (config : NixosConfiguration)
      → (set_phase r phase reason msg applied child config).status.install_retries
        ≡ config.status.install_retries
  unfolding set_phase put_git_synced put_condition put_stalled drop_condition with_phase
  retries-set_phase phase reason msg applied child config = ground arith

  -- What a step that gives the install up leaves behind.
  pub record IsGivenUp (s : St) (answer : Result (Bool × Requeue) × St) : Type 0 where
    pub calls : AtMostEvent s.history answer.1.history
    pub phase : answer.1.config.status.phase ≡ ConfigPhase.degraded
    pub not_requeued : answer.0 ≡ ok (false, no_requeue)
    pub counted : answer.1.config.status.install_retries ≡ s.config.status.install_retries

  install_given_up-IsGivenUp : (s : St) → IsGivenUp s (install_given_up r s)
  unfolding install_given_up set_degraded
  install_given_up-IsGivenUp s = elim (Bool-cases (s.config.status.phase == ConfigPhase.degraded)) [
    | inl e ↦ rw e (record {
      calls = inl refl;
      phase = phase-set_phase r _ _ _ _ _ _;
      not_requeued = refl;
      counted = retries-set_phase _ _ _ _ _ _;
    })
    | inr e ↦ rw e (record {
      calls = inr (_, _, refl);
      phase = phase-set_phase r _ _ _ _ _ _;
      not_requeued = refl;
      counted = retries-set_phase _ _ _ _ _ _;
    })
  ]

  follow_install-failed :
      (job : NixJob) (s : St)
      → ltb 0 job.status.succeeded ≡ false
      → ltb 0 job.status.failed ≡ true
      → job.is_deleting ≡ false
      → follow_install r job s
        ≡ (if leb max_install_retries s.config.status.install_retries
              then install_given_up r
              else install_retried r job)
            s
  unfolding follow_install install_failed
  follow_install-failed job s n f d = simp (n, f, d)

  follow_install-IsGivenUp :
      (job : NixJob) (s : St)
      → job.status.succeeded ≡ 0
      → 0 < job.status.failed
      → job.is_deleting ≡ false
      → max_install_retries ≤ s.config.status.install_retries
      → IsGivenUp s (follow_install r job s)
  follow_install-IsGivenUp job s n f d cap =
      rw (follow_install-failed job s (ground arith) (ground arith) d) (
        subst (λ b. IsGivenUp s ((if b then install_given_up r else install_retried r job) s))
          (sym (cap_reached s.config.status.install_retries cap)) (install_given_up-IsGivenUp s))

  -- What a step that tries the install again leaves behind: the child's deletion is its only call.
  pub record IsRetried (job : NixJob) (s : St) (answer : Result (Bool × Requeue) × St)
      : Type 0 where
    pub failure : Option Error
    pub calls : answer.1.history ≡ record { call = delete_job job; failure = failure } ∷ s.history
    pub counted : answer.1.config.status.install_retries ≡ suc s.config.status.install_retries
    pub answers : answer.0 ≡ retry_answer failure

  install_retried-IsRetried : (job : NixJob) (s : St) → IsRetried job s (install_retried r job s)
  unfolding install_retried delete_job_if_exists
  install_retried-IsRetried job s = elim (Option-cases (r.client.delete_job s.history job)) [
    | inl e ↦ rw e (record {
      failure = none;
      calls = refl;
      counted = retries-set_phase _ _ _ _ _ _ ∙ ground arith;
      answers = refl;
    })
    | inr (x, e) ↦ elim (Bool-cases (is_not_found x)) [
      | inl g ↦
          rw (e, g)
            (record {
              failure = some x;
              calls = refl;
              counted = retries-set_phase _ _ _ _ _ _ ∙ ground arith;
              answers = rw g refl;
            })
      | inr g ↦
          rw (e, g)
            (record { failure = some x; calls = refl; counted = ground arith; answers = rw g refl })
    ]
  ]

  follow_install-IsRetried :
      (job : NixJob) (s : St)
      → job.status.succeeded ≡ 0
      → 0 < job.status.failed
      → job.is_deleting ≡ false
      → s.config.status.install_retries < max_install_retries
      → IsRetried job s (follow_install r job s)
  follow_install-IsRetried job s n f d below =
      rw (follow_install-failed job s (ground arith) (ground arith) d) (
        subst (λ b. IsRetried job s ((if b then install_given_up r else install_retried r job) s))
          (sym (below_cap s.config.status.install_retries below)) (install_retried-IsRetried job s))

  -- A retry below the cap, or the install is given up at it; the retries stay within the cap.
  abbrev pub IsCapped : NixJob → St → Result (Bool × Requeue) × St → Type 0
  IsCapped job s answer =
      (((s.config.status.install_retries < max_install_retries) × IsRetried job s answer)
        ⊎ ((s.config.status.install_retries ≡ max_install_retries) × IsGivenUp s answer))
      × (answer.1.config.status.install_retries ≤ max_install_retries)

  -- The install child failed and is not being deleted. With retries left, the only call is the
  -- deletion of the child, the retries are counted up by one, and the reconcile comes back after the
  -- interval, unless the deletion failed for another reason than that the child is gone. With the
  -- retries used up, the configuration ends Degraded and is not requeued, and at most one call is
  -- made, which is an event. So a count within the cap stays within it.
  pub follow_install-IsCapped :
      (job : NixJob) (s : St)
      → job.status.succeeded ≡ 0
      → 0 < job.status.failed
      → job.is_deleting ≡ false
      → s.config.status.install_retries ≤ max_install_retries
      → IsCapped job s (follow_install r job s)
  follow_install-IsCapped job s n f d within =
      elim (Bool-cases (ltb s.config.status.install_retries max_install_retries)) [
        | inl below ↦
            let retried = follow_install-IsRetried job s n f d (ground arith) in
            (inl (ground arith, retried), ground (arith, retried.counted))
        | inr above ↦
            let given_up = follow_install-IsGivenUp job s n f d (ground arith) in
            (inr (ground arith, given_up), ground (arith, given_up.counted))
      ]
