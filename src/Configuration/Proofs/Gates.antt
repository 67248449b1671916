-- ===== src/Configuration/Proofs/Gates.antt =====
-- About the gates of runStateMachine: a configuration that does not own its machine, or whose
-- machine is missing or unreachable.
use Prim.Native.String.{◌++◌}
use nio.Prelude.{
  String, true, false, List, ◌∷◌, Option, none, some, ◌⊎◌, if◌then◌else◌, ◌≡◌, ◌≢◌, refl, arith,
  ◌==◌, eq_iff, Bool-cases, inl, inr,
}
use nio.Kube.{Error, Message, Result, ok, err, is_not_found, Requeue}
use nio.Kube.Binds.{bind-ok, Result-cases}
use nio.Api.Workload.{NixCronJob}
use nio.Api.Machine.{Machine}
use nio.Api.Configuration.{NixosConfiguration}
use nio.Api.ConfigPhase
use nio.Client.{update_cron, record_event, History}
use nio.Children.{day_two_child_name}
use nio.Configuration.State.{St, Reconciler}
use nio.Configuration.Proofs.Conditions.{phase-set_phase}
use nio.Configuration.Phase.{
  set_blocked, set_phase, put_git_synced, put_condition, put_stalled, drop_condition, with_phase,
}
use nio.Configuration.Owner.{owner_among, machine_owner}
use nio.Configuration.Ensure.{suspend_found, suspend_day_two_cron_if_exists}
use nio.Configuration.Install.{requeue_interval}
use nio.Configuration.Reconcile.{block, owned_by_other, drive, drive_with, run_state_machine}

-- By what the Get of the day-2 child answers: one update call, of the child that was read, with only
-- its suspension set, when it is not suspended yet; and else no call.
abbrev pub Pauses : Result NixCronJob → History → History → Type 0
Pauses (err e) before after = after ≡ before
Pauses (ok found) before after =
    if found.spec.nix.suspend
    then after ≡ before
    else ((failure : Option Error) × (after
          ≡ record {
            call = update_cron (record found {
              spec = record found.spec { nix = record found.spec.nix { suspend = true } };
            });
            failure = failure;
          }
            ∷ before))

-- No call was made, or one, which is an event.
abbrev pub AtMostEvent : History → History → Type 0
AtMostEvent before after =
    (after ≡ before)
    ⊎ ((reason : String) × (msg : Message) × (after
          ≡ record { call = record_event true reason msg; failure = none } ∷ before))

module _ (r : Reconciler) where
  found-Pauses :
      (s : St) (answer : Result NixCronJob)
      → Pauses answer s.history (suspend_found r answer s).1.history
  found-Pauses s (err e) = refl
  found-Pauses s (ok found) = elim (Bool-cases found.spec.nix.suspend) [
    | inl t ↦ rw t refl
    | inr f ↦
        let paused = record found {
          spec = record found.spec { nix = record found.spec.nix { suspend = true } };
        } in
        elim (Result-cases (r.client.update_cron s.history paused)) [
          | inl (stored, u) ↦ rw (f, u) (none, refl)
          | inr (x, u) ↦ rw (f, u) (some x, refl)
        ]
  ]

  suspend-Pauses :
      (s : St) (namespace name : String)
      → s.config.namespace ≡ namespace
      → s.config.name ≡ name
      → Pauses
          (r.client.get_cron s.history namespace (name ++ "-day2"))
          s.history
          (suspend_day_two_cron_if_exists r s).1.history
  unfolding suspend_day_two_cron_if_exists day_two_child_name
  suspend-Pauses s namespace name same_namespace same_name =
      rw (← same_namespace, ← same_name) (found-Pauses s _)

  named-set_blocked :
      (reason : String) (msg : Message) (config : NixosConfiguration)
      → ((set_blocked r reason msg config).namespace ≡ config.namespace)
        × ((set_blocked r reason msg config).name ≡ config.name)
  unfolding set_blocked set_phase put_git_synced put_condition put_stalled drop_condition with_phase
  named-set_blocked reason msg config = ground arith

  suspend-config : (s : St) → (suspend_day_two_cron_if_exists r s).1.config ≡ s.config
  unfolding suspend_day_two_cron_if_exists
  suspend-config s = ground arith

  suspend-ok : (s : St) → (suspend_day_two_cron_if_exists r s).0 ≡ ok tt
  unfolding suspend_day_two_cron_if_exists
  suspend-ok s = ground arith

  -- What a blocked step leaves behind: the day-2 child of the configuration is paused, and then
  -- there may be an event.
  pub record IsBlocked (s : St) (answer : Result Requeue × St) : Type 0 where
    pub paused : History
    pub pauses :
        Pauses
          (r.client.get_cron s.history s.config.namespace (s.config.name ++ "-day2"))
          s.history
          paused
    pub announced : AtMostEvent paused answer.1.history
    pub phase : answer.1.config.status.phase ≡ ConfigPhase.blocked
    pub requeued : answer.0 ≡ ok (record { requeue = false; requeue_after = requeue_interval })

  block-Pauses :
      (reason : String) (msg : Message) (s : St)
      → Pauses
          (r.client.get_cron s.history s.config.namespace (s.config.name ++ "-day2"))
          s.history
          (block r reason msg s).1.history
  unfolding block
  block-Pauses reason msg s =
      let (namespace, name) = named-set_blocked reason msg s.config in
      suspend-Pauses _ s.config.namespace s.config.name namespace name

  block-phase :
      (reason : String) (msg : Message) (s : St)
      → (block r reason msg s).1.config.status.phase ≡ ConfigPhase.blocked
  unfolding block set_blocked
  block-phase reason msg s = rw suspend-config (phase-set_phase r _ _ _ _ _ _)

  block-ok : (reason : String) (msg : Message) (s : St) → (block r reason msg s).0 ≡ ok tt
  unfolding block
  block-ok reason msg s = suspend-ok _

  owned_by_other-IsBlocked : (owner : String) (s : St) → IsBlocked s (owned_by_other r owner s)
  unfolding owned_by_other
  owned_by_other-IsBlocked owner s = rw (bind-ok (block r _ _) _ s (block-ok _ _ s)) (record {
    paused = _;
    pauses = block-Pauses _ _ s;
    announced = inr (_, _, refl);
    phase = block-phase _ _ s;
    requeued = refl;
  })

  unreachable-IsBlocked :
      (machine : Machine) (s : St)
      → machine.status.discoverable ≡ false
      → IsBlocked s (drive r machine s)
  unfolding drive
  unreachable-IsBlocked machine s e =
      rw (e, bind-ok (block r _ _) _ s (block-ok _ _ s))
        (record {
          paused = _;
          pauses = block-Pauses _ _ s;
          announced = inl refl;
          phase = block-phase _ _ s;
          requeued = refl;
        })

  missing-IsBlocked :
      (e : Error) (s : St) → is_not_found e ≡ true → IsBlocked s (drive_with r (err e) s)
  missing-IsBlocked e s n =
      rw (n, bind-ok (block r _ _) _ s (block-ok _ _ s))
        (record {
          paused = _;
          pauses = block-Pauses _ _ s;
          announced = inr (_, _, refl);
          phase = block-phase _ _ s;
          requeued = refl;
        })

  -- Why a configuration may not drive its machine, by what the server answers.
  pub data IsGated (s : St) (items : List NixosConfiguration) : Type 0 where
    owned : owner_among r.times s.config items ≢ s.config.name → IsGated s items
    missing :
        (e : Error)
        → r.client.get_machine s.history s.config.namespace s.config.spec.machine_ref ≡ err e
        → is_not_found e ≡ true
        → IsGated s items
    unreachable :
        (machine : Machine)
        → r.client.get_machine s.history s.config.namespace s.config.spec.machine_ref ≡ ok machine
        → machine.status.discoverable ≡ false
        → IsGated s items

  machine_answer-IsBlocked :
      (s : St) (items : List NixosConfiguration)
      → IsGated s items
      → owner_among r.times s.config items ≡ s.config.name
      → IsBlocked s (
          drive_with r
            (r.client.get_machine s.history s.config.namespace s.config.spec.machine_ref)
            s)
  machine_answer-IsBlocked s items (owned other) own = absurd (other own)
  machine_answer-IsBlocked s items (missing e answer n) own = rw answer (missing-IsBlocked e s n)
  machine_answer-IsBlocked s items (unreachable machine answer d) own =
      rw answer (unreachable-IsBlocked machine s d)

  -- A configuration that another one owns the machine of, or whose machine is missing or not
  -- discoverable, ends its step in the Blocked phase with the interval as its requeue. Its calls are
  -- an update of its day-2 child, if the server has it and it is not suspended, as it was read but
  -- for the suspension, and at most one event after it; there are no others.
  pub run_state_machine-IsBlocked :
      (s : St) (items : List NixosConfiguration)
      → r.client.list_configs s.history s.config.namespace ≡ ok items
      → IsGated s items
      → IsBlocked s (run_state_machine r s)
  unfolding run_state_machine machine_owner
  run_state_machine-IsBlocked s items listed gate =
      elim (Bool-cases (owner_among r.times s.config items == s.config.name)) [
        | inl own ↦
            rw (listed, own)
              (machine_answer-IsBlocked s items gate
                ((eq_iff (owner_among r.times s.config items) s.config.name).0 own))
        | inr other ↦
            rw (listed, other) (owned_by_other-IsBlocked (owner_among r.times s.config items) s)
      ]
