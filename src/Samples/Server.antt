-- ===== src/Samples/Server.antt =====
-- A server over fixed objects, and RetryOnConflict as at most five attempts.
use nio.Prelude.{
  Bool-cases, inl, inr, ℕ, zero, suc, String, Bool, true, false, List, [], ◌∷◌, none, some, ◌≡◌,
  refl, ◌==◌, if◌then◌else◌, ◌||◌,
}
use nio.Kube.{not_found, is_conflict, text, Result, ok, err}
use nio.Kube.Conditions.{slice_meta}
use nio.Kube.Times.{unix_times}
use nio.Kube.Keeps.{Keeps}
use nio.Api.Workload.{NixSpec, NixJob, zero_nix, new_nix_job}
use nio.Api.Machine.{Machine}
use nio.Api.Configuration.{NixosConfiguration}
use nio.Client.{Client}
use nio.Configuration.State.{St, Step, Reconciler}
use nio.Configuration.Proofs.InstallSafety.{RetryLaws}

abbrev pub host : Machine
host = record {
  name = "host-a";
  namespace = "default";
  labels = ("role", "worker") ∷ [];
  generation = 1;
  is_deleting = false;
  finalizers = [];
  spec = record {
    host = "10.0.0.1";
    ssh_user = "";
    ssh_key_secret_ref = some "host-a-key";
    ssh_password_secret_ref = none;
  };
  status = record {
    observed_generation = 1;
    discoverable = true;
    has_configuration = false;
    applied_configuration = "";
    applied_commit = "";
    last_applied_time = none;
    last_hardware_scan_time = none;
    architecture = none;
    conditions = [];
  };
}

abbrev pub worker : NixosConfiguration
worker = record {
  name = "worker";
  namespace = "default";
  generation = 2;
  resource_version = 7;
  creation_timestamp = 100;
  is_deleting = false;
  finalizers = "nio.homystack.com/finalizer" ∷ [];
  spec = record {
    machine_ref = "host-a";
    git_repo = "https://example.org/flake";
    ref = "main";
    credentials_ref = none;
    flake = "#worker";
    on_remove_flake = "#blank";
    configuration_subdir = "";
    day_two_schedule = "";
    full_install = true;
    additional_files = [];
    store_ref = none;
    builder_ref = none;
  };
  status = record {
    observed_generation = 1;
    phase = "Installing";
    full_disk_install_completed = false;
    resolved_revision = "";
    last_applied_time = none;
    target_machine = "host-a";
    install_job_ref = "worker-install";
    day_two_cron_job_ref = "";
    decommission_job_ref = "";
    install_retries = 1;
    on_remove_retries = 0;
    conditions = [];
  };
}

-- A later configuration of the same machine.
abbrev pub rival : NixosConfiguration
rival = record worker { name = "rival"; creation_timestamp = 200 }

abbrev pub plain_nix : NixSpec
plain_nix = zero_nix

-- A job of a given name, with its counts of successes and failures.
abbrev pub job_of : String → ℕ → ℕ → NixJob
job_of name succeeded failed =
    let job = new_nix_job name "default" (record { nix = plain_nix; job_template = none }) in
    record job { status = record job.status { succeeded = succeeded; failed = failed } }

abbrev pub missing {ℓ} : {A : Type ℓ} → Result A
missing = err (not_found (text "not found"))

unfoldable pub has : List String → String → Bool
has [] f = false
has (g ∷ fs) f = g == f || has fs f

unfoldable pub without : List String → String → List String
without [] f = []
without (g ∷ fs) f = let rest = without fs f in if g == f then rest else g ∷ rest

-- The server has the two configurations and the machine, no cron job, and the given jobs; it
-- accepts every write.
abbrev pub server : Result NixosConfiguration → Result NixJob → List NixJob → Client
server config job jobs = record {
  get_config = λ h ns name. config;
  get_machine = λ h ns name. if name == "host-a" then ok host else missing;
  get_job = λ h ns name. job;
  get_cron = λ h ns name. missing;
  list_configs = λ h ns. ok (rival ∷ worker ∷ []);
  list_jobs = λ h ns labels. ok jobs;
  create_job = λ h j. ok j;
  update_job = λ h j. ok j;
  delete_job = λ h j. none;
  create_cron = λ h c. ok c;
  update_cron = λ h c. ok c;
  delete_cron = λ h c. none;
  update_config = λ h c. ok c;
  update_config_status = λ h c. ok c;
  update_machine_status = λ h m. ok m;
  set_job_controller = λ c j. ok (record j { owner = some c.name });
  set_cron_controller = λ c j. ok (record j { owner = some c.name });
  contains_finalizer = has;
  add_finalizer = λ fs f. f ∷ fs;
  remove_finalizer = without;
}

-- The answer of an attempt, and of at most `n` more after a conflict.
again : ℕ → Step (Unit {0}) → Result (Unit {0}) × St → Result (Unit {0}) × St
again zero m x = x
again (suc n) m (ok a, s) = (ok a, s)
again (suc n) m (err e, s) =
    let rest = again n m (m s) in if is_conflict e then rest else (err e, s)

unfoldable pub five_attempts : Step (Unit {0}) → Step (Unit {0})
unfolding again
five_attempts m s = again 4 m (m s)

again-last :
    (n : ℕ) (m : Step (Unit {0})) (s : St) (x : Result (Unit {0}) × St)
    → m s ≡ x
    → (again n m x).0 ≡ ok tt
    → (t : St) × (m t ≡ again n m x)
unfolding again
again-last zero m s x run e = (s, run)
again-last (suc n) m s (ok a, t) run e = (s, run)
again-last (suc n) m s (err x, t) run e = elim (Bool-cases (is_conflict x)) [
  | inl c ↦ rw c (again-last n m t (m t) refl (rw c at e))
  | inr c ↦ let failed : ◌≡◌ {A = Result (Unit {0})} (err x) (ok tt) = rw c at e in cc
]

again-keeps :
    (P : St → Type 0) (n : ℕ) (m : Step (Unit {0})) (x : Result (Unit {0}) × St)
    → Keeps P m
    → P x.1
    → P (again n m x).1
unfolding again
again-keeps P zero m x k h = h
again-keeps P (suc n) m (ok a, t) k h = h
again-keeps P (suc n) m (err x, t) k h = elim (Bool-cases (is_conflict x)) [
  | inl c ↦ rw c (again-keeps P n m (m t) k (k.at t h))
  | inr c ↦ rw c h
]

-- Five attempts meet what the code relies on.
pub five_attempts-laws : RetryLaws five_attempts
unfolding five_attempts
five_attempts-laws = record {
  last_run = λ m s e. again-last 4 m s (m s) refl e;
  only_runs = λ P m k. record { at = λ s h. again-keeps P 4 m (m s) k (k.at s h) };
}

-- A reconciler on a client.
abbrev pub reconciler : Client → Reconciler
reconciler client = record {
  client = client;
  meta = slice_meta;
  times = unix_times;
  retry_on_conflict = five_attempts;
}
