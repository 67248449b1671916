-- ===== src/Samples/Operator.antt =====
-- A NixJob and a NixCronJob, and the answers of a server, Git and the clock to their reconcilers.
use nio.Prelude.{String, true, List, [], ◌∷◌, none, some}
use nio.Kube.{ok}
use nio.Kube.Conditions.{slice_meta}
use nio.Api.Workload.{
  NixSpec, NixJob, zero_nix, zero_source, zero_job_spec, NixCronJob, new_nix_job, new_nix_cron_job,
}
use nio.Api.Batch.{BatchJob, new_batch_job}
use nio.Api.Builder.{NixStore, new_nix_store}
use nio.Workload.State.{Services, WorkloadReconciler, WorkSt}
use nio.Job.Run.{nix_job_kind}
use nio.CronJob.Project.{nix_cron_job_kind}
use nio.Samples.Server.{missing, has, without}

abbrev pub spec : NixSpec
spec = record zero_nix {
  source = record zero_source { git_repo = "https://example.org/flake"; ref = "main" };
  run = ".#hello";
  args = "--fast" ∷ [];
  store_ref = some "cache";
}

abbrev pub hello : NixJob
hello = record (new_nix_job "hello" "default" (record { nix = spec; job_template = none })) {
  generation = 2;
}

-- It runs on a new revision, beside no other run.
abbrev pub nightly : NixCronJob
nightly =
    record (new_nix_cron_job "nightly" "default" (record {
      nix = record spec { trigger_on_change = some true };
      cron_job_template = record {
        schedule = "0 3 * * *";
        forbid_concurrent = true;
        job_template = zero_job_spec;
      };
    })) { generation = 2 }

abbrev pub cache : String → NixStore
cache phase =
    record (new_nix_store "cache" "default" (record {
      replicas = none;
      storage = "";
      image = "";
      signing_key_secret_ref = none;
      template = none;
    })) {
      phase = phase;
      substituter_url = "http://cache.default.svc:5000";
      public_key = "cache-1:AAAA";
    }

-- A run-Job by its name, its time and the condition that holds of it.
abbrev pub run_of : String → String → BatchJob
run_of name cond_type = record (new_batch_job name "default" [] zero_job_spec) {
  conditions = record { type = cond_type; is_true = true; last_transition_time = 20 } ∷ [];
}

-- The phase of the store and the jobs that are listed are arguments; a job is never found by its
-- name.
abbrev pub services : {A : Type 0} → A → String → List BatchJob → Services A
services object phase jobs = record {
  get_object = λ h ns name. ok object;
  get_secret = λ h ns name. missing;
  get_store = λ h ns name. ok (cache phase);
  get_builder = λ h ns name. missing;
  get_config_map = λ h ns name. missing;
  get_job = λ h ns name. missing;
  get_cron_job = λ h ns name. missing;
  get_deployment = λ h ns name. missing;
  get_stateful_set = λ h ns name. missing;
  get_flux_source = λ h version kind ns name. missing;
  list_jobs = λ h ns labels. ok jobs;
  list_all_jobs = λ h ns. ok jobs;
  list_pods = λ h ns labels. ok [];
  update_object = λ h changed. ok changed;
  update_object_status = λ h changed. ok changed;
  create_builder = λ h b. none;
  delete_config_map = λ h m. none;
  create_job = λ h j. none;
  delete_job = λ h j. none;
  create_cron_job = λ h c. none;
  update_cron_job = λ h c. none;
  create_deployment = λ h d. none;
  update_deployment = λ h d. none;
  create_stateful_set = λ h d. none;
  update_stateful_set = λ h d. none;
  put_config_map = λ h m. none;
  own_builder = λ owner b. ok b;
  own_config_map = λ owner m. ok m;
  own_job = λ owner j. ok j;
  own_cron_job = λ owner c. ok c;
  own_deployment = λ owner d. ok d;
  own_stateful_set = λ owner d. ok d;
  contains_finalizer = has;
  add_finalizer = λ fs f. f ∷ fs;
  remove_finalizer = without;
  ls_remote = λ h repo ref creds. ok "4f1a2b3c";
  now = λ h. 1_000;
  sha256_hex = λ s. "0123456789abcdef";
}

abbrev pub operator : String → List BatchJob → WorkloadReconciler NixJob
operator phase jobs = record {
  services = services hello phase jobs;
  meta = slice_meta;
  kind = nix_job_kind;
}

abbrev pub start : WorkSt NixJob
start = record { object = hello; history = [] }

abbrev pub cron_operator : WorkloadReconciler NixCronJob
cron_operator = record {
  services = services nightly "Ready" [];
  meta = slice_meta;
  kind = nix_cron_job_kind;
}

abbrev pub cron_start : WorkSt NixCronJob
cron_start = record { object = nightly; history = [] }
