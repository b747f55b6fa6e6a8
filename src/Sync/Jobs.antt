-- ===== src/Sync/Jobs.antt =====
-- internal/synchronizer/syncjob.go: `SyncJob`, which creates the CPodJobs that the portal has
-- assigned, and deletes those that it has no more.
pub mod Sharing
pub mod Creation
pub mod Deletion
pub mod Endings
pub mod Startable
use cpodoperator.Base.{
  ℕ, String, Bool, true, false, ◌&&◌, ◌||◌, not, Option, none, some, List, [], ◌∷◌, map, any, ◌==◌,
  string_eq, if◌then◌else◌,
}
use cpodoperator.Base.Int.{ℤ, pos, ltb_ℤ, div_ℤ, to_int32, int_eq}
use cpodoperator.Api.Job.{
  JobConditionType, succeeded, model_uploading, model_uploaded, failed, job_type_mpi,
  job_type_pytorch, EnvVar, CPodJobSpec, CPodJob, zero_status, job_condition_type_eq,
}
use cpodoperator.Sync.Text.{codes, to_lower, to_lower_codes, codes_eq, split_spaces}
use cpodoperator.Sync.Portal.{PortalJob, Cluster}
use cpodoperator.Sync.Buffer.{Buffer, add_create_failed_job, delete_create_failed_job}
use cpodoperator.Sync.Status.{parse_status}

abbrev pub source_label : List (String × String)
source_label = ("cpod.sxwl.ai/cpodjob-source", "sxwl") ∷ []

abbrev pub cpod_namespace : String
cpod_namespace = "cpod"

-- `PORTAL_STOPTYPE_WITHLIMIT`
abbrev pub stop_type_with_limit : ℤ
stop_type_with_limit = pos 1

-- The type, where the code returns it with `true`.
unfoldable pub job_type_check : String → Option String
unfolding to_lower
job_type_check s =
    if to_lower_codes s == codes job_type_mpi
    then some job_type_mpi
    else if to_lower_codes s == codes job_type_pytorch
    then some job_type_pytorch
    else none

command_of : PortalJob → List String
unfolding split_spaces
command_of job = if job.command == "" then [] else split_spaces job.command

duration_of : PortalJob → ℤ
duration_of job =
    if job.stop_type == stop_type_with_limit && ltb_ℤ (pos 0) job.stop_time
    then job.stop_time
    else pos 0

unfoldable pub gpu_per_worker : PortalJob → ℤ
gpu_per_worker job = if ltb_ℤ job.gpu_number (pos 8) then to_int32 job.gpu_number else pos 8

unfoldable pub replicas : PortalJob → ℤ
replicas job = if ltb_ℤ job.gpu_number (pos 8) then pos 1 else div_ℤ (to_int32 job.gpu_number) 8

env_of : String × String → EnvVar
env_of (k, v) = record { name = k; value = v }

unfoldable pub new_spec : PortalJob → String → CPodJobSpec
unfolding command_of duration_of gpu_per_worker replicas env_of
new_spec job job_type = record {
  job_type = job_type;
  gpu_required_per_replica = gpu_per_worker job;
  gpu_type = job.gpu_type;
  dataset_path = job.dataset_path;
  dataset_name = job.dataset_name;
  pretrain_model_path = job.pretrain_model_path;
  pretrain_model_name = job.pretrain_model_name;
  code_path = "";
  git_repo = none;
  ckpt_path = job.ckpt_path;
  ckpt_volume_size = to_int32 job.ckpt_vol;
  model_save_path = job.model_path;
  model_save_volume_size = to_int32 job.model_vol;
  upload_model = true;
  duration = to_int32 (duration_of job);
  image = job.image_path;
  command = command_of job;
  envs = map env_of job.envs;
  worker_replicas = replicas job;
}

unfoldable pub new_cpodjob : PortalJob → String → CPodJob
unfolding new_spec
new_cpodjob job job_type = record {
  name = job.job_name;
  namespace = cpod_namespace;
  uid = "";
  labels = source_label;
  creation_timestamp = 0;
  spec = new_spec job job_type;
  status = zero_status;
}

-- The inner loops that look for a job by its name.
abbrev pub has_cpodjob : List CPodJob → String → Bool
has_cpodjob jobs name = any (λ j. j.name == name) jobs

abbrev pub has_portal_job : List PortalJob → String → Bool
has_portal_job jobs name = any (λ j. name == j.job_name) jobs

-- "do nothing if job has reached a no more change status"
abbrev is_final : JobConditionType → Bool
is_final t = t == failed || t == model_uploaded || t == succeeded || t == model_uploading

unfoldable pub is_settled : CPodJob → Bool
is_settled job = is_final (parse_status job.status).0

module _ (C : Cluster) where
  -- What is done with a job that does not exist, once its type is checked.
  unfoldable pub create_checked : PortalJob → Option String → C.World × Buffer → C.World × Buffer
  create_checked job none (w, b) = (w, add_create_failed_job b job)
  create_checked job (some job_type) (w, b) =
      let (w', created) = C.create_cpodjob w (new_cpodjob job job_type) in
      (
        w',
        (if created then delete_create_failed_job b job.job_name else add_create_failed_job b job),
      )

  unfoldable pub create_one : List CPodJob → PortalJob → C.World × Buffer → C.World × Buffer
  unfolding create_checked
  create_one cpodjobs job s =
      if has_cpodjob cpodjobs job.job_name
      then s
      else create_checked job (job_type_check job.job_type) s

  -- The loop over the portal's jobs.
  unfoldable pub create_all : List CPodJob → List PortalJob → C.World × Buffer → C.World × Buffer
  create_all cpodjobs [] s = s
  create_all cpodjobs (job ∷ jobs) s = create_all cpodjobs jobs (create_one cpodjobs job s)

  -- The loop over the cluster's jobs, which a failed deletion ends.
  unfoldable pub delete_all : List PortalJob → List CPodJob → C.World → C.World
  delete_all portal_jobs [] w = w
  delete_all portal_jobs (job ∷ jobs) w =
      elim (is_settled job || has_portal_job portal_jobs job.name) [
        | true ↦ delete_all portal_jobs jobs w
        | false ↦ elim (C.delete_cpodjob w job).1 [
          | true ↦ delete_all portal_jobs jobs (C.delete_cpodjob w job).0
          | false ↦ (C.delete_cpodjob w job).0
        ]
      ]

  synchronize : List CPodJob → List PortalJob → C.World × Buffer → C.World × Buffer
  synchronize cpodjobs portal_jobs s =
      let (w, b) = create_all cpodjobs portal_jobs s in (delete_all portal_jobs cpodjobs w, b)

  with_jobs : List CPodJob → C.World × Option (List PortalJob) → Buffer → C.World × Buffer
  with_jobs cpodjobs (w, none) b = (w, b)
  with_jobs cpodjobs (w, some portal_jobs) b = synchronize cpodjobs portal_jobs (w, b)

  -- `SyncJob.Start`
  unfoldable pub start : C.World × Buffer → C.World × Buffer
  unfolding with_jobs synchronize create_all delete_all
  start (w, b) = elim (C.list_cpodjobs w source_label) [
    | none ↦ (w, b)
    | some cpodjobs ↦ with_jobs cpodjobs (C.get_assigned_job_list w) b
  ]
