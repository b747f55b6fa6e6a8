-- ===== src/Controller/Upload.antt =====
-- internal/controller/cpodjob_controller.go: `uploadSavedModel`, which runs the job that uploads a
-- trained model and follows it.
pub mod Over
pub mod Endings
use cpodoperator.Base.{String, ◌<>◌, false, not, some, [], ◌∷◌, ◌==◌, if◌then◌else◌, string_eq}
use cpodoperator.Base.Int.{pos, ltb_ℤ, int_eq}
use cpodoperator.Api.Job.{CPodJob, model_uploading, model_uploaded, condition_true, condition_false}
use cpodoperator.Status.{update_job_conditions}
use cpodoperator.Kube.Objects.{claim, pull_always, Container, restart_on_failure, PodSpec, BatchJob}
use cpodoperator.Kube.Outcome.{not_found, message, found, missing, refused, crashed}
use cpodoperator.Kube.Client.{Client}
use cpodoperator.Controller.Program.{
  Options, M, throw, crash, ◌>>=◌, ◌>>◌, ask, call, set_status, get_job, get_now,
}
use cpodoperator.Controller.Claims.{generate_owner_ref, get_model_save_pvc_name}

abbrev pub oss_secret_name : String
oss_secret_name = "akas4oss"

abbrev pub uploader_pvc_mount_path : String
uploader_pvc_mount_path = "/data"

upload_container : Options → CPodJob → Container
upload_container options job = record {
  name = "uploadjob";
  image = options.model_upload_job_image;
  image_pull_policy = pull_always;
  command = "./modeluploadjob" ∷ job.name ∷ options.model_upload_oss_bucket_name ∷ [];
  env = [];
  config_env = record { name = "access_key"; config_map = "cpod-info"; key = "access_key" } ∷ [];
  env_from_secrets = oss_secret_name ∷ [];
  volume_mounts = record { name = "modelsave-pv"; mount_path = uploader_pvc_mount_path } ∷ [];
  requests = [];
  limits = [];
  capabilities = [];
}

unfoldable pub upload_pod : Options → CPodJob → PodSpec
unfolding upload_container get_model_save_pvc_name
upload_pod options job = record {
  containers = upload_container options job ∷ [];
  volumes =
      record { name = "modelsave-pv"; source = claim (get_model_save_pvc_name job) false } ∷ [];
  node_selector = [];
  host_ipc = false;
  restart_policy = restart_on_failure;
}

abbrev pub upload_job_name : CPodJob → String
upload_job_name job = job.name <> "-upload"

unfoldable pub new_upload_job : Options → CPodJob → BatchJob
unfolding upload_pod generate_owner_ref
new_upload_job options job = record {
  name = upload_job_name job;
  namespace = job.namespace;
  labels = [];
  owners = generate_owner_ref job ∷ [];
  backoff_limit = some options.model_upload_job_backoff_limit;
  completions = some (pos 1);
  parallelism = some (pos 1);
  pod = upload_pod options job;
  succeeded = pos 0;
  failed = pos 0;
}

module _ (C : Client) where
  unfoldable pub note_uploading : M C.World (Unit {0})
  note_uploading = do
    now ← get_now C
    job ← get_job
    set_status (
        update_job_conditions now job.status model_uploading condition_true "UploadingModel"
          "modelupload job is running")

  unfoldable pub note_uploaded : M C.World (Unit {0})
  note_uploaded = do
    now ← get_now C
    job ← get_job
    set_status (
        update_job_conditions now job.status model_uploaded condition_true "UploadModelSucceed"
          "Upload model succeed")

  unfoldable pub note_upload_failed : M C.World (Unit {0})
  note_upload_failed = do
    now ← get_now C
    job ← get_job
    set_status (
        update_job_conditions now job.status model_uploaded condition_false "UploadModelSucceed"
          "modelupload backofflimit exceed")

  unfoldable pub note_still_uploading : M C.World (Unit {0})
  unfolding note_uploading
  note_still_uploading = note_uploading >> throw (message "modelupload job is running")

module _ (C : Client) (options : Options) where
  -- The job is created, and what is returned is the error of the read, that it is not there.
  unfoldable pub start_upload : CPodJob → M C.World (Unit {0})
  start_upload job = do
    call (λ w. C.create_batch_job w (new_upload_job options job))
    note_uploading C
    throw not_found

  unfoldable pub follow_upload : BatchJob → M C.World (Unit {0})
  follow_upload upload =
      if upload.succeeded == pos 1
      then note_uploaded C
      else if not (ltb_ℤ upload.failed options.model_upload_job_backoff_limit)
      then note_upload_failed C
      else note_still_uploading C

  unfoldable pub upload_saved_model : M C.World (Unit {0})
  unfolding note_uploading note_uploaded note_upload_failed note_still_uploading start_upload
      follow_upload
  upload_saved_model = do
    job ← get_job
    answer ←
        ask (λ w.
          C.get_batch_job w (record { namespace = job.namespace; name = upload_job_name job }))
    elim answer [
      | found upload ↦ follow_upload upload
      | missing ↦ start_upload job
      | refused e ↦ throw e
      | crashed ↦ crash
    ]
