-- ===== src/Models/Storage.antt =====
-- internal/controller/modelstorage_controller.go: `Reconcile` of a ModelStorage, which creates a volume
-- claim for a model and a job that downloads it, and follows the job.
pub mod Steps
pub mod Holds
pub mod Reached
pub mod Invariants
pub mod Downloads
pub mod Progress
use cpodoperator.Base.{
  ℕ, ◌<>◌, String, true, false, Option, none, some, [], ◌∷◌, ◌==◌, if◌then◌else◌, string_eq,
}
use cpodoperator.Base.Int.{ℤ, pos, ◌*ℤ◌, to_int64, int_eq}
use cpodoperator.Api.Storage.{ModelStorage, ModelStorageStatus, phase_syncing, phase_done}
use cpodoperator.Kube.Objects.{
  Key, OwnerReference, read_write_once, claim_unset, Pvc, claim, pull_default, Container,
  restart_on_failure, PodSpec, BatchJob,
}
use cpodoperator.Kube.Outcome.{
  Error, Outcome, ok, err, panic, not_found, message, Fetched, found, missing, refused, crashed,
  fetched, ignore_already_exists,
}
use cpodoperator.Controller.Claims.{group_version}
use cpodoperator.Models.Hub.{
  Net, Answer, got, no_model, trouble, broken, Hub, modelscope_hub, model_hub_client,
  model_git_path, model_size,
}

-- `ModelStorageOption`
pub record Options : Type 0 where
  pub downloader_image : String
  pub storage_class_name : String

-- What the controller calls, the network included.
pub record Client : Type 1 where
  pub World : Type 0
  pub net : Net World
  pub get_storage : World → Key → Outcome ModelStorage
  pub update_status : World → ModelStorage → World × Outcome (Unit {0})
  pub create_pvc : World → Pvc → World × Outcome (Unit {0})
  pub create_job : World → BatchJob → World × Outcome (Unit {0})
  pub get_job : World → Key → Outcome BatchJob

-- `ctrl.Result`, with the seconds of a delay.
pub data Result : Type 0 where
  finished requeue : Result
  requeue_after : ℕ → Result

abbrev pub pvc_name : ModelStorage → String
pvc_name s = "pvc-" <> s.name

abbrev pub job_name : ModelStorage → String
job_name s = "job-" <> s.name

unfoldable pub owner_of : ModelStorage → OwnerReference
owner_of s = record {
  api_version = group_version;
  kind = "ModelStorage";
  name = s.name;
  uid = s.uid;
  controller = true;
  block_owner_deletion = true;
}

-- `size*1024*1024*1024` in int64.
unfoldable pub claim_bytes : ℤ → ℤ
claim_bytes size = to_int64 (to_int64 (to_int64 (size *ℤ pos 1024) *ℤ pos 1024) *ℤ pos 1024)

unfoldable pub claim_of : Options → ModelStorage → ℤ → Pvc
unfolding owner_of claim_bytes
claim_of options s size = record {
  name = pvc_name s;
  namespace = s.namespace;
  owners = owner_of s ∷ [];
  access_modes = read_write_once ∷ [];
  storage = claim_bytes size;
  storage_class_name = options.storage_class_name;
  volume_mode = none;
  phase = claim_unset;
}

downloader : Options → ModelStorage → Container
unfolding model_git_path
downloader options s = record {
  name = "downloader";
  image = options.downloader_image;
  image_pull_policy = pull_default;
  command = "git" ∷ "-s" ∷ model_git_path s.spec.name ∷ [];
  env = [];
  config_env = [];
  env_from_secrets = [];
  volume_mounts = record { name = "data-volume"; mount_path = "/data" } ∷ [];
  requests = [];
  limits = [];
  capabilities = [];
}

unfoldable pub download_job : Options → ModelStorage → BatchJob
unfolding owner_of downloader
download_job options s = record {
  name = job_name s;
  namespace = s.namespace;
  labels = ("cpod.sxwl.ai/modelstorage", s.name) ∷ [];
  owners = owner_of s ∷ [];
  backoff_limit = none;
  completions = none;
  parallelism = none;
  pod = record {
    containers = downloader options s ∷ [];
    volumes = record { name = "data-volume"; source = claim s.status.target_pvc_name false } ∷ [];
    node_selector = [];
    host_ipc = false;
    restart_policy = restart_on_failure;
  };
  succeeded = pos 0;
  failed = pos 0;
}

-- The statuses that are written.
abbrev pub with_status : ModelStorage → ModelStorageStatus → ModelStorage
with_status s status = record s { status = status }

unfoldable pub failed_storage : ModelStorage → ModelStorage
failed_storage s = with_status s (record s.status { failure_message = some "Model not found" })

unfoldable pub claimed_storage : ModelStorage → ModelStorage
claimed_storage s =
    with_status s (record s.status { failure_message = none; target_pvc_name = pvc_name s })

unfoldable pub syncing_storage : ModelStorage → ModelStorage
syncing_storage s =
    with_status s (record s.status { target_download_job_name = job_name s; phase = phase_syncing })

unfoldable pub lost_storage : ModelStorage → ModelStorage
lost_storage s = with_status s (record s.status { target_download_job_name = "" })

unfoldable pub done_storage : ModelStorage → ModelStorage
done_storage s = with_status s (record s.status { phase = phase_done })

-- The key that the download job is read under.
abbrev pub job_key : ModelStorage → Key
job_key s = record { namespace = s.namespace; name = s.status.target_download_job_name }

-- How a part of `Reconcile` ends: it goes on with the storage in memory, or returns.
pub data Stage (A : Type 0) : Type 0 where
  next : A → Stage A
  stop : Outcome Result → Stage A

module _ (C : Client) where
  -- A status update, with what is returned where it fails.
  unfoldable pub write :
      C.World → ModelStorage → (Error → Outcome Result) → C.World × Stage ModelStorage
  write w s on_failure =
      let (w', r) = C.update_status w s in
      (w', (elim r [ ok u ↦ next s | err e ↦ stop (on_failure e) | panic ↦ stop panic ]))

  -- What `f` makes of the storage that a part goes on with.
  unfoldable pub and_then :
      C.World × Stage ModelStorage
      → (C.World → ModelStorage → C.World × Stage ModelStorage)
      → C.World × Stage ModelStorage
  and_then (w, next s) f = f w s
  and_then (w, stop o) f = (w, stop o)

  -- The last part: a storage that is written ends `Reconcile` well.
  unfoldable pub finish : C.World × Stage ModelStorage → Outcome Result → C.World × Outcome Result
  finish (w, next s) o = (w, o)
  finish (w, stop o) o' = (w, o)

module _ (C : Client) (options : Options) where
  -- The error of the creation is dropped: the test after it is of the error of `ModelHubClient`,
  -- which is nil.
  unfoldable pub after_claim :
      C.World × Outcome (Unit {0}) → ModelStorage → C.World × Stage ModelStorage
  unfolding write
  after_claim (w, ok u) s = write C w (claimed_storage s) (λ e. ok finished)
  after_claim (w, err e) s = write C w (claimed_storage s) (λ e. ok finished)
  after_claim (w, panic) s = (w, stop panic)

  unfoldable pub create_claim : C.World → ModelStorage → ℤ → C.World × Stage ModelStorage
  unfolding after_claim
  create_claim w s size = after_claim (C.create_pvc w (claim_of options s size)) s

  unfoldable pub claim_by_size : C.World → ModelStorage → Answer ℤ → C.World × Stage ModelStorage
  unfolding create_claim
  claim_by_size w s (got size) = create_claim w s size
  claim_by_size w s no_model =
      (let (w', r) = C.update_status w (failed_storage s) in
        (w', stop (elim r [ ok u ↦ ok finished | err e ↦ err e | panic ↦ panic ])))
  claim_by_size w s trouble = (w, stop (err (message "failed to get model size")))
  claim_by_size w s broken = (w, stop panic)

  -- `if modelStorage.Status.TargetPVCName == ""`
  unfoldable pub claim_stage : C.World → ModelStorage → C.World × Stage ModelStorage
  unfolding claim_by_size
  claim_stage w s =
      if s.status.target_pvc_name == ""
      then claim_by_size w s (model_size C.net w s.spec.name "")
      else (w, next s)

  unfoldable pub after_download :
      C.World → Outcome (Unit {0}) → ModelStorage → C.World × Stage ModelStorage
  unfolding write
  after_download w (ok u) s = write C w (syncing_storage s) (λ e. ok (requeue_after 10))
  after_download w (err e) s = (w, stop (err e))
  after_download w panic s = (w, stop panic)

  unfoldable pub create_download : C.World → ModelStorage → C.World × Stage ModelStorage
  unfolding after_download
  create_download w s =
      let (w', r) = C.create_job w (download_job options s) in
      after_download w' (ignore_already_exists r) s

  -- `if modelStorage.Status.TargetDownloadJobName == ""`
  unfoldable pub job_stage : C.World → ModelStorage → C.World × Stage ModelStorage
  unfolding create_download
  job_stage w s =
      if s.status.target_download_job_name == "" then create_download w s else (w, next s)

  pub follow : C.World → ModelStorage → Fetched BatchJob → C.World × Outcome Result
  unfolding finish write
  follow w s (found job) =
      if job.succeeded == pos 1
      then finish C (write C w (done_storage s) (λ e. ok finished)) (ok finished)
      else (w, ok requeue)
  follow w s missing = finish C (write C w (lost_storage s) (λ e. ok finished)) (err not_found)
  follow w s (refused e) = (w, err e)
  follow w s crashed = (w, panic)

  follow_stage : C.World × Stage ModelStorage → C.World × Outcome Result
  unfolding follow
  follow_stage (w, next s) = follow w s (fetched (C.get_job w (job_key s)))
  follow_stage (w, stop o) = (w, o)

  unfoldable pub reconcile_storage : C.World → ModelStorage → C.World × Outcome Result
  unfolding and_then claim_stage job_stage follow_stage
  reconcile_storage w s = follow_stage (and_then C (claim_stage w s) job_stage)

  with_hub : C.World → ModelStorage → Option Hub → C.World × Outcome Result
  with_hub w s none = (w, err (message "unsupported modelhub"))
  with_hub w s (some modelscope_hub) = reconcile_storage w s

  with_storage : C.World → Fetched ModelStorage → C.World × Outcome Result
  unfolding with_hub
  with_storage w (found s) = with_hub w s (model_hub_client s.spec.type)
  with_storage w missing = (w, ok finished)
  with_storage w (refused e) = (w, err e)
  with_storage w crashed = (w, panic)

  -- `Reconcile`
  unfoldable pub reconcile : C.World → Key → C.World × Outcome Result
  unfolding with_storage
  reconcile w key = with_storage w (fetched (C.get_storage w key))
