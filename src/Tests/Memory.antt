-- ===== src/Tests/Memory.antt =====
-- A cluster in memory, for the clients of internal/controller and internal/synchronizer.
use cpodoperator.Base.{
  ℕ, suc, String, Bool, true, false, ◌&&◌, Option, none, some, List, [], ◌∷◌, ◌==◌, any,
  if◌then◌else◌, string_eq,
}
use cpodoperator.Base.Int.{pos}
use cpodoperator.Api.Job.{CPodJob}
use cpodoperator.Kube.Objects.{
  Key, Pvc, BaseKind, mpi_kind, pytorch_kind, BaseJob, mpi_job, pytorch_job, BaseStatus, BatchJob,
}
use cpodoperator.Kube.Outcome.{Outcome, ok, err, not_found, api_error}
use cpodoperator.Kube.Client.{Client, Kubeflow}
use cpodoperator.Controller.Program.{Options}
use cpodoperator.Sync.Portal.{Cluster}

pub record Memory : Type 0 where
  pub clock : ℕ
  pub events : ℕ
  pub jobs : List CPodJob
  pub base_jobs : List BaseJob
  pub claims : List Pvc
  pub uploads : List BatchJob

abbrev pub is_at : Key → String → String → Bool
is_at key namespace name = key.namespace == namespace && key.name == name

abbrev find_job : Key → List CPodJob → Outcome CPodJob
find_job key [] = err not_found
find_job key (j ∷ js) = if is_at key j.namespace j.name then ok j else find_job key js

abbrev find_claim : Key → List Pvc → Outcome Pvc
find_claim key [] = err not_found
find_claim key (c ∷ cs) = if is_at key c.namespace c.name then ok c else find_claim key cs

abbrev is_base : Key → BaseKind → BaseJob → Bool
is_base key mpi_kind (mpi_job j) = is_at key j.namespace j.name
is_base key pytorch_kind (pytorch_job j) = is_at key j.namespace j.name
is_base key _ _ = false

abbrev find_base : Key → BaseKind → List BaseJob → Outcome BaseJob
find_base key kind [] = err not_found
find_base key kind (j ∷ js) = if is_base key kind j then ok j else find_base key kind js

abbrev get_base : Memory → Key → Option BaseKind → Outcome BaseJob
get_base m key none = err (api_error "expected pointer, but got nil")
get_base m key (some kind) = find_base key kind m.base_jobs

abbrev find_upload : Key → List BatchJob → Outcome BatchJob
find_upload key [] = err not_found
find_upload key (j ∷ js) = if is_at key j.namespace j.name then ok j else find_upload key js

abbrev add_base : Memory → Option BaseJob → Memory × Outcome (Unit {0})
add_base m none = (m, err (api_error "expected pointer, but got nil"))
add_base m (some j) = (record m { base_jobs = j ∷ m.base_jobs }, ok tt)

abbrev put_job : CPodJob → List CPodJob → List CPodJob
put_job job [] = []
put_job job (j ∷ js) = if j.name == job.name then job ∷ js else j ∷ put_job job js

abbrev pub client : Client
client = record {
  World = Memory;
  now = λ m. (record m { clock = suc m.clock }, m.clock);
  record_event = λ m job reason text. record m { events = suc m.events };
  get_cpodjob = λ m key. find_job key m.jobs;
  update_status = λ m job. (record m { jobs = put_job job m.jobs }, ok tt);
  get_base_job = get_base;
  create_base_job = add_base;
  get_pvc = λ m key. find_claim key m.claims;
  create_pvc = λ m c. (record m { claims = c ∷ m.claims }, ok tt);
  get_dataset = λ m key. err not_found;
  get_model = λ m key. err not_found;
  get_batch_job = λ m key. find_upload key m.uploads;
  create_batch_job = λ m j. (record m { uploads = j ∷ m.uploads }, ok tt);
  list_nodes = λ m labels. ok [];
}

abbrev has_type : String → BaseStatus → Bool
has_type t s = any (λ c. c.type == t) s.conditions

abbrev pub kubeflow : Kubeflow
kubeflow = record {
  mpi_launcher = "Launcher";
  mpi_worker = "Worker";
  pytorch_worker = "Worker";
  paddle_worker = "Worker";
  failed_type = "Failed";
  succeeded_type = "Succeeded";
  is_failed = has_type "Failed";
  is_succeeded = has_type "Succeeded";
}

abbrev pub options : Options
options = record {
  storage_class_name = "standard";
  model_upload_job_image = "uploader:v1";
  model_upload_job_backoff_limit = pos 10;
  model_upload_oss_bucket_name = "models";
}

abbrev pub empty : Memory
empty = record { clock = 100; events = 0; jobs = []; base_jobs = []; claims = []; uploads = [] }

-- The cluster of the synchronizer, with one job assigned by the portal.
abbrev remove_job : CPodJob → List CPodJob → List CPodJob
remove_job job [] = []
remove_job job (j ∷ js) = if j.name == job.name then js else j ∷ remove_job job js

abbrev pub cluster : Cluster
cluster = record {
  World = Memory;
  list_cpodjobs = λ m labels. some m.jobs;
  create_cpodjob = λ m job. (record m { jobs = job ∷ m.jobs }, true);
  delete_cpodjob = λ m job. (record m { jobs = remove_job job m.jobs }, true);
  get_assigned_job_list = λ m. (m, some []);
}
