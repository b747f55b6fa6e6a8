-- ===== src/Sync/Observer/Payload.antt =====
-- internal/synchronizer/cpodobserver.go: the heartbeat that `Start` puts together.
use mathlib.Core.List.{map-append}
use cpodoperator.Base.{String, ◌≡◌, refl, ap, Option, none, some, List, [], ◌∷◌, ◌++◌, map, arith}
use cpodoperator.Api.Job.{CPodJob, Time}
use cpodoperator.Sync.Portal.{PortalJob}
use cpodoperator.Sync.Buffer.{Buffer, get_create_failed_jobs}
use cpodoperator.Sync.Jobs.{source_label, cpod_namespace}
use cpodoperator.Sync.Observer.{Observed, JobState, observe_jobs, get_job_states}
use cpodoperator.Sync.Observer.Limits.{reported_names, names_of, observe_jobs-names}
use cpodoperator.Sync.Observer.Nodes.{NodeInfo, node_info, GpuSummary, gpu_summaries}

infixl 5 ◌>>=◌
abbrev ◌>>=◌ : {A B : Type 0} → Option A → (A → Option B) → Option B
◌>>=◌ none f = none
◌>>=◌ (some a) f = f a

abbrev pub failed_names : PortalJob → String × String × String
failed_names job = (job.job_name, cpod_namespace, job.job_type)

-- `resource.CPodResourceInfo`
pub record ResourceInfo : Type 0 where
  pub cpod_id : String
  pub cpod_version : String
  pub gpu_summaries : List GpuSummary
  pub cached_models : List String
  pub cached_datasets : List String
  pub cached_images : List String
  pub nodes : List NodeInfo

-- `sxwl.HeartBeatPayload`
pub record Payload : Type 0 where
  pub cpod_id : String
  pub job_status : List JobState
  pub resource_info : ResourceInfo
  pub update_time : Time

-- The observer's namespace is the one that `NewManager` gives it.
unfoldable pub create_failed_state : PortalJob → JobState
create_failed_state job = record {
  name = job.job_name;
  namespace = cpod_namespace;
  job_type = job.job_type;
  job_status = "createfailed";
  info = "";
}

module _ (O : Observed) where
  -- `getExistingArtifacts`: the models and the datasets.
  unfoldable pub get_existing_artifacts : O.World → Option (List String × List String)
  get_existing_artifacts w = do
    models ← O.list_models w
    datasets ← O.list_datasets w
    some (map (λ m. m.model_name) models, map (λ d. d.dataset_name) datasets)

  -- `getResourceInfo`. `getImages` answers no image.
  unfoldable pub get_resource_info : O.World → String → Option ResourceInfo
  unfolding get_existing_artifacts
  get_resource_info w cpod_id = do
    nodes ← O.list_nodes w
    artifacts ← get_existing_artifacts w
    some (record {
      cpod_id = cpod_id;
      cpod_version = "v1.0";
      gpu_summaries = gpu_summaries (map node_info nodes);
      cached_models = artifacts.0;
      cached_datasets = artifacts.1;
      cached_images = [];
      nodes = map node_info nodes;
    })

  payload_of : String → List JobState → O.World × Time → ResourceInfo → O.World × Option Payload
  payload_of cpod_id states (w, now) info = (
    w,
    some (record {
      cpod_id = cpod_id;
      job_status = states;
      resource_info = info;
      update_time = now;
    }),
  )

  with_states : String → Buffer → O.World × Option (List JobState) → O.World × Option Payload
  unfolding payload_of get_resource_info
  with_states cpod_id b (w, none) = (w, none)
  with_states cpod_id b (w, some states) = elim (get_resource_info w cpod_id) [
    | none ↦ (w, none)
    | some info ↦
        payload_of cpod_id (states ++ map create_failed_state (get_create_failed_jobs b)) (O.now w)
          info
  ]

  -- `CPodObserver.Start`, up to the send on the channel: what is sent, if anything is.
  unfoldable pub observe : String → Buffer → O.World → O.World × Option Payload
  unfolding with_states
  observe cpod_id b w = with_states cpod_id b (get_job_states O w source_label)

  pub job_status_of_sent :
      (cpod_id : String) (b : Buffer) (w : O.World) (p : Payload) (jobs : List CPodJob)
      → O.list_cpodjobs w source_label ≡ some jobs
      → (observe cpod_id b w).1 ≡ some p
      → p.job_status
        ≡ (observe_jobs O w jobs).1 ++ map create_failed_state (get_create_failed_jobs b)
  unfolding observe get_job_states
  job_status_of_sent cpod_id b w p jobs h sent = ground arith

  pub cpod_id_of_sent :
      (cpod_id : String) (b : Buffer) (w : O.World) (p : Payload)
      → (observe cpod_id b w).1 ≡ some p
      → p.cpod_id ≡ cpod_id
  unfolding observe get_job_states
  cpod_id_of_sent cpod_id b w p sent = ground arith

  reported_names-create_failed_state :
      (jobs : List PortalJob)
      → map reported_names (map create_failed_state jobs) ≡ map failed_names jobs
  unfolding create_failed_state
  reported_names-create_failed_state [] = refl
  reported_names-create_failed_state (job ∷ jobs) =
      ap (λ l. failed_names job ∷ l) (reported_names-create_failed_state jobs)

  -- If `Start` sends a payload, and the list of the cluster's jobs was answered, then the payload
  -- reports exactly the listed jobs, in their order, and after them the jobs that could not be
  -- created, by their names, namespaces and types.
  pub observe-names :
      (cpod_id : String) (b : Buffer) (w : O.World) (p : Payload) (jobs : List CPodJob)
      → O.list_cpodjobs w source_label ≡ some jobs
      → (observe cpod_id b w).1 ≡ some p
      → map reported_names p.job_status
        ≡ map names_of jobs ++ map failed_names (get_create_failed_jobs b)
  observe-names cpod_id b w p jobs h sent =
      rw
        (
          job_status_of_sent cpod_id b w p jobs h sent,
          map-append,
          observe_jobs-names O w jobs,
          reported_names-create_failed_state,
        )
        refl
