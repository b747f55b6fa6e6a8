-- ===== src/Kube/Objects.antt =====
-- The objects that the operator creates and reads, with the fields that it sets or looks at.
-- A constant of another package is a constructor; a map is a list of its entries.
use cpodoperator.Base.{String, Bool, Option, List}
use cpodoperator.Base.Int.{ℤ}
use cpodoperator.Api.Job.{ConditionStatus, EnvVar, Time}

pub record Key : Type 0 where
  pub namespace : String
  pub name : String

pub record OwnerReference : Type 0 where
  pub api_version : String
  pub kind : String
  pub name : String
  pub uid : String
  pub controller : Bool
  pub block_owner_deletion : Bool

pub data AccessMode : Type 0 where
  read_write_once read_write_many : AccessMode

pub data VolumeMode : Type 0 where
  filesystem : VolumeMode

pub data ClaimPhase : Type 0 where
  claim_unset claim_pending claim_bound claim_lost : ClaimPhase

-- A PersistentVolumeClaim.
pub record Pvc : Type 0 where
  pub name : String
  pub namespace : String
  pub owners : List OwnerReference
  pub access_modes : List AccessMode
  pub storage : ℤ
  pub storage_class_name : String
  pub volume_mode : Option VolumeMode
  pub phase : ClaimPhase

pub data Medium : Type 0 where
  memory : Medium

pub data VolumeSource : Type 0 where
  claim : String → Bool → VolumeSource
  empty_dir : Medium → ℤ → VolumeSource

pub record Volume : Type 0 where
  pub name : String
  pub source : VolumeSource

pub record VolumeMount : Type 0 where
  pub name : String
  pub mount_path : String

-- An environment variable whose value is a key of a ConfigMap.
pub record ConfigEnv : Type 0 where
  pub name : String
  pub config_map : String
  pub key : String

pub data PullPolicy : Type 0 where
  pull_default pull_always : PullPolicy

pub record Container : Type 0 where
  pub name : String
  pub image : String
  pub image_pull_policy : PullPolicy
  pub command : List String
  pub env : List EnvVar
  pub config_env : List ConfigEnv
  pub env_from_secrets : List String
  pub volume_mounts : List VolumeMount
  pub requests : List (String × ℤ)
  pub limits : List (String × ℤ)
  pub capabilities : List String

pub data RestartPolicy : Type 0 where
  restart_default restart_on_failure : RestartPolicy

pub record PodSpec : Type 0 where
  pub containers : List Container
  pub volumes : List Volume
  pub node_selector : List (String × String)
  pub host_ipc : Bool
  pub restart_policy : RestartPolicy

pub record ReplicaSpec : Type 0 where
  pub replicas : Option ℤ
  pub restart_policy : RestartPolicy
  pub template_name : String
  pub template_namespace : String
  pub pod : PodSpec

-- A condition of an MPIJob, and one of the training operator's jobs.
pub record MpiCondition : Type 0 where
  pub type : String
  pub status : ConditionStatus
  pub last_update_time : Time
  pub last_transition_time : Time
  pub reason : String
  pub message : String

pub record BaseCondition : Type 0 where
  pub type : String
  pub status : ConditionStatus
  pub last_update_time : Time
  pub last_transition_time : Time
  pub reason : String
  pub message : String

pub record MpiStatus : Type 0 where
  pub conditions : List MpiCondition
  pub start_time : Option Time
  pub completion_time : Option Time
  pub last_reconcile_time : Option Time

-- `tov1.JobStatus`
pub record BaseStatus : Type 0 where
  pub conditions : List BaseCondition
  pub start_time : Option Time
  pub completion_time : Option Time
  pub last_reconcile_time : Option Time

pub record MpiJob : Type 0 where
  pub name : String
  pub namespace : String
  pub owners : List OwnerReference
  pub replica_specs : List (String × ReplicaSpec)
  pub status : MpiStatus

pub data CleanPodPolicy : Type 0 where
  clean_running : CleanPodPolicy

pub data Backend : Type 0 where
  c10d : Backend

-- The text of `nproc_per_node` is kept as the number that it writes.
pub record PytorchJob : Type 0 where
  pub name : String
  pub namespace : String
  pub owners : List OwnerReference
  pub clean_pod_policy : CleanPodPolicy
  pub elastic_backend : Option Backend
  pub nproc_per_node : Option ℤ
  pub replica_specs : List (String × ReplicaSpec)
  pub status : BaseStatus

pub data BaseKind : Type 0 where
  mpi_kind pytorch_kind : BaseKind

pub data BaseJob : Type 0 where
  mpi_job : MpiJob → BaseJob
  pytorch_job : PytorchJob → BaseJob

-- A batch Job.
pub record BatchJob : Type 0 where
  pub name : String
  pub namespace : String
  pub labels : List (String × String)
  pub owners : List OwnerReference
  pub backoff_limit : Option ℤ
  pub completions : Option ℤ
  pub parallelism : Option ℤ
  pub pod : PodSpec
  pub succeeded : ℤ
  pub failed : ℤ

pub record Node : Type 0 where
  pub name : String
  pub labels : List (String × String)
  pub os_image : String
  pub cpu : ℤ
  pub memory : ℤ
  -- `none` where the quantity is no whole number of the range of int64
  pub allocatable_gpus : Option ℤ
