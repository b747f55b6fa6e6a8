-- ===== src/Api/Job.antt =====
-- api/v1beta1/cpodjob_types.go: the CPodJob resource, its specification and its observed status.
-- `metav1.Time` is a number with 0 for the zero time. Left out are the metadata that no code of
-- the repository reads, `ReplicaSpecs`, which holds a type of another package and is not read, and the
-- `ValueFrom` of an environment variable: a variable is its name and its value.
use cpodoperator.Base.{
  ℕ, String, Bool, Option, List, Eq, String-discrete, ℕ_discrete, false, none, [],
}
use cpodoperator.Base.Int.{ℤ, pos}

-- A string, of which the operator sets six.
pub data JobConditionType : Type 0 where
  created running succeeded model_uploading model_uploaded failed : JobConditionType
  other_type : String → JobConditionType

-- `v1.ConditionStatus`
pub data ConditionStatus : Type 0 where
  condition_true condition_false condition_unknown : ConditionStatus

abbrev pub Time : Type 0
Time = ℕ

pub record JobCondition : Type 0 where
  pub type : JobConditionType
  pub status : ConditionStatus
  pub reason : String
  pub message : String
  pub last_update_time : Time
  pub last_transition_time : Time

pub record CPodJobStatus : Type 0 where
  pub conditions : List JobCondition
  pub start_time : Option Time
  pub completion_time : Option Time
  pub last_reconcile_time : Option Time

-- The valid values of a job's type. The field itself is a string, which may hold anything.
abbrev pub job_type_mpi : String
job_type_mpi = "mpi"

abbrev pub job_type_pytorch : String
job_type_pytorch = "pytorch"

abbrev pub job_type_tensor_flow : String
job_type_tensor_flow = "tensorFlow"

pub record EnvVar : Type 0 where
  pub name : String
  pub value : String

pub record GitRepo : Type 0 where
  pub repository : String
  pub revision : String

pub record CPodJobSpec : Type 0 where
  pub job_type : String
  pub gpu_required_per_replica : ℤ
  pub gpu_type : String
  pub dataset_path : String
  pub dataset_name : String
  pub pretrain_model_path : String
  pub pretrain_model_name : String
  pub code_path : String
  pub git_repo : Option GitRepo
  pub ckpt_path : String
  pub ckpt_volume_size : ℤ
  pub model_save_path : String
  pub model_save_volume_size : ℤ
  pub upload_model : Bool
  pub duration : ℤ
  pub image : String
  pub command : List String
  pub envs : List EnvVar
  pub worker_replicas : ℤ

pub record CPodJob : Type 0 where
  pub name : String
  pub namespace : String
  pub uid : String
  pub labels : List (String × String)
  pub creation_timestamp : Time
  pub spec : CPodJobSpec
  pub status : CPodJobStatus

unfoldable pub JobConditionType-discrete : Discrete JobConditionType
unfolding String-discrete
JobConditionType-discrete = hlevel String-discrete

instance unfoldable pub job_condition_type_eq : Eq JobConditionType
unfolding JobConditionType-discrete
job_condition_type_eq = record { dec = JobConditionType-discrete }

unfoldable pub ConditionStatus-discrete : Discrete ConditionStatus
ConditionStatus-discrete = hlevel

instance unfoldable pub condition_status_eq : Eq ConditionStatus
unfolding ConditionStatus-discrete
condition_status_eq = record { dec = ConditionStatus-discrete }

unfoldable pub CPodJobStatus-discrete : Discrete CPodJobStatus
unfolding String-discrete ℕ_discrete
CPodJobStatus-discrete = hlevel (String-discrete, ℕ_discrete)

-- `equality.Semantic.DeepEqual` on two statuses: absent and empty lists are not told apart.
instance unfoldable pub cpodjob_status_eq : Eq CPodJobStatus
unfolding CPodJobStatus-discrete
cpodjob_status_eq = record { dec = CPodJobStatus-discrete }

-- The zero values that `&CPodJob{}` starts from.
abbrev pub zero_spec : CPodJobSpec
zero_spec = record {
  job_type = "";
  gpu_required_per_replica = pos 0;
  gpu_type = "";
  dataset_path = "";
  dataset_name = "";
  pretrain_model_path = "";
  pretrain_model_name = "";
  code_path = "";
  git_repo = none;
  ckpt_path = "";
  ckpt_volume_size = pos 0;
  model_save_path = "";
  model_save_volume_size = pos 0;
  upload_model = false;
  duration = pos 0;
  image = "";
  command = [];
  envs = [];
  worker_replicas = pos 0;
}

abbrev pub zero_status : CPodJobStatus
zero_status = record {
  conditions = [];
  start_time = none;
  completion_time = none;
  last_reconcile_time = none;
}

abbrev pub zero_job : CPodJob
zero_job = record {
  name = "";
  namespace = "";
  uid = "";
  labels = [];
  creation_timestamp = 0;
  spec = zero_spec;
  status = zero_status;
}
