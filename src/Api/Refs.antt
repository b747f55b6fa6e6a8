-- ===== src/Api/Refs.antt =====
-- api/v1beta1: the structs with pointers and slices as they stand in memory, and the values that they
-- stand for: a CPodJob's status and a ModelStorage. A CPodJob's specification holds pointers and slices
-- of types of other packages (`ReplicaSpecs`, the `ValueFrom` of its `Envs`) and is left out.
use cpodoperator.Base.{String, Option, none, some, List, []}
use cpodoperator.Api.Job.{JobCondition, Time, CPodJobStatus}
use cpodoperator.Api.Storage.{ModelStorageStatus, ModelStorageSpec}
use cpodoperator.Api.Heap.{Address, Cell, of_time, of_text, of_conditions, Heap, content}

infixl 5 ◌>>=◌
abbrev ◌>>=◌ : {A B : Type 0} → Option A → (A → Option B) → Option B
◌>>=◌ none f = none
◌>>=◌ (some a) f = f a

-- `CPodJobStatus` as it stands in memory.
pub record StatusRef : Type 0 where
  pub conditions : Option Address
  pub start_time : Option Address
  pub completion_time : Option Address
  pub last_reconcile_time : Option Address

-- `ModelStorageStatus` as it stands in memory.
pub record StorageRef : Type 0 where
  pub phase : String
  pub target_pvc_name : String
  pub target_download_job_name : String
  pub failure_message : Option Address

-- What the memory says at a pointer or a slice of each type; at an address of another type nothing.
abbrev pub time_in : Option Cell → Option (Option Time)
time_in none = some none
time_in (some (of_time t)) = some (some t)
time_in (some _) = none

abbrev pub text_in : Option Cell → Option (Option String)
text_in none = some none
text_in (some (of_text t)) = some (some t)
text_in (some _) = none

abbrev pub conditions_in : Option Cell → Option (List JobCondition)
conditions_in none = some []
conditions_in (some (of_conditions cs)) = some cs
conditions_in (some _) = none

-- The value that a status in memory stands for.
unfoldable pub read_status : Heap → StatusRef → Option CPodJobStatus
read_status h s = do
  c ← content h s.conditions
  conditions ← conditions_in c
  a ← content h s.start_time
  start_time ← time_in a
  b ← content h s.completion_time
  completion_time ← time_in b
  r ← content h s.last_reconcile_time
  last_reconcile_time ← time_in r
  some (record {
    conditions = conditions;
    start_time = start_time;
    completion_time = completion_time;
    last_reconcile_time = last_reconcile_time;
  })

unfoldable pub read_storage : Heap → StorageRef → Option ModelStorageStatus
read_storage h s = do
  m ← content h s.failure_message
  failure_message ← text_in m
  some (record {
    phase = s.phase;
    target_pvc_name = s.target_pvc_name;
    target_download_job_name = s.target_download_job_name;
    failure_message = failure_message;
  })

-- `v1beta1.ModelStorage` as it stands in memory, and its value. Its specification holds no pointer,
-- and its metadata are of another package, with a copy of their own.
pub record ModelStorageRef (M : Type 0) : Type 0 where
  pub type_meta : String × String
  pub object_meta : M
  pub spec : ModelStorageSpec
  pub status : StorageRef

pub record ModelStorageValue (V : Type 0) : Type 0 where
  pub type_meta : String × String
  pub object_meta : V
  pub spec : ModelStorageSpec
  pub status : ModelStorageStatus

unfoldable pub read_model_storage :
    {M V : Type 0} → (Heap → M → Option V) → Heap → ModelStorageRef M → Option (ModelStorageValue V)
read_model_storage read_meta h s = do
  object_meta ← read_meta h s.object_meta
  status ← read_storage h s.status
  some (record {
    type_meta = s.type_meta;
    object_meta = object_meta;
    spec = s.spec;
    status = status;
  })
