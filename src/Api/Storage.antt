-- ===== src/Api/Storage.antt =====
-- The storage resources: api/v1 (DataSetStorage, and the ModelStorage that jobs and the heartbeat
-- read) and api/v1beta1/modelstorage_types.go (the ModelStorage that its controller reconciles).
-- Their phases are strings, so that a phase may hold anything.
use cpodoperator.Base.{String, Option}

pub record DataSetStorage : Type 0 where
  pub name : String
  pub dataset_type : String
  pub dataset_name : String
  pub pvc : String
  pub phase : String

-- `v1.ModelStorage`
pub record CachedModel : Type 0 where
  pub name : String
  pub model_type : String
  pub model_name : String
  pub pvc : String
  pub phase : String

abbrev pub model_type_hugging_face : String
model_type_hugging_face = "huggingface"

abbrev pub model_type_modelscope : String
model_type_modelscope = "modelscope"

abbrev pub phase_syncing : String
phase_syncing = "syncing"

abbrev pub phase_done : String
phase_done = "done"

pub record ModelStorageSpec : Type 0 where
  pub name : String
  pub type : String

pub record ModelStorageStatus : Type 0 where
  pub phase : String
  pub target_pvc_name : String
  pub target_download_job_name : String
  pub failure_message : Option String

-- `v1beta1.ModelStorage`
pub record ModelStorage : Type 0 where
  pub name : String
  pub namespace : String
  pub uid : String
  pub spec : ModelStorageSpec
  pub status : ModelStorageStatus
