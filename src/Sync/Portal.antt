-- ===== src/Sync/Portal.antt =====
-- pkg/provider/sxwl/interface.go: what the portal and the synchronizer tell each other, and what
-- the synchronizer calls: the portal, and the cluster through its own client. An error is only
-- logged there, so an answer is an `Option`, and the outcome of a change a Boolean.
use cpodoperator.Base.{String, Bool, Option, List}
use cpodoperator.Base.Int.{ℤ}
use cpodoperator.Api.Job.{CPodJob}

-- `PortalJob`
pub record PortalJob : Type 0 where
  pub ckpt_path : String
  pub ckpt_vol : ℤ
  pub command : String
  pub envs : List (String × String)
  pub dataset_path : String
  pub dataset_name : String
  pub gpu_number : ℤ
  pub gpu_type : String
  pub hf_url : String
  pub image_path : String
  pub job_id : ℤ
  pub job_name : String
  pub job_type : String
  pub model_path : String
  pub model_vol : ℤ
  pub pretrain_model_name : String
  pub pretrain_model_path : String
  pub stop_time : ℤ
  pub stop_type : ℤ

-- What `SyncJob` calls. A change answers whether it succeeded.
pub record Cluster : Type 1 where
  pub World : Type 0
  pub list_cpodjobs : World → List (String × String) → Option (List CPodJob)
  pub create_cpodjob : World → CPodJob → World × Bool
  pub delete_cpodjob : World → CPodJob → World × Bool
  pub get_assigned_job_list : World → World × Option (List PortalJob)
