-- ===== src/Process/Operator.antt =====
-- cmd/operator/main.go: the operator. Its flags are given as values, and the calls of
-- controller-runtime are a parameter.
pub mod Setup
use cpodoperator.Base.{String, ◌≡◌, Bool, true, false, Option, none, some, List, [], ◌∷◌}
use cpodoperator.Base.Int.{ℤ, pos, to_int32}
use cpodoperator.Controller.Program.{Options}

-- The flags, but for those of the logger.
pub record Flags : Type 0 where
  pub metrics_addr : String
  pub probe_addr : String
  pub enable_leader_election : Bool
  pub downloader_image : String
  pub storage_class_name : String
  pub model_upload_job_image : String
  pub model_upload_job_backoff_limit : ℤ
  pub model_upload_oss_bucket_name : String

-- The values of flags that are not given.
abbrev pub default_flags : Flags
default_flags = record {
  metrics_addr = ":8080";
  probe_addr = ":8081";
  enable_leader_election = false;
  downloader_image = "sxwl-registry.cn-beijing.cr.aliyuncs.com/sxwl-ai/downloader:v1.0.0";
  storage_class_name = "ceph-filesystem";
  model_upload_job_image = "sxwl-registry.cn-beijing.cr.aliyuncs.com/sxwl-ai/modeluploader:ea1b518";
  model_upload_job_backoff_limit = pos 10;
  model_upload_oss_bucket_name = "sxwl-ai-test";
}

-- The packages whose types are registered.
pub data Group : Type 0 where
  client_go cpod_v1beta1 cpod_v1 training mpi : Group

-- `ctrl.Options`, but for the scheme.
pub record ManagerOptions : Type 0 where
  pub bind_address : String
  pub health_probe_bind_address : String
  pub leader_election : Bool
  pub leader_election_id : String

-- What is called of controller-runtime, and `SetupWithManager` of the controller. A change answers
-- whether it succeeded.
pub record Runtime : Type 1 where
  pub World : Type 0
  pub Config : Type 0
  pub Manager : Type 0
  pub add_to_scheme : World → Group → World × Bool
  pub get_config : World → Option Config
  pub new_manager : World → Config → ManagerOptions → World × Option Manager
  pub setup_cpodjob_reconciler : World → Manager → Options → World × Bool
  pub add_healthz_check : World → Manager → World × Bool
  pub add_readyz_check : World → Manager → World × Bool
  pub start_manager : World → Manager → World × Bool

-- How the program ends: `main` returns, `os.Exit(1)`, or a panic.
pub data Exit : Type 0 where
  returned exited panicked : Exit

unfoldable pub manager_options : Flags → ManagerOptions
manager_options f = record {
  bind_address = f.metrics_addr;
  health_probe_bind_address = f.probe_addr;
  leader_election = f.enable_leader_election;
  leader_election_id = "2ca7307e.sxwl.ai";
}

-- `CPodJobOption`, with the conversion of the limit to int32.
unfoldable pub options_of : Flags → Options
options_of f = record {
  storage_class_name = f.storage_class_name;
  model_upload_job_image = f.model_upload_job_image;
  model_upload_job_backoff_limit = to_int32 f.model_upload_job_backoff_limit;
  model_upload_oss_bucket_name = f.model_upload_oss_bucket_name;
}

abbrev pub groups : List Group
groups = Group.client_go ∷ Group.cpod_v1beta1 ∷ Group.cpod_v1 ∷ Group.training ∷ Group.mpi ∷ []

module _ (R : Runtime) where
  -- What follows a call, unless it fails.
  unfoldable pub or_end : Exit → R.World × Bool → (R.World → R.World × Exit) → R.World × Exit
  or_end e (w, false) k = (w, e)
  or_end e (w, true) k = k w

  -- `init`
  unfoldable pub register : List Group → R.World → (R.World → R.World × Exit) → R.World × Exit
  unfolding or_end
  register [] w k = k w
  register (g ∷ gs) w k = or_end panicked (R.add_to_scheme w g) (λ w'. register gs w' k)

  -- `main` once there is a manager. The controller of the ModelStorages is not set up.
  unfoldable pub serve : Flags → R.Manager → R.World → R.World × Exit
  unfolding or_end options_of
  serve f mgr w = or_end exited (R.setup_cpodjob_reconciler w mgr (options_of f)) (λ w₁.
      or_end exited (R.add_healthz_check w₁ mgr) (λ w₂.
        or_end exited (R.add_readyz_check w₂ mgr)
          (λ w₃. or_end exited (R.start_manager w₃ mgr) (λ w₄. (w₄, returned)))))

  with_manager : Flags → R.World × Option R.Manager → R.World × Exit
  unfolding serve
  with_manager f (w, none) = (w, exited)
  with_manager f (w, some mgr) = serve f mgr w

  with_config : Flags → R.World → Option R.Config → R.World × Exit
  unfolding with_manager manager_options
  with_config f w none = (w, exited)
  with_config f w (some config) = with_manager f (R.new_manager w config (manager_options f))

  -- `main`, after `init`
  unfoldable pub main : Flags → R.World → R.World × Exit
  unfolding register with_config
  main f w = register groups w (λ w'. with_config f w' (R.get_config w'))
