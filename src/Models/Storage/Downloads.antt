-- ===== src/Models/Storage/Downloads.antt =====
-- A ModelStorage of internal/controller/modelstorage_controller.go is only done once its download is.
use cpodoperator.Base.{◌≡◌, ◌≢◌}
use cpodoperator.Base.Int.{pos}
use cpodoperator.Api.Storage.{ModelStorage, phase_done}
use cpodoperator.Kube.Objects.{Key, BatchJob}
use cpodoperator.Kube.Outcome.{ok, err, not_found}
use cpodoperator.Models.Hub.{Hub}
use cpodoperator.Models.Storage.{Options, Client, Stage, and_then, claim_stage, job_stage}
use cpodoperator.Models.Storage.Steps.{IsStore, Steps}
use cpodoperator.Models.Storage.Holds.{Reached, Holds}

-- The cluster without its jobs. Only the last part of `Reconcile` reads one.
abbrev jobless : Client → Client
jobless C = record C { get_job = λ w k. err not_found }

module _ (C : Client) (options : Options) (key : Key) where
  -- In the world `x` the storage that is stored names its claim and its download job, and that job is
  -- read there, in the storage's namespace, as succeeded once.
  pub record IsDownloaded (x : C.World) : Type 0 where
    pub stored : ModelStorage
    pub job : BatchJob
    pub is_stored : C.get_storage x key ≡ ok stored
    pub claimed : stored.status.target_pvc_name ≢ ""
    pub named : stored.status.target_download_job_name ≢ ""
    pub read :
        C.get_job x
          (record { namespace = stored.namespace; name = stored.status.target_download_job_name })
        ≡ ok job
    pub succeeded : job.succeeded ≡ pos 1

  -- The world in which a reconciliation of `v` gets to its last part, which reads the download job:
  -- after what the claim's part and the job's part have changed.
  abbrev pub LastPart : C.World → C.World → Type 0
  LastPart v x =
      (s : ModelStorage) × (C.get_storage v key ≡ ok s)
      × (x ≡ (and_then C (claim_stage C options v s) (job_stage C options)).0)

  module _ (store : IsStore C) (v : C.World) (s : ModelStorage) (got_s : C.get_storage v key ≡ ok s)
      (pending : s.status.phase ≢ phase_done) where
    stages : C.World × Stage ModelStorage
    stages = and_then C (claim_stage C options v s) (job_stage C options)
