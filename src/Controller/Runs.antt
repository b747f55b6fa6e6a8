-- ===== src/Controller/Runs.antt =====
-- Runs of `Reconcile` of internal/controller/cpodjob_controller.go on one CPodJob, with anything
-- else between them, over a store as the API server documents it.
pub mod Stored
pub mod Quiet
pub mod Uploads
use cpodoperator.Base.{String, ◌≡◌, ◌≢◌, Option}
use cpodoperator.Api.Job.{CPodJob}
use cpodoperator.Kube.Objects.{Key, Pvc, BaseJob, BatchJob}
use cpodoperator.Kube.Outcome.{ok}
use cpodoperator.Kube.Client.{Client, Kubeflow}
use cpodoperator.Controller.Program.{Options}
use cpodoperator.Controller.Reconcile.{reconcile}

abbrev pub key_of : CPodJob → Key
key_of job = record { namespace = job.namespace; name = job.name }

-- What is documented of the API server: an object is read under its key; a status update that
-- succeeds is read back, and one that fails changes nothing; an object of another name and the other
-- kinds of object are apart.
pub record IsStore (C : Client) : Type 0 where
  pub named : (w : C.World) (k : Key) (job : CPodJob) → C.get_cpodjob w k ≡ ok job → key_of job ≡ k
  pub written :
      (w : C.World) (job : CPodJob)
      → (C.update_status w job).1 ≡ ok tt
      → C.get_cpodjob (C.update_status w job).0 (key_of job) ≡ ok job
  pub unwritten :
      (w : C.World) (job : CPodJob) (k : Key)
      → (C.update_status w job).1 ≢ ok tt
      → C.get_cpodjob (C.update_status w job).0 k ≡ C.get_cpodjob w k
  pub names_apart :
      (w : C.World) (job : CPodJob) (k : Key)
      → key_of job ≢ k
      → C.get_cpodjob (C.update_status w job).0 k ≡ C.get_cpodjob w k
  pub clock_apart : (w : C.World) (k : Key) → C.get_cpodjob (C.now w).0 k ≡ C.get_cpodjob w k
  pub events_apart :
      (w : C.World) (job : CPodJob) (reason text : String) (k : Key)
      → C.get_cpodjob (C.record_event w job reason text) k ≡ C.get_cpodjob w k
  pub claims_apart :
      (w : C.World) (c : Pvc) (k : Key) → C.get_cpodjob (C.create_pvc w c).0 k ≡ C.get_cpodjob w k
  pub bases_apart :
      (w : C.World) (b : Option BaseJob) (k : Key)
      → C.get_cpodjob (C.create_base_job w b).0 k ≡ C.get_cpodjob w k
  pub uploads_apart :
      (w : C.World) (j : BatchJob) (k : Key)
      → C.get_cpodjob (C.create_batch_job w j).0 k ≡ C.get_cpodjob w k

module _ (C : Client) (options : Options) (kf : Kubeflow) (key : Key) where
  -- Reconciliations of one CPodJob, and between them any change that leaves the stored one alone:
  -- base jobs that start and end, uploads, other controllers, time.
  pub data Run (w : C.World) : C.World → Type 0 where
    start : Run w w
    reconciled : {v : C.World} → Run w v → Run w (reconcile C options kf v key).0
    elsewhere : {v u : C.World} → Run w v → C.get_cpodjob u key ≡ C.get_cpodjob v key → Run w u
