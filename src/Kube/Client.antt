-- ===== src/Kube/Client.antt =====
-- The clients that the components are given: a state of the cluster, and the calls that read it
-- and change it. No call is assumed to succeed. What a theorem needs of one is its hypothesis.
use cpodoperator.Base.{String, Bool, Option, List}
use cpodoperator.Api.Job.{CPodJob, Time}
use cpodoperator.Api.Storage.{DataSetStorage, CachedModel}
use cpodoperator.Kube.Objects.{Key, Pvc, BaseKind, BaseJob, BaseStatus, BatchJob, Node}
use cpodoperator.Kube.Outcome.{Outcome}

-- What the CPodJob controller calls. A base job of no kind is the nil object.
pub record Client : Type 1 where
  pub World : Type 0
  pub now : World → World × Time
  pub record_event : World → CPodJob → String → String → World
  pub get_cpodjob : World → Key → Outcome CPodJob
  pub update_status : World → CPodJob → World × Outcome (Unit {0})
  pub get_base_job : World → Key → Option BaseKind → Outcome BaseJob
  pub create_base_job : World → Option BaseJob → World × Outcome (Unit {0})
  pub get_pvc : World → Key → Outcome Pvc
  pub create_pvc : World → Pvc → World × Outcome (Unit {0})
  pub get_dataset : World → Key → Outcome DataSetStorage
  pub get_model : World → Key → Outcome CachedModel
  pub get_batch_job : World → Key → Outcome BatchJob
  pub create_batch_job : World → BatchJob → World × Outcome (Unit {0})
  pub list_nodes : World → List (String × String) → Outcome (List Node)

-- What is used of Kubeflow: the names of the replica types and of the condition types, and the
-- training operator's tests of a job's status.
pub record Kubeflow : Type 0 where
  pub mpi_launcher : String
  pub mpi_worker : String
  pub pytorch_worker : String
  pub paddle_worker : String
  pub failed_type : String
  pub succeeded_type : String
  pub is_failed : BaseStatus → Bool
  pub is_succeeded : BaseStatus → Bool
