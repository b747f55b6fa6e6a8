-- ===== src/Sync/Jobs/Startable.antt =====
-- The CPodJobs that internal/synchronizer/syncjob.go creates are ones that the controller can run.
use cpodoperator.Base.{String, ◌≡◌, ◌≢◌, ◌⊎◌, inl, inr, true, none, some, arith, string_eq}
use cpodoperator.Api.Job.{job_type_mpi, job_type_pytorch}
use cpodoperator.Status.{is_failed, is_succeeded, is_status_condition_true, any_condition_true}
use cpodoperator.Kube.Outcome.{ok}
use cpodoperator.Kube.Client.{Kubeflow}
use cpodoperator.Controller.Build.{Plan, build_base_job}
use cpodoperator.Controller.Create.{base_kind}
use cpodoperator.Controller.Reconcile.{need_reconcile}
use cpodoperator.Sync.Portal.{PortalJob}
use cpodoperator.Sync.Jobs.{job_type_check, new_cpodjob}

-- A type that `jobTypeCheck` accepts is, as it returns it, one of the two that the controller knows.
job_type_check-known :
    (s t : String) → job_type_check s ≡ some t → (t ≡ job_type_mpi) ⊎ (t ≡ job_type_pytorch)
unfolding job_type_check
job_type_check-known s t h = ground arith

-- If `jobTypeCheck` accepts the type of a portal job, then for the CPodJob that is created the
-- controller asks for a base job of some kind, never builds the nil object, and needs a
-- reconciliation.
pub new_cpodjob-build_base_job :
    (kf : Kubeflow) (job : PortalJob) (plan : Plan) (t : String)
    → job_type_check job.job_type ≡ some t
    → (base_kind (new_cpodjob job t).spec.job_type ≢ none)
      × (build_base_job kf (new_cpodjob job t) plan ≢ ok none)
      × (need_reconcile (new_cpodjob job t) ≡ true)
unfolding new_cpodjob base_kind build_base_job need_reconcile is_failed is_succeeded
    is_status_condition_true any_condition_true
new_cpodjob-build_base_job kf job plan t h = elim (job_type_check-known job.job_type t h) [
  | inl e ↦ ((λ k. ground arith), (λ k. ground arith), ground arith)
  | inr e ↦ ((λ k. ground arith), (λ k. ground arith), ground arith)
]
