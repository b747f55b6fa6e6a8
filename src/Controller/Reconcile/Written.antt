-- ===== src/Controller/Reconcile/Written.antt =====
-- What `Reconcile` of internal/controller/cpodjob_controller.go writes back to the cluster when a
-- CPodJob's base job has failed.
use cpodoperator.Base.{◌≡◌, true, false, some, arith}
use cpodoperator.Api.Job.{CPodJob, CPodJobStatus, cpodjob_status_eq}
use cpodoperator.Status.{is_failed, is_finished}
use cpodoperator.Kube.Objects.{Key, BaseStatus, BaseCondition, BaseJob}
use cpodoperator.Kube.Outcome.{Outcome, ok, fetched}
use cpodoperator.Kube.Client.{Client, Kubeflow}
use cpodoperator.Controller.Program.{Options, State}
use cpodoperator.Controller.Report.{get_base_job_condition, get_base_job_status}
use cpodoperator.Controller.Create.{base_kind}
use cpodoperator.Controller.Reconcile.{
  Result, finished, need_reconcile, reconcile_body, write_back, reconcile_job, reconcile,
}
use cpodoperator.Controller.Reconcile.BaseJobs.{key_of, reconcile_body_of_failed}

need_reconcile_of_live :
    (job : CPodJob) → is_finished job.status ≡ false → need_reconcile job ≡ true
unfolding need_reconcile is_finished
need_reconcile_of_live job live = ground arith

is_failed_of_live : (s : CPodJobStatus) → is_finished s ≡ false → is_failed s ≡ false
unfolding is_finished
is_failed_of_live s live = ground arith

module _ (C : Client) (options : Options) (kf : Kubeflow) where
  -- A body that ends well with a failed status has it written, if the status was not failed before.
  write_back-failed :
      (old : CPodJobStatus) (o : Outcome Result) (t : State C.World)
      → is_failed old ≡ false
      → o ≡ ok finished
      → is_failed t.job.status ≡ true
      → (C.update_status t.world t.job).1 ≡ ok tt
      → write_back C old (o, t) ≡ ((C.update_status t.world t.job).0, ok finished)
  unfolding write_back
  write_back-failed old o t live well broken written = ground arith

  module _ (w : C.World) (key : Key) (job : CPodJob) (base : BaseJob) (st : BaseStatus)
      (c : BaseCondition) where
    abbrev pub started : State C.World
    started = record { world = w; job = job }

    -- The state that the body of `Reconcile` leaves.
    abbrev pub followed : State C.World
    followed = (reconcile_body C options kf started).1

    -- For a CPodJob that is read and has not ended, whose base job is read with a status that is
    -- failed and has a condition of the failed type: if the update of the status succeeds, then
    -- `Reconcile` ends well, without a requeue, and what it leaves is the cluster after the update by
    -- a CPodJob that is failed and needs no more reconciliation.
    pub reconcile_of_failed_base :
        C.get_cpodjob w key ≡ ok job
        → is_finished job.status ≡ false
        → C.get_base_job w (key_of job) (base_kind job.spec.job_type) ≡ ok base
        → get_base_job_status job.spec.job_type base ≡ ok (some st)
        → kf.is_failed st ≡ true
        → get_base_job_condition st kf.failed_type ≡ some c
        → (C.update_status followed.world followed.job).1 ≡ ok tt
        → (reconcile C options kf w key
            ≡ ((C.update_status followed.world followed.job).0, ok finished))
          × (is_failed followed.job.status ≡ true)
          × (need_reconcile followed.job ≡ false)
    unfolding reconcile reconcile_job fetched need_reconcile
    reconcile_of_failed_base get live read reported broken found written =
        let body : ((reconcile_body C options kf started).0 ≡ ok finished)
            × (is_failed followed.job.status ≡ true) =
          reconcile_body_of_failed C options kf started base st live read reported c broken found in
        ground (
          arith,
          need_reconcile_of_live job live,
          write_back-failed job.status (reconcile_body C options kf started).0 followed
              (is_failed_of_live job.status live) body.0 body.1 written,
        )
