-- ===== src/Controller/Report/Updates.antt =====
-- What `UpdateStatus` of internal/controller/cpodjob_controller.go makes of a CPodJob's status.
use cpodoperator.Base.{◌≡◌, true, false, Option, none, some, arith, Option-cases, inl, inr}
use cpodoperator.Api.Job.{job_condition_type_eq}
use cpodoperator.Status.{is_succeeded, is_failed, is_status_condition_true}
use cpodoperator.Status.Progress.{
  is_failed-update_failed, is_succeeded-update_failed, is_succeeded-update_succeeded,
}
use cpodoperator.Kube.Objects.{BaseStatus, BaseCondition}
use cpodoperator.Kube.Outcome.{ok}
use cpodoperator.Kube.Client.{Client, Kubeflow}
use cpodoperator.Controller.Program.{State}
use cpodoperator.Controller.Report.{begin_status, get_base_job_condition, update_status}

module _ (C : Client) (kf : Kubeflow) where
  -- The state once the start time is set.
  unfoldable pub begun : State C.World → State C.World
  begun s = (begin_status C kf s).1

  pub begin_status_lem : (s : State C.World) → begin_status C kf s ≡ (ok tt, begun s)
  unfolding begin_status begun
  begin_status_lem s = elim (Option-cases s.job.status.start_time) [
    | inl e ↦ ground arith
    | inr (t, e) ↦ ground arith
  ]

  -- The start time is the only field that changes, and it is kept if it was set.
  pub begun-status :
      (s : State C.World)
      → (begun s).job ≡ record s.job {
        status = record s.job.status { start_time = (begun s).job.status.start_time };
      }
  unfolding begin_status begun
  begun-status s = elim (Option-cases s.job.status.start_time) [
    | inl e ↦ ground arith
    | inr (t, e) ↦ ground arith
  ]

  pub is_failed-begun :
      (s : State C.World) → is_failed (begun s).job.status ≡ is_failed s.job.status
  unfolding is_failed is_status_condition_true
  is_failed-begun s = ground (arith, begun-status s)

  is_succeeded-begun :
      (s : State C.World) → is_succeeded (begun s).job.status ≡ is_succeeded s.job.status
  unfolding is_succeeded is_status_condition_true
  is_succeeded-begun s = ground (arith, begun-status s)

  module _ (s : State C.World) (base : BaseStatus) (c : BaseCondition) where
    -- A base job that has failed makes the job failed.
    pub update_status_of_failed :
        kf.is_failed base ≡ true
        → get_base_job_condition base kf.failed_type ≡ some c
        → ((update_status C kf (some base) s).0 ≡ ok tt)
          × (is_failed (update_status C kf (some base) s).1.job.status ≡ true)
          × (is_succeeded (update_status C kf (some base) s).1.job.status
              ≡ is_succeeded s.job.status)
    unfolding update_status begun
    update_status_of_failed h k = rw begin_status_lem (
        ground (
          arith,
          is_failed-update_failed (C.now (begun s).world).1 (begun s).job.status "BaseJobFailed"
              c.message,
          is_succeeded-update_failed (C.now (begun s).world).1 (begun s).job.status "BaseJobFailed"
              c.message,
          is_succeeded-begun s,
        ))

    -- A base job that has succeeded makes a job succeeded that has not failed, and gives it its
    -- completion time.
    pub update_status_of_succeeded :
        is_failed s.job.status ≡ false
        → kf.is_failed base ≡ false
        → kf.is_succeeded base ≡ true
        → get_base_job_condition base kf.succeeded_type ≡ some c
        → ((update_status C kf (some base) s).0 ≡ ok tt)
          × (is_succeeded (update_status C kf (some base) s).1.job.status ≡ true)
          × ((update_status C kf (some base) s).1.job.status.completion_time ≡ base.completion_time)
    unfolding update_status begun is_succeeded is_status_condition_true
    update_status_of_succeeded live h k found =
        rw (begin_status_lem, h, k)
          (ground (
            arith,
            is_succeeded-update_succeeded (C.now (begun s).world).1 (begun s).job.status c.reason
                c.message,
            is_failed-begun s,
          ))

  -- Only the status changes.
  pub spec-update_status :
      (s : State C.World) (base : Option BaseStatus)
      → (update_status C kf base s).1.job.spec ≡ s.job.spec
  unfolding update_status begin_status
  spec-update_status s none = ground arith
  spec-update_status s (some base) = ground arith
