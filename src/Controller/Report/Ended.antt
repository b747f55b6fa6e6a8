-- ===== src/Controller/Report/Ended.antt =====
-- `UpdateStatus` of internal/controller/cpodjob_controller.go ends well for a job that has ended
-- alone.
use cpodoperator.Base.{
  ◌≡◌, ◌∙◌, true, false, Bool-cases, Option, some, Option-cases, inl, inr, arith, string_eq,
}
use cpodoperator.Base.Int.{int_eq}
use cpodoperator.Api.Job.{CPodJobStatus, Time}
use cpodoperator.Status.{is_succeeded, is_failed, is_finished, is_status_condition_true}
use cpodoperator.Status.Progress.{is_failed-update_failed, is_succeeded-update_succeeded}
use cpodoperator.Kube.Objects.{BaseStatus}
use cpodoperator.Kube.Client.{Client, Kubeflow}
use cpodoperator.Controller.Program.{State}
use cpodoperator.Controller.Report.{
  get_base_job_condition, note_failed, note_succeeded, note_running, update_status,
}
use cpodoperator.Controller.Report.Updates.{begun, begin_status_lem, is_failed-begun}
use cpodoperator.Controller.Program.Post.{Post}

abbrev pub Ended : {W A : Type 0} → A → State W → Type 0
Ended a t = is_finished t.job.status ≡ true

finished_with_time :
    (s : CPodJobStatus) (t : Option Time)
    → is_succeeded s ≡ true
    → is_finished (record s { completion_time = t }) ≡ true
unfolding is_finished is_succeeded is_status_condition_true
finished_with_time s t h = ground arith

module _ (C : Client) (kf : Kubeflow) where
  note_failed-Ended : (base : BaseStatus) (s : State C.World) → Post Ended (note_failed C kf base s)
  unfolding note_failed is_finished
  note_failed-Ended base s = elim (Option-cases (get_base_job_condition base kf.failed_type)) [
    | inl e ↦ rw e tt
    | inr (c, e) ↦ rw e (
        ground
          (arith, is_failed-update_failed (C.now s.world).1 s.job.status "BaseJobFailed" c.message))
  ]

  note_succeeded-Ended :
      (base : BaseStatus) (s : State C.World)
      → is_failed s.job.status ≡ false
      → Post Ended (note_succeeded C kf base s)
  unfolding note_succeeded
  note_succeeded-Ended base s live =
      elim (Option-cases (get_base_job_condition base kf.succeeded_type)) [
        | inl e ↦ rw e tt
        | inr (c, e) ↦ rw e (
            finished_with_time _ base.completion_time (
              is_succeeded-update_succeeded (C.now s.world).1 s.job.status c.reason c.message live))
      ]

  note_running-Ended : (s : State C.World) → Post Ended (note_running C kf s)
  unfolding note_running
  note_running-Ended s = tt

  pub update_status-Ended :
      (base : BaseStatus) (s : State C.World)
      → is_failed s.job.status ≡ false
      → Post Ended (update_status C kf (some base) s)
  unfolding update_status begun
  update_status-Ended base s live =
      rw (begin_status_lem C kf s) (elim (Bool-cases (kf.is_failed base)) [
        | inl e ↦ rw e (note_failed-Ended base (begun C kf s))
        | inr e ↦ elim (Bool-cases (kf.is_succeeded base)) [
          | inl h ↦
              rw (e, h) (note_succeeded-Ended base (begun C kf s) (is_failed-begun C kf s ∙ live))
          | inr h ↦ rw (e, h) (note_running-Ended (begun C kf s))
        ]
      ])
