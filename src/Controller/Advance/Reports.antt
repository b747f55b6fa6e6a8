-- ===== src/Controller/Advance/Reports.antt =====
-- `UpdateStatus`, and the parts of `CreateBaseJob` that may mark a job as failed, in
-- internal/controller/cpodjob_controller.go, move the job up.
use mathlib.Core.Path.{subst}
use cpodoperator.Base.{String, ◌≡◌, refl, Option, none, some, arith, Option-cases, inl, inr, sym}
use cpodoperator.Api.Job.{CPodJobStatus, succeeded, condition_true, running, failed}
use cpodoperator.Status.{update_job_conditions}
use cpodoperator.Kube.Objects.{BaseStatus, BaseCondition}
use cpodoperator.Kube.Client.{Client, Kubeflow}
use cpodoperator.Controller.Program.{State}
use cpodoperator.Controller.Report.{
  begin_status, get_base_job_condition, note_failed, note_succeeded, note_running, update_status,
}
use cpodoperator.Controller.Report.Updates.{begun, begun-status, begin_status_lem}
use cpodoperator.Controller.Mounts.{fail_job}
use cpodoperator.Controller.Advance.{
  Advances, Advances-refl, Advances-trans, Advances-status, Advances-update, Moves, Moves-deref,
  Moves-if, Moves-bind,
}
use cpodoperator.Controller.Advance.Steps.{Moves-update}

module _ (C : Client) (kf : Kubeflow) where
  Moves-begin_status : Moves (begin_status C kf)
  unfolding begun
  Moves-begin_status = record {
    at = λ s. subst (Advances s.job) (sym (begun-status C kf s)) (
        Advances-status s.job
          (record s.job.status { start_time = (begun C kf s).job.status.start_time }) refl);
  }

  Moves-note_failed : (base : BaseStatus) → Moves (note_failed C kf base)
  unfolding note_failed
  Moves-note_failed base =
      Moves-bind _ _ (Moves-deref (get_base_job_condition base kf.failed_type))
        λ c. Moves-update C failed condition_true "BaseJobFailed" c.message (λ e. refl)

  note_succeeded-found :
      (base : BaseStatus) (c : BaseCondition) (s : State C.World)
      → get_base_job_condition base kf.succeeded_type ≡ some c
      → Advances s.job (note_succeeded C kf base s).1.job
  unfolding note_succeeded
  note_succeeded-found base c s h = rw h (
      Advances-trans s.job (record s.job { status = status }) _
        (Advances-update s.job (C.now s.world).1 succeeded condition_true c.reason c.message
          (λ e. refl))
        (Advances-status (record s.job { status = status })
          (record status { completion_time = base.completion_time }) refl))
    where
      status : CPodJobStatus
      status =
          update_job_conditions (C.now s.world).1 s.job.status succeeded condition_true c.reason
            c.message

  note_succeeded-none :
      (base : BaseStatus) (s : State C.World)
      → get_base_job_condition base kf.succeeded_type ≡ none
      → Advances s.job (note_succeeded C kf base s).1.job
  unfolding note_succeeded
  note_succeeded-none base s h = rw h (Advances-refl s.job)

  Moves-note_succeeded : (base : BaseStatus) → Moves (note_succeeded C kf base)
  Moves-note_succeeded base = record {
    at = λ s. elim (Option-cases (get_base_job_condition base kf.succeeded_type)) [
      | inl h ↦ note_succeeded-none base s h
      | inr (c, h) ↦ note_succeeded-found base c s h
    ];
  }

  Moves-note_running : Moves (note_running C kf)
  unfolding note_running
  Moves-note_running = record {
    at = λ s.
        Advances-update s.job (C.now s.world).1 running condition_true "BaseJobRunning"
          "BaseJob is running" (λ e. cc);
  }

  pub Moves-update_status : (base : Option BaseStatus) → Moves (update_status C kf base)
  unfolding update_status
  Moves-update_status none = Moves-begin_status
  Moves-update_status (some base) = Moves-bind _ _ Moves-begin_status λ u.
      Moves-if (kf.is_failed base) _ _ (Moves-note_failed base)
        (Moves-if (kf.is_succeeded base) _ _ (Moves-note_succeeded base) Moves-note_running)

  module _ (event text reason description : String) where
    -- The state in which `fail_job` calls `UpdateStatus`.
    marked : State C.World → State C.World
    marked s = record {
      world = (C.now (C.record_event s.world s.job event text)).0;
      job = record s.job {
        status =
            update_job_conditions (C.now (C.record_event s.world s.job event text)).1 s.job.status
              failed condition_true reason description;
      };
    }

    fail_job-begun :
        (s : State C.World)
        → (fail_job C kf event text reason description s).1 ≡ begun C kf (marked s)
    unfolding fail_job update_status marked
    fail_job-begun s = ground (arith, begin_status_lem C kf (marked s))

    pub Moves-fail_job : Moves (fail_job C kf event text reason description)
    unfolding marked begun
    Moves-fail_job = record {
      at = λ s. rw fail_job-begun (
          Advances-trans s.job (marked s).job _
            (Advances-update s.job (C.now (C.record_event s.world s.job event text)).1 failed
              condition_true reason description (λ e. refl))
            (Moves-begin_status.at (marked s)));
    }
