-- ===== src/Controller/Effects/Updates.antt =====
-- `UpdateStatus` in internal/controller/cpodjob_controller.go: what it does to the cluster.
use cpodoperator.Base.{Option, none, some, string_eq}
use cpodoperator.Base.Int.{int_eq}
use cpodoperator.Api.Job.{CPodJob, CPodJobStatus, Time, failed, succeeded, condition_true}
use cpodoperator.Status.{update_job_conditions}
use cpodoperator.Kube.Objects.{BaseStatus, BaseCondition}
use cpodoperator.Kube.Client.{Client, Kubeflow}
use cpodoperator.Controller.Program.{pure, ◌>>=◌, get_now, get_job, set_status}
use cpodoperator.Controller.Report.{
  start, begin_status, note_failed, note_succeeded, note_running, update_status,
}
use cpodoperator.Controller.Effects.{Identity, none_made, read_clock}
use cpodoperator.Controller.Effects.Rules.{
  Does, Anything, Does-pure, Does-deref, Does-if, Does-set_status, Does-get_now, Does-step,
  Does-with_job,
}

module _ (C : Client) (id : Identity) where
  -- The clock is read, and the status is set.
  pub Does-update :
      (f : Time → CPodJob → CPodJobStatus)
      → Does C id Anything (get_now C >>= λ now. get_job >>= λ job. set_status (f now job))
  Does-update f =
      Does-step C id Anything (get_now C) (λ now. get_job >>= λ job. set_status (f now job))
        (Does-get_now C id)
        λ now.
          Does-with_job C id Anything (λ job. set_status (f now job))
            (λ job e. Does-set_status C id (f now job))

  module _ (kf : Kubeflow) where
    Does-start :
        (status : CPodJobStatus) (t : Option Time)
        → Does C id Anything (elim t [
          | none ↦ get_now C >>= λ now. set_status (start status now)
          | some x ↦ pure tt
        ])
    Does-start status none =
        Does-step C id Anything _ _ (Does-get_now C id)
          λ now. Does-set_status C id (start status now)
    Does-start status (some x) = Does-pure C id Anything tt tt

    Does-begin_status : Does C id Anything (begin_status C kf)
    unfolding begin_status
    Does-begin_status =
        Does-with_job C id Anything
          (λ job. elim job.status.start_time [
            | none ↦ get_now C >>= λ now. set_status (start job.status now)
            | some x ↦ pure tt
          ])
          (λ job e. Does-start job.status job.status.start_time)

    Does-note_failed : (base : BaseStatus) → Does C id Anything (note_failed C kf base)
    unfolding note_failed
    Does-note_failed base =
        Does-step C id Anything _ _ (Does-deref C id Anything _ (λ a x. tt)) λ c.
          Does-update (λ now job.
            update_job_conditions now job.status failed condition_true "BaseJobFailed" c.message)

    finished : BaseStatus → BaseCondition → Time → CPodJob → CPodJobStatus
    finished base c now job =
        record (update_job_conditions now job.status succeeded condition_true c.reason c.message) {
          completion_time = base.completion_time;
        }

    Does-note_succeeded : (base : BaseStatus) → Does C id Anything (note_succeeded C kf base)
    unfolding note_succeeded finished
    Does-note_succeeded base =
        Does-step C id Anything _ _ (Does-deref C id Anything _ (λ a x. tt))
          λ c. Does-update (finished base c)

    Does-note_running : Does C id Anything (note_running C kf)
    unfolding note_running
    Does-note_running = record {
      at = λ s e. record { calls = read_clock none_made; same = e; value = tt };
    }

    pub Does-update_status :
        (base : Option BaseStatus) → Does C id Anything (update_status C kf base)
    unfolding update_status
    Does-update_status none = Does-begin_status
    Does-update_status (some base) = Does-step C id Anything _ _ Does-begin_status λ u.
        Does-if C id Anything (kf.is_failed base) _ _ (Does-note_failed base) (
          Does-if C id Anything (kf.is_succeeded base) _ _ (Does-note_succeeded base)
            Does-note_running)
