-- ===== src/Controller/Report.antt =====
-- internal/controller/cpodjob_controller.go, and the last function of pkg/util/status.go: the status
-- of a base job, and what a CPodJob's own status takes from it.
pub mod Ended
pub mod Updates
use mathlib.Core.Option
use cpodoperator.Base.{
  String, Option, none, some, List, [], ◌∷◌, map, ◌==◌, if◌then◌else◌, string_eq,
}
use cpodoperator.Api.Job.{
  CPodJobStatus, Time, running, succeeded, failed, condition_true, job_type_mpi, job_type_pytorch,
}
use cpodoperator.Status.{update_job_conditions}
use cpodoperator.Kube.Objects.{
  MpiCondition, BaseCondition, BaseStatus, BaseJob, mpi_job, pytorch_job, MpiJob,
}
use cpodoperator.Kube.Outcome.{Outcome, ok, panic, message}
use cpodoperator.Kube.Client.{Client, Kubeflow}
use cpodoperator.Controller.Program.{
  M, pure, throw, crash, ◌>>=◌, ◌>>◌, set_status, get_job, get_now, deref,
}

-- The loop of `GetBaseJobCondition`.
find_base_condition : List BaseCondition → String → Option BaseCondition
find_base_condition [] t = none
find_base_condition (c ∷ cs) t = if c.type == t then some c else find_base_condition cs t

unfoldable pub get_base_job_condition : BaseStatus → String → Option BaseCondition
unfolding find_base_condition
get_base_job_condition s t = find_base_condition s.conditions t

convert_condition : MpiCondition → BaseCondition
convert_condition c = record {
  type = c.type;
  status = c.status;
  last_update_time = c.last_update_time;
  last_transition_time = c.last_transition_time;
  reason = c.reason;
  message = c.message;
}

unfoldable pub convert_mpi_conditions : List MpiCondition → List BaseCondition
unfolding convert_condition
convert_mpi_conditions cs = map convert_condition cs

unfoldable pub convert_mpi_status : MpiJob → BaseStatus
unfolding convert_mpi_conditions
convert_mpi_status j = record {
  conditions = convert_mpi_conditions j.status.conditions;
  start_time = j.status.start_time;
  completion_time = j.status.completion_time;
  last_reconcile_time = j.status.last_reconcile_time;
}

-- The assertions of `GetBaseJobStatus` on the type of the base job, which panic on the other type.
as_pytorch : BaseJob → Outcome (Option BaseStatus)
as_pytorch (pytorch_job j) = ok (some j.status)
as_pytorch (mpi_job j) = panic

as_mpi : BaseJob → Outcome (Option BaseStatus)
as_mpi (mpi_job j) = ok (some (convert_mpi_status j))
as_mpi (pytorch_job j) = panic

unfoldable pub get_base_job_status : String → BaseJob → Outcome (Option BaseStatus)
unfolding as_pytorch as_mpi
get_base_job_status job_type base =
    if job_type == job_type_pytorch
    then as_pytorch base
    else if job_type == job_type_mpi
    then as_mpi base
    else ok none

abbrev pub start : CPodJobStatus → Time → CPodJobStatus
start s now = record s { start_time = some now }

module _ (C : Client) (kf : Kubeflow) where
  -- `if cpodjob.Status.StartTime == nil`
  unfoldable pub begin_status : M C.World (Unit {0})
  begin_status = do
    job ← get_job
    elim job.status.start_time [
      | none ↦ get_now C >>= λ now. set_status (start job.status now)
      | some t ↦ pure tt
    ]

  unfoldable pub note_failed : BaseStatus → M C.World (Unit {0})
  note_failed base = do
    condition ← deref (get_base_job_condition base kf.failed_type)
    now ← get_now C
    job ← get_job
    set_status (
        update_job_conditions now job.status failed condition_true "BaseJobFailed"
          condition.message)

  unfoldable pub note_succeeded : BaseStatus → M C.World (Unit {0})
  note_succeeded base = do
    condition ← deref (get_base_job_condition base kf.succeeded_type)
    now ← get_now C
    job ← get_job
    let status =
        update_job_conditions now job.status succeeded condition_true condition.reason
          condition.message
    set_status (record status { completion_time = base.completion_time })

  unfoldable pub note_running : M C.World (Unit {0})
  note_running = do
    now ← get_now C
    job ← get_job
    set_status (
        update_job_conditions now job.status running condition_true "BaseJobRunning"
          "BaseJob is running")
    throw (message "baseJob is running")

  unfoldable pub update_status : Option BaseStatus → M C.World (Unit {0})
  unfolding begin_status note_failed note_succeeded note_running
  update_status none = begin_status
  update_status (some base) = do
    begin_status
    if kf.is_failed base
        then note_failed base
        else if kf.is_succeeded base
        then note_succeeded base
        else note_running
