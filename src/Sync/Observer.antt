-- ===== src/Sync/Observer.antt =====
-- internal/synchronizer/cpodobserver.go: `CPodObserver.Start`, which reports the states of the jobs
-- and the resources of the cluster.
pub mod Nodes
pub mod Payload
pub mod Limits
use cpodoperator.Base.{
  String, Bool, true, false, Option, none, some, List, [], ◌∷◌, ◌==◌, if◌then◌else◌, ℕ,
}
use cpodoperator.Base.Int.{ℤ, pos, ltb_ℤ, ◌+ℤ◌, ◌*ℤ◌, to_int64}
use cpodoperator.Api.Job.{
  JobConditionType, created, running, succeeded, model_uploading, model_uploaded, failed,
  other_type, Time, CPodJob, job_condition_type_eq,
}
use cpodoperator.Api.Storage.{DataSetStorage, CachedModel}
use cpodoperator.Kube.Objects.{Node}
use cpodoperator.Sync.Text.{lower}
use cpodoperator.Sync.Status.{parse_status}

-- `sxwl.State`. Its field `Extension` is never set.
pub record JobState : Type 0 where
  pub name : String
  pub namespace : String
  pub job_type : String
  pub job_status : String
  pub info : String

-- What the observer calls. An answer is `none` where the call fails.
pub record Observed : Type 1 where
  pub World : Type 0
  pub now : World → World × Time
  pub list_cpodjobs : World → List (String × String) → Option (List CPodJob)
  pub list_nodes : World → Option (List Node)
  pub list_models : World → Option (List CachedModel)
  pub list_datasets : World → Option (List DataSetStorage)

-- A type's text, and `strings.ToLower` of it.
abbrev pub type_text : JobConditionType → String
type_text created = "Created"
type_text running = "Running"
type_text succeeded = "Succeeded"
type_text model_uploading = "ModelUploading"
type_text model_uploaded = "ModelUploaded"
type_text failed = "Failed"
type_text (other_type t) = t

unfoldable pub lower_text : JobConditionType → String
lower_text created = "created"
lower_text running = "running"
lower_text succeeded = "succeeded"
lower_text model_uploading = "modeluploading"
lower_text model_uploaded = "modeluploaded"
lower_text failed = "failed"
lower_text (other_type t) = lower t

-- `time.Minute`; a time is counted in nanoseconds here.
abbrev pub minute : ℤ
minute = pos 60000000000

-- `createTime.Add(time.Duration(Duration) * time.Minute).Before(time.Now())`: the product wraps
-- around in int64.
unfoldable pub is_over : Time → CPodJob → Bool
is_over now job =
    ltb_ℤ (pos job.creation_timestamp +ℤ to_int64 (job.spec.duration *ℤ minute)) (pos now)

unfoldable pub status_over : JobConditionType → JobConditionType × String
status_over t =
    if t == running then (succeeded, "timeup when running") else (failed, "timeup job not running")

unfoldable pub status_at : Time → CPodJob → JobConditionType × String
unfolding is_over status_over
status_at now job =
    if is_over now job then status_over (parse_status job.status).0 else parse_status job.status

unfoldable pub state_of : CPodJob → JobConditionType × String → JobState
unfolding lower_text
state_of job (t, info) = record {
  name = job.name;
  namespace = job.namespace;
  job_type = job.spec.job_type;
  job_status = lower_text t;
  info = info;
}

module _ (O : Observed) where
  -- The clock is read for a job with a time limit only.
  unfoldable pub observe_job : O.World → CPodJob → O.World × JobState
  unfolding status_at state_of
  observe_job w job =
      if ltb_ℤ (pos 0) job.spec.duration
      then (let (w', now) = O.now w in (w', state_of job (status_at now job)))
      else (w, state_of job (parse_status job.status))

  unfoldable pub observe_jobs : O.World → List CPodJob → O.World × List JobState
  unfolding observe_job
  observe_jobs w [] = (w, [])
  observe_jobs w (job ∷ jobs) =
      let (w', state) = observe_job w job in
      let (w'', states) = observe_jobs w' jobs in (w'', state ∷ states)

  -- `getJobStates`
  unfoldable pub get_job_states :
      O.World → List (String × String) → O.World × Option (List JobState)
  unfolding observe_jobs
  get_job_states w label = elim (O.list_cpodjobs w label) [
    | none ↦ (w, none)
    | some jobs ↦ (let (w', states) = observe_jobs w jobs in (w', some states))
  ]
