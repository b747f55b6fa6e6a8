-- ===== src/Controller/Upload/Endings.antt =====
-- How an upload of internal/controller/cpodjob_controller.go ends.
use cpodoperator.Base.{String, ◌≡◌, ◌⊎◌, inl, inr, true, false, arith, ◌==◌, Option-cases}
use cpodoperator.Base.Int.{pos, ltb_ℤ, int_eq}
use cpodoperator.Api.Job.{
  CPodJob, CPodJobStatus, JobCondition, JobConditionType, ConditionStatus, Time, succeeded,
  model_uploaded, condition_true, condition_false, job_condition_type_eq, condition_status_eq,
}
use cpodoperator.Status.{
  is_succeeded, is_failed, is_status_condition_true, get_condition, set_condition, new_condition,
  unchanged, update_job_conditions,
}
use cpodoperator.Status.Lookup.{looked_up, get_condition-looked_up}
use cpodoperator.Status.Progress.{is_status_condition_true-update, succeeded-IsStable, IsStable}
use cpodoperator.Kube.Objects.{Key, BatchJob}
use cpodoperator.Kube.Outcome.{ok, fetched}
use cpodoperator.Kube.Client.{Client}
use cpodoperator.Controller.Program.{Options, State}
use cpodoperator.Controller.Upload.{upload_job_name, upload_saved_model}
use cpodoperator.Controller.Reconcile.{is_present, need_reconcile}

-- Unless the job has failed, a condition of the type is there after an update of it.
set_condition-present :
    (s : CPodJobStatus) (c : JobCondition)
    → is_failed s ≡ false
    → is_present (get_condition (set_condition s c) c.type) ≡ true
unfolding looked_up unchanged
set_condition-present s c live =
    rw get_condition-looked_up (elim (Option-cases (get_condition s c.type)) [
      | inl e ↦ ground arith
      | inr (d, e) ↦ ground arith
    ])

update-present :
    (now : Time) (s : CPodJobStatus) (t : JobConditionType) (status : ConditionStatus)
    (reason message : String)
    → is_failed s ≡ false
    → is_present (get_condition (update_job_conditions now s t status reason message) t) ≡ true
unfolding update_job_conditions new_condition
update-present now s t status reason message live =
    set_condition-present s (new_condition now t status reason message) live

model_uploaded-IsStable : IsStable model_uploaded
model_uploaded-IsStable = ((λ e. cc), (λ e. cc))

-- A succeeded job whose upload has an outcome needs no reconciliation.
unfoldable pub IsOver : CPodJob → CPodJobStatus → ConditionStatus → Type 0
IsOver job status outcome =
    (need_reconcile (record job { status = status }) ≡ false)
    × (is_present (get_condition status model_uploaded) ≡ true)
    × (is_status_condition_true status model_uploaded ≡ (outcome == condition_true))

pub update-IsOver :
    (now : Time) (job : CPodJob) (outcome : ConditionStatus) (reason message : String)
    → is_failed job.status ≡ false
    → is_succeeded job.status ≡ true
    → IsOver job
        (update_job_conditions now job.status model_uploaded outcome reason message)
        outcome
unfolding IsOver need_reconcile is_succeeded
update-IsOver now job outcome reason message live done = ground (
  arith,
  update-present now job.status model_uploaded outcome reason message live,
  is_status_condition_true-update now job.status model_uploaded outcome reason message succeeded
      succeeded-IsStable,
  is_status_condition_true-update now job.status model_uploaded outcome reason message
      model_uploaded model_uploaded-IsStable,
)

module _ (C : Client) (options : Options) (s : State C.World) where
  abbrev pub upload_key : Key
  upload_key = record { namespace = s.job.namespace; name = upload_job_name s.job }

  -- For a job that has succeeded and not failed, whose upload job is read and has either succeeded
  -- once or failed at least as often as the backoff limit: `uploadSavedModel` ends well, the job
  -- needs no more reconciliation, and it has a condition `ModelUploaded`, which is true exactly if
  -- the upload job has succeeded.
  pub upload_saved_model_of_ended :
      (upload : BatchJob)
      → is_failed s.job.status ≡ false
      → is_succeeded s.job.status ≡ true
      → C.get_batch_job s.world upload_key ≡ ok upload
      → (upload.succeeded ≡ pos 1)
        ⊎ (ltb_ℤ upload.failed options.model_upload_job_backoff_limit ≡ false)
      → let (r, t) = upload_saved_model C options s in
        (r ≡ ok tt)
        × (need_reconcile t.job ≡ false)
        × (is_present (get_condition t.job.status model_uploaded) ≡ true)
        × (is_status_condition_true t.job.status model_uploaded ≡ (upload.succeeded == pos 1))
  unfolding upload_saved_model fetched IsOver
  upload_saved_model_of_ended upload live done read ended = ground (
    arith,
    update-IsOver (C.now s.world).1 s.job condition_true "UploadModelSucceed" "Upload model succeed"
        live done,
    update-IsOver (C.now s.world).1 s.job condition_false "UploadModelSucceed"
        "modelupload backofflimit exceed" live done,
  )
