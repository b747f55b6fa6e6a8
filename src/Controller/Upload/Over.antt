-- ===== src/Controller/Upload/Over.antt =====
-- Where `uploadSavedModel` of internal/controller/cpodjob_controller.go ends well, its CPodJob needs
-- no reconciliation.
use cpodoperator.Base.{String, ◌≡◌, true, false, ◌==◌, not, Bool-cases, inl, inr, arith, string_eq}
use cpodoperator.Base.Int.{pos, ltb_ℤ, int_eq}
use cpodoperator.Api.Job.{
  CPodJob, Time, ConditionStatus, model_uploaded, condition_true, condition_false,
}
use cpodoperator.Status.{is_succeeded, is_failed, update_job_conditions}
use cpodoperator.Status.Progress.{update_of_failed}
use cpodoperator.Kube.Objects.{BatchJob}
use cpodoperator.Kube.Outcome.{Fetched, found, missing, refused, crashed, not_found}
use cpodoperator.Kube.Client.{Client}
use cpodoperator.Controller.Program.{Options, State, M, throw, crash, ◌>>◌, call}
use cpodoperator.Controller.Upload.{
  new_upload_job, note_uploaded, note_upload_failed, note_still_uploading, note_uploading,
  start_upload, follow_upload, upload_saved_model,
}
use cpodoperator.Controller.Upload.Endings.{IsOver, update-IsOver}
use cpodoperator.Controller.Reconcile.{need_reconcile}
use cpodoperator.Controller.Program.Post.{Post, Post-bind, Any, Any-Post}

abbrev pub Over : {W A : Type 0} → A → State W → Type 0
Over a t = need_reconcile t.job ≡ false

over_of_failed : (job : CPodJob) → is_failed job.status ≡ true → need_reconcile job ≡ false
unfolding need_reconcile
over_of_failed job h = ground arith

module _ (C : Client) (options : Options) where
  -- An outcome of the upload is noted.
  outcome-over :
      (now : Time) (job : CPodJob) (outcome : ConditionStatus) (reason text : String)
      → is_succeeded job.status ≡ true
      → need_reconcile (record job {
        status = update_job_conditions now job.status model_uploaded outcome reason text;
      })
        ≡ false
  unfolding IsOver
  outcome-over now job outcome reason text done = elim (Bool-cases (is_failed job.status)) [
    | inl broken ↦
        rw (update_of_failed now job.status model_uploaded outcome reason text broken)
          (over_of_failed job broken)
    | inr live ↦
        let over : IsOver job
            (update_job_conditions now job.status model_uploaded outcome reason text) outcome =
          update-IsOver now job outcome reason text live done in
        over.0
  ]

  follow_upload-Over :
      (upload : BatchJob) (s : State C.World)
      → is_succeeded s.job.status ≡ true
      → Post Over (follow_upload C options upload s)
  unfolding follow_upload note_uploaded note_upload_failed note_still_uploading note_uploading
  follow_upload-Over upload s done = elim (Bool-cases (upload.succeeded == pos 1)) [
    | inl e ↦ rw e (
        outcome-over (C.now s.world).1 s.job condition_true "UploadModelSucceed"
          "Upload model succeed" done)
    | inr e ↦ elim (Bool-cases (not (ltb_ℤ upload.failed options.model_upload_job_backoff_limit))) [
      | inl h ↦
          rw (e, h)
            (outcome-over (C.now s.world).1 s.job condition_false "UploadModelSucceed"
              "modelupload backofflimit exceed" done)
      | inr h ↦ rw (e, h) tt
    ]
  ]

  read_upload-Over :
      (answer : Fetched BatchJob) (s : State C.World)
      → is_succeeded s.job.status ≡ true
      → Post Over (
          elim answer as (λ x. M C.World (Unit {0})) [
            | found upload ↦ follow_upload C options upload
            | missing ↦ start_upload C options s.job
            | refused e ↦ throw e
            | crashed ↦ crash
          ]
            s)
  unfolding start_upload note_uploading
  read_upload-Over (found upload) s done = follow_upload-Over upload s done
  read_upload-Over missing s done =
      Post-bind Any Over (call (λ w. C.create_batch_job w (new_upload_job options s.job)))
        (λ u. note_uploading C >> throw not_found) s (Any-Post _) (λ u t h. tt)
  read_upload-Over (refused e) s done = tt
  read_upload-Over crashed s done = tt

  pub upload_saved_model-Over :
      (s : State C.World)
      → is_succeeded s.job.status ≡ true
      → Post Over (upload_saved_model C options s)
  unfolding upload_saved_model
  upload_saved_model-Over s done = read_upload-Over _ s done
