-- ===== src/Controller/Effects/Uploads.antt =====
-- `uploadSavedModel` in internal/controller/cpodjob_controller.go: what it does to the cluster.
use cpodoperator.Base.{◌≡◌, refl, ◌==◌, not, string_eq}
use cpodoperator.Base.Int.{pos, ltb_ℤ, int_eq}
use cpodoperator.Api.Job.{CPodJob, model_uploading, model_uploaded, condition_true, condition_false}
use cpodoperator.Status.{update_job_conditions}
use cpodoperator.Kube.Objects.{BatchJob}
use cpodoperator.Kube.Outcome.{Fetched, found, missing, refused, crashed, not_found, message}
use cpodoperator.Kube.Client.{Client}
use cpodoperator.Controller.Program.{Options, throw, crash, ◌>>=◌, ask, call}
use cpodoperator.Controller.Claims.{generate_owner_ref}
use cpodoperator.Controller.Upload.{
  new_upload_job, note_uploading, note_uploaded, note_upload_failed, note_still_uploading,
  start_upload, follow_upload, upload_saved_model, upload_job_name,
}
use cpodoperator.Controller.Effects.{Identity, identity, IsOwnUpload, none_made, create_upload}
use cpodoperator.Controller.Effects.Rules.{
  Anything, anything, Does, Does-throw, Does-crash, Does-if, Does-fetched, Does-call, Does-ask,
  Does-step, Does-with_job,
}
use cpodoperator.Controller.Effects.Updates.{Does-update}
use mathlib.Core.Path.{subst}

module _ (C : Client) (id : Identity) (options : Options) where
  Does-note_uploading : Does C id Anything (note_uploading C)
  unfolding note_uploading
  Does-note_uploading = Does-update C id λ now job.
      update_job_conditions now job.status model_uploading condition_true "UploadingModel"
        "modelupload job is running"

  Does-note_uploaded : Does C id Anything (note_uploaded C)
  unfolding note_uploaded
  Does-note_uploaded = Does-update C id λ now job.
      update_job_conditions now job.status model_uploaded condition_true "UploadModelSucceed"
        "Upload model succeed"

  Does-note_upload_failed : Does C id Anything (note_upload_failed C)
  unfolding note_upload_failed
  Does-note_upload_failed = Does-update C id λ now job.
      update_job_conditions now job.status model_uploaded condition_false "UploadModelSucceed"
        "modelupload backofflimit exceed"

  Does-follow_upload : (upload : BatchJob) → Does C id Anything (follow_upload C options upload)
  unfolding follow_upload note_still_uploading
  Does-follow_upload upload =
      Does-if C id Anything (upload.succeeded == pos 1) _ _ Does-note_uploaded (
        Does-if C id Anything (not (ltb_ℤ upload.failed options.model_upload_job_backoff_limit)) _ _
          Does-note_upload_failed
          (Does-step C id Anything _ _ Does-note_uploading
            λ u. Does-throw C id Anything (message "modelupload job is running")))

  upload-IsOwnUpload :
      (job : CPodJob) → identity job ≡ id → IsOwnUpload id (new_upload_job options job)
  unfolding new_upload_job generate_owner_ref
  upload-IsOwnUpload job e =
      subst (λ i. IsOwnUpload i (new_upload_job options job)) e
        (record { named = refl; placed = refl; owned = refl })

  Does-start_upload :
      (job : CPodJob) → identity job ≡ id → Does C id Anything (start_upload C options job)
  unfolding start_upload
  Does-start_upload job e =
      Does-step C id Anything (call (λ w. C.create_batch_job w (new_upload_job options job)))
        (λ u. note_uploading C >>= λ v. throw not_found)
        (Does-call C id Anything _ (λ w. (
          create_upload (new_upload_job options job) none_made (upload-IsOwnUpload job e),
          anything (C.create_batch_job w (new_upload_job options job)).1,
        )))
        λ u. Does-step C id Anything _ _ Does-note_uploading λ v. Does-throw C id Anything not_found

  Does-read_upload :
      (job : CPodJob)
      → identity job ≡ id
      → (answer : Fetched BatchJob)
      → Does C id Anything (elim answer [
        | found upload ↦ follow_upload C options upload
        | missing ↦ start_upload C options job
        | refused e ↦ throw e
        | crashed ↦ crash
      ])
  Does-read_upload job e answer =
      Does-fetched C id Anything answer (follow_upload C options) (start_upload C options job) throw
        crash Does-follow_upload (Does-start_upload job e) (Does-throw C id Anything)
        (Does-crash C id Anything)

  pub Does-upload_saved_model : Does C id Anything (upload_saved_model C options)
  unfolding upload_saved_model
  Does-upload_saved_model =
      Does-with_job C id Anything
        (λ job.
          ask (λ w.
            C.get_batch_job w (record { namespace = job.namespace; name = upload_job_name job }))
          >>= λ answer. elim answer [
            | found upload ↦ follow_upload C options upload
            | missing ↦ start_upload C options job
            | refused e ↦ throw e
            | crashed ↦ crash
          ])
        λ job e. Does-step C id Anything _ _ (Does-ask C id _) (Does-read_upload job e)
