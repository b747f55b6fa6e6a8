-- ===== src/Controller/Advance/Whole.antt =====
-- One reconciliation of internal/controller/cpodjob_controller.go, whatever the cluster answers and
-- however it ends, moves the job up.
use cpodoperator.Base.{refl, Option, none, some, arith, ◌==◌, ◌&&◌, not, string_eq}
use cpodoperator.Base.Int.{pos, ltb_ℤ, int_eq}
use cpodoperator.Api.Job.{CPodJob, model_uploading, model_uploaded, condition_true, condition_false}
use cpodoperator.Status.{is_succeeded, is_finished}
use cpodoperator.Kube.Objects.{BatchJob, BaseJob, BaseStatus}
use cpodoperator.Kube.Outcome.{
  Outcome, ok, err, panic, Fetched, found, missing, refused, crashed, not_found, message,
}
use cpodoperator.Kube.Client.{Client, Kubeflow}
use cpodoperator.Controller.Program.{Options, State, throw, crash}
use cpodoperator.Controller.Mounts.{Mounts, no_mounts, Stage, next, done}
use cpodoperator.Controller.Build.{need_allocate_rdma_device, build_base_job}
use cpodoperator.Controller.Create.{
  lift, plan_of, create_target, submit, after_dataset, submit_or_stop, create_base_job,
  get_base_job,
}
use cpodoperator.Controller.Upload.{
  note_uploading, note_uploaded, note_upload_failed, note_still_uploading, start_upload,
  follow_upload, upload_saved_model, upload_job_name,
}
use cpodoperator.Controller.Reconcile.{
  wants_upload, returned, goes_on, create_missing, take_status, follow_base_job, watch_base_job,
  upload_if_asked, after_base_job, reconcile_body, Phase,
}
use cpodoperator.Controller.Report.{get_base_job_status}
use cpodoperator.Controller.Advance.{
  Advances, Moves, Moves-pure, Moves-throw, Moves-crash, Moves-ask, Moves-call, Moves-if,
  Moves-get_job, Moves-bind, Moves-fetched, Moves-of_same,
}
use cpodoperator.Controller.Advance.Steps.{Moves-update, Moves-add_ckpt, Moves-add_model_save}
use cpodoperator.Controller.Advance.Reports.{Moves-update_status}
use cpodoperator.Controller.Advance.Sources.{Moves-add_dataset, Moves-add_pretrain_model}

module _ (C : Client) (options : Options) (kf : Kubeflow) where
  Moves-need_allocate : (job : CPodJob) → Moves (need_allocate_rdma_device C job)
  unfolding need_allocate_rdma_device
  Moves-need_allocate job = Moves-of_same _ λ s. ground arith

  Moves-lift : (r : Outcome (Option BaseJob)) → Moves {W = C.World} (lift r)
  Moves-lift (ok a) = Moves-pure a
  Moves-lift (err e) = Moves-throw e
  Moves-lift panic = Moves-crash

  Moves-create_target : (target : Option BaseJob) → Moves (create_target C target)
  unfolding create_target
  Moves-create_target target = Moves-of_same _ λ s. refl

  Moves-submit : (m : Mounts) → Moves (submit C options kf m)
  unfolding submit
  Moves-submit m = Moves-bind _ _ Moves-get_job λ job.
      Moves-bind _ _ (Moves-need_allocate job) λ rdma.
        Moves-bind _ _ (Moves-lift (build_base_job kf job (plan_of job m rdma))) Moves-create_target

  Moves-after_dataset : (stage : Stage) → Moves (after_dataset C options kf stage)
  unfolding after_dataset
  Moves-after_dataset done = Moves-pure done
  Moves-after_dataset (next m) = Moves-add_pretrain_model C kf m

  Moves-submit_or_stop : (stage : Stage) → Moves (submit_or_stop C options kf stage)
  unfolding submit_or_stop
  Moves-submit_or_stop done = Moves-pure tt
  Moves-submit_or_stop (next m) = Moves-submit m

  pub Moves-create_base_job : Moves (create_base_job C options kf)
  unfolding create_base_job
  Moves-create_base_job = Moves-bind _ _ (Moves-add_ckpt C options no_mounts) λ ckpt.
      Moves-bind _ _ (Moves-add_model_save C options ckpt) λ saved.
        Moves-bind _ _ (Moves-add_dataset C kf saved) λ dataset.
          Moves-bind _ _ (Moves-after_dataset dataset) λ pretrained. Moves-submit_or_stop pretrained

  Moves-note_uploading : Moves (note_uploading C)
  unfolding note_uploading
  Moves-note_uploading = Moves-update C model_uploading condition_true _ _ (λ e. cc)

  Moves-follow_upload : (upload : BatchJob) → Moves (follow_upload C options upload)
  unfolding follow_upload note_uploaded note_upload_failed note_still_uploading
  Moves-follow_upload upload =
      Moves-if (upload.succeeded == pos 1) _ _
        (Moves-update C model_uploaded condition_true _ _ (λ e. cc))
        (Moves-if (not (ltb_ℤ upload.failed options.model_upload_job_backoff_limit)) _ _
          (Moves-update C model_uploaded condition_false _ _ (λ e. cc))
          (Moves-bind _ _ Moves-note_uploading
            λ u. Moves-throw (message "modelupload job is running")))

  Moves-start_upload : (job : CPodJob) → Moves (start_upload C options job)
  unfolding start_upload
  Moves-start_upload job =
      Moves-bind _ _ (Moves-call _)
        λ u. Moves-bind _ _ Moves-note_uploading λ v. Moves-throw not_found

  Moves-upload_saved_model : Moves (upload_saved_model C options)
  unfolding upload_saved_model
  Moves-upload_saved_model = Moves-bind _ _ Moves-get_job λ job.
      Moves-bind _ _
        (Moves-ask (λ w.
          C.get_batch_job w (record { namespace = job.namespace; name = upload_job_name job })))
        λ answer.
          Moves-fetched answer (follow_upload C options) (start_upload C options job) throw crash
            Moves-follow_upload (Moves-start_upload job) Moves-throw Moves-crash

  Moves-take_status : (r : Outcome (Option BaseStatus)) → Moves (take_status C options kf r)
  unfolding take_status
  Moves-take_status (ok none) = Moves-pure _
  Moves-take_status (ok (some base)) =
      Moves-bind _ _ (Moves-update_status C kf (some base)) λ u. Moves-pure goes_on
  Moves-take_status (err e) = Moves-throw e
  Moves-take_status panic = Moves-crash

  Moves-follow_base_job : (answer : Fetched BaseJob) → Moves (follow_base_job C options kf answer)
  unfolding follow_base_job create_missing
  Moves-follow_base_job (found base) =
      Moves-bind _ _ Moves-get_job
        λ job. Moves-take_status (get_base_job_status job.spec.job_type base)
  Moves-follow_base_job missing = Moves-bind _ _ Moves-create_base_job λ u. Moves-pure _
  Moves-follow_base_job (refused e) = Moves-throw e
  Moves-follow_base_job crashed = Moves-crash

  Moves-get_base_job : Moves (get_base_job C)
  unfolding get_base_job
  Moves-get_base_job = Moves-of_same _ λ s. refl

  Moves-watch_base_job : Moves (watch_base_job C options kf)
  unfolding watch_base_job
  Moves-watch_base_job = Moves-bind _ _ Moves-get_job λ job.
      Moves-if (is_finished job.status) _ _ (Moves-pure goes_on)
        (Moves-bind _ _ Moves-get_base_job Moves-follow_base_job)

  Moves-upload_if_asked : (job : CPodJob) → Moves (upload_if_asked C options kf job)
  unfolding upload_if_asked
  Moves-upload_if_asked job =
      Moves-if (is_succeeded job.status && wants_upload job) _ _
        (Moves-bind _ _ Moves-upload_saved_model λ u. Moves-pure _) (Moves-pure _)

  Moves-after_base_job : (phase : Phase) → Moves (after_base_job C options kf phase)
  unfolding after_base_job
  Moves-after_base_job (returned r) = Moves-pure r
  Moves-after_base_job goes_on = Moves-bind _ _ Moves-get_job Moves-upload_if_asked

  Moves-reconcile_body : Moves (reconcile_body C options kf)
  unfolding reconcile_body
  Moves-reconcile_body = Moves-bind _ _ Moves-watch_base_job Moves-after_base_job

  -- Whatever the cluster answers, and however the reconciliation ends, its body leaves the job's
  -- specification and names alone, its conditions keyed by type if they were, a failed job's
  -- conditions as they were, and a succeeded job succeeded.
  pub reconcile_body-Advances :
      (s : State C.World) → Advances s.job (reconcile_body C options kf s).1.job
  reconcile_body-Advances s = Moves-reconcile_body.at s
