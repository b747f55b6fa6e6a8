-- ===== src/Controller/Reconcile/Outcomes.antt =====
-- What one call of `Reconcile` in internal/controller/cpodjob_controller.go does, by the state that
-- it finds.
use cpodoperator.Base.{◌≡◌, ◌⊎◌, ◌↔◌, true, false, none, arith, if◌then◌else◌, string_eq}
use cpodoperator.Api.Job.{CPodJob, model_uploaded, cpodjob_status_eq}
use cpodoperator.Status.{is_succeeded, is_failed, is_finished, get_condition}
use cpodoperator.Kube.Objects.{Key}
use cpodoperator.Kube.Outcome.{Outcome, ok, err, panic, fetched}
use cpodoperator.Kube.Client.{Client, Kubeflow}
use cpodoperator.Controller.Program.{Options, State}
use cpodoperator.Controller.Upload.{upload_saved_model}
use cpodoperator.Controller.Reconcile.{
  Result, finished, wants_upload, need_reconcile, watch_base_job, reconcile_body, reconcile_job,
  reconcile,
}

abbrev finish : Outcome (Unit {0}) → Outcome Result
finish (ok u) = ok finished
finish (err e) = err e
finish panic = panic

-- A job needs a reconciliation exactly if it has not failed and either has not succeeded, or is to
-- upload its model and has no `ModelUploaded` condition yet.
pub need_reconcile_iff :
    (job : CPodJob)
    → (need_reconcile job ≡ true) ↔ (
        (is_failed job.status ≡ false)
        × ((is_succeeded job.status ≡ false)
            ⊎ ((wants_upload job ≡ true) × (get_condition job.status model_uploaded ≡ none))))
unfolding need_reconcile
need_reconcile_iff job = ground arith

module _ (C : Client) (options : Options) (kf : Kubeflow) where
  -- Where the CPodJob is read and `needReconcile` refuses it, `Reconcile` ends well, without a
  -- requeue, and the cluster is unchanged.
  pub reconcile_idle :
      (w : C.World) (key : Key) (job : CPodJob)
      → C.get_cpodjob w key ≡ ok job
      → need_reconcile job ≡ false
      → reconcile C options kf w key ≡ (w, ok finished)
  unfolding reconcile reconcile_job fetched
  reconcile_idle w key job h idle = ground arith

  -- For a job that has ended no base job is read, created or followed.
  pub reconcile_body_of_finished :
      (s : State C.World)
      → is_finished s.job.status ≡ true
      → reconcile_body C options kf s ≡ (
          if is_succeeded s.job.status
          then if wants_upload s.job
            then (let (r, t) = upload_saved_model C options s in (finish r, t))
            else (ok finished, s)
          else (ok finished, s))
  unfolding reconcile_body watch_base_job
  reconcile_body_of_finished s h = ground arith
