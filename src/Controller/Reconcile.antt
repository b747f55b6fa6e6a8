-- ===== src/Controller/Reconcile.antt =====
-- internal/controller/cpodjob_controller.go: `Reconcile`, `needReconcile` and the predicate on
-- creation events.
pub mod Outcomes
pub mod BaseJobs
pub mod Written
pub mod Endings
use cpodoperator.Base.{
  String, ◌<>◌, Bool, true, false, not, ◌&&◌, Option, none, some, ◌==◌, if◌then◌else◌, string_eq,
}
use cpodoperator.Api.Job.{
  CPodJob, CPodJobStatus, Time, created, model_uploaded, condition_true, zero_job,
  cpodjob_status_eq,
}
use cpodoperator.Status.{is_succeeded, is_failed, is_finished, get_condition, update_job_conditions}
use cpodoperator.Kube.Objects.{Key, BaseJob, BaseStatus}
use cpodoperator.Kube.Outcome.{
  Error, Outcome, ok, err, panic, Fetched, found, missing, refused, crashed, fetched,
}
use cpodoperator.Kube.Client.{Client, Kubeflow}
use cpodoperator.Controller.Program.{Options, State, M, pure, throw, crash, ◌>>=◌, ◌>>◌, get_job}
use cpodoperator.Controller.Report.{get_base_job_status, update_status}
use cpodoperator.Controller.Create.{get_base_job, create_base_job}
use cpodoperator.Controller.Upload.{upload_saved_model}

-- `ctrl.Result`. With an error the result is not looked at, and is left out.
pub data Result : Type 0 where
  finished requeue : Result

-- `cpodjob.Spec.UploadModel && cpodjob.Spec.ModelSavePath != ""`
abbrev pub wants_upload : CPodJob → Bool
wants_upload job = job.spec.upload_model && not (job.spec.model_save_path == "")

abbrev pub is_present {ℓ} : {A : Type ℓ} → Option A → Bool
is_present none = false
is_present (some a) = true

unfoldable pub need_reconcile : CPodJob → Bool
need_reconcile job =
    if is_failed job.status
    then false
    else if is_succeeded job.status
    then if wants_upload job
      then not (is_present (get_condition job.status model_uploaded))
      else false
    else true

-- Whether the first part of the body returned.
pub data Phase : Type 0 where
  returned : Result → Phase
  goes_on : Phase

module _ (C : Client) (options : Options) (kf : Kubeflow) where
  unfoldable pub create_missing : M C.World Phase
  create_missing = create_base_job C options kf >> pure (returned requeue)

  unfoldable pub take_status : Outcome (Option BaseStatus) → M C.World Phase
  take_status (ok none) = pure (returned requeue)
  take_status (ok (some base)) = update_status C kf (some base) >> pure goes_on
  take_status (err e) = throw e
  take_status panic = crash

  unfoldable pub follow_base_job : Fetched BaseJob → M C.World Phase
  unfolding create_missing take_status
  follow_base_job (found base) = do
    job ← get_job
    take_status (get_base_job_status job.spec.job_type base)
  follow_base_job missing = create_missing
  follow_base_job (refused e) = throw e
  follow_base_job crashed = crash

  -- `if !util.IsFinshed(cpodjob.Status)`
  unfoldable pub watch_base_job : M C.World Phase
  unfolding follow_base_job
  watch_base_job = do
    job ← get_job
    if is_finished job.status then pure goes_on else get_base_job C >>= follow_base_job

  unfoldable pub upload_if_asked : CPodJob → M C.World Result
  upload_if_asked job =
      if is_succeeded job.status && wants_upload job
      then upload_saved_model C options >> pure finished
      else pure finished

  unfoldable pub after_base_job : Phase → M C.World Result
  unfolding upload_if_asked
  after_base_job (returned r) = pure r
  after_base_job goes_on = get_job >>= upload_if_asked

  -- The body of `Reconcile` after the deferred function.
  unfoldable pub reconcile_body : M C.World Result
  unfolding after_base_job
  reconcile_body = watch_base_job >>= after_base_job

-- What the error of the deferred update does to the outcome; a panic goes on.
unfoldable pub override : Outcome (Unit {0}) → Outcome Result → Outcome Result
override r panic = panic
override (ok u) o = o
override (err e) o = err e
override panic o = panic

module _ (C : Client) where
  -- The deferred function: a status that has changed is written, however the body ended.
  unfoldable pub write_back :
      CPodJobStatus → Outcome Result × State C.World → C.World × Outcome Result
  unfolding override
  write_back old (o, s) =
      if old == s.job.status
      then (s.world, o)
      else let (w, r) = C.update_status s.world s.job in (w, override r o)

module _ (C : Client) (options : Options) (kf : Kubeflow) where
  unfoldable pub reconcile_job : C.World → CPodJob → C.World × Outcome Result
  reconcile_job w job =
      if need_reconcile job
      then write_back C job.status (reconcile_body C options kf (record { world = w; job = job }))
      else (w, ok finished)

  -- A CPodJob that is not there is no error here, and leaves the zero value.
  reconcile_fetched : C.World → Fetched CPodJob → C.World × Outcome Result
  reconcile_fetched w (found job) = reconcile_job w job
  reconcile_fetched w missing = reconcile_job w zero_job
  reconcile_fetched w (refused e) = (w, err e)
  reconcile_fetched w crashed = (w, panic)

  unfoldable pub reconcile : C.World → Key → C.World × Outcome Result
  unfolding reconcile_fetched
  reconcile w key = reconcile_fetched w (fetched (C.get_cpodjob w key))

-- An object of a creation event: a CPodJob, or one of another type.
pub data Created : Type 0 where
  of_job : CPodJob → Created
  of_other : Created

-- `onOwnerCreateFunc`: the answer, the object as it is then, and the labels of the counter that is
-- incremented.
unfoldable pub on_owner_create : Time → Created → Bool × Created × Option (String × String)
on_owner_create now of_other = (true, of_other, none)
on_owner_create now (of_job job) = (
  true,
  of_job (record job {
    status =
        update_job_conditions now job.status created condition_true "CpodjobCreated"
          ("Cpodjob " <> job.name <> " is created");
  }),
  some (job.namespace, job.spec.job_type),
)
