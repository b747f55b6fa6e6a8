-- ===== src/Tests/Runs.antt =====
-- A store of one CPodJob, whose base job has failed, and the theorems on runs there.
use cpodoperator.Base.{
  ◌≡◌, ◌≢◌, refl, sym, inl, ◌==◌, ◌&&◌, true, if◌then◌else◌, Option, none, some, [],
  String-discrete, string_eq, arith,
}
use cpodoperator.Base.Int.{pos, int_eq}
use cpodoperator.Api.Job.{
  CPodJob, model_uploaded, job_condition_type_eq, condition_status_eq, JobConditionType-discrete,
  ConditionStatus-discrete,
}
use cpodoperator.Status.{
  get_condition, find_condition, is_finished, is_failed, is_succeeded, is_status_condition_true,
  any_condition_true,
}
use cpodoperator.Kube.Objects.{Key, BatchJob, mpi_job}
use cpodoperator.Kube.Outcome.{Outcome, ok, err, not_found, fetched}
use cpodoperator.Kube.Client.{Client}
use cpodoperator.Controller.Create.{base_kind}
use cpodoperator.Controller.Report.{get_base_job_status, get_base_job_condition, convert_mpi_status}
use cpodoperator.Controller.Program.{State}
use cpodoperator.Controller.Reconcile.{finished, is_present, reconcile}
use cpodoperator.Controller.Reconcile.Written.{followed}
use cpodoperator.Controller.Runs.Uploads.{reconcile_after_upload}
use cpodoperator.Controller.Upload.{upload_saved_model, follow_upload}
use cpodoperator.Controller.Advance.{Advances}
use cpodoperator.Controller.Runs.{key_of, IsStore, start, reconciled}
use cpodoperator.Controller.Runs.Stored.{Run-Advances, Advances-key_of, Calls-get_cpodjob}
use cpodoperator.Controller.Effects.{identity}
use cpodoperator.Controller.Effects.Bodies.{reconcile_body-Calls}
use cpodoperator.Controller.Advance.Whole.{reconcile_body-Advances}
use mathlib.Core.Path.{subst}
use cpodoperator.Controller.Runs.Quiet.{reconcile_after_failed_base}
use cpodoperator.Tests.Memory.{kubeflow, options}
use cpodoperator.Tests.Claims.{mpi_train}
use cpodoperator.Tests.Status.{of_running, of_failed}
use cpodoperator.Tests.Reconcile.{base_with, reported_with, condition, succeeded_job, uploaded_job}

abbrev pub read_at : Key → Option CPodJob → Outcome CPodJob
read_at key none = err not_found
read_at key (some s) =
    if key.namespace == s.namespace && key.name == s.name then ok s else err not_found

abbrev pub write_at : Option CPodJob → CPodJob → Option CPodJob × Outcome (Unit {0})
write_at none job = (none, err not_found)
write_at (some s) job =
    if job.namespace == s.namespace && job.name == s.name
    then (some job, ok tt)
    else (some s, err not_found)

-- The store, with what is answered of an upload job.
abbrev pub store_with : Outcome BatchJob → Client
store_with upload = record {
  World = Option CPodJob;
  now = λ w. (w, 100);
  record_event = λ w job reason text. w;
  get_cpodjob = λ w key. read_at key w;
  update_status = write_at;
  get_base_job = λ w key kind. ok (mpi_job (base_with "Failed"));
  create_base_job = λ w b. (w, ok tt);
  get_pvc = λ w key. err not_found;
  create_pvc = λ w c. (w, ok tt);
  get_dataset = λ w key. err not_found;
  get_model = λ w key. err not_found;
  get_batch_job = λ w key. upload;
  create_batch_job = λ w j. (w, ok tt);
  list_nodes = λ w labels. ok [];
}

abbrev store : Client
store = store_with (err not_found)

read_at-key_of : (k : Key) (w : Option CPodJob) (s : CPodJob) → read_at k w ≡ ok s → key_of s ≡ k
read_at-key_of k none s h = cc
read_at-key_of k (some t) s h = ground arith

read_at-write_at :
    (w : Option CPodJob) (s : CPodJob)
    → (write_at w s).1 ≡ ok tt
    → read_at (key_of s) (write_at w s).0 ≡ ok s
read_at-write_at none s h = cc
read_at-write_at (some t) s h = ground arith

write_at_of_failed :
    (w : Option CPodJob) (s : CPodJob) → (write_at w s).1 ≢ ok tt → (write_at w s).0 ≡ w
write_at_of_failed none s h = refl
write_at_of_failed (some t) s h = ground arith

read_at-write_at_apart :
    (w : Option CPodJob) (s : CPodJob) (k : Key)
    → key_of s ≢ k
    → read_at k (write_at w s).0 ≡ read_at k w
read_at-write_at_apart none s k h = refl
read_at-write_at_apart (some t) s k h =
    ground (arith, λ (a : k.namespace ≡ s.namespace) (b : k.name ≡ s.name). h (cc))

pub store_with-IsStore : (upload : Outcome BatchJob) → IsStore (store_with upload)
store_with-IsStore upload = record {
  named = λ w k s h. read_at-key_of k w s h;
  written = λ w s h. read_at-write_at w s h;
  unwritten = λ w s k h. rw (write_at_of_failed w s h) refl;
  names_apart = λ w s k h. read_at-write_at_apart w s k h;
  clock_apart = λ w k. refl;
  events_apart = λ w job reason text k. refl;
  claims_apart = λ w c k. refl;
  bases_apart = λ w b k. refl;
  uploads_apart = λ w j k. refl;
}

store-IsStore : IsStore store
store-IsStore = store_with-IsStore (err not_found)

abbrev pub train_key : Key
train_key = record { namespace = "cpod"; name = "train" }

abbrev running_job : CPodJob
running_job = record mpi_train { status = of_running }

abbrev failed_job : CPodJob
failed_job = record mpi_train { status = of_failed }

Run-Advances_example :
    (t : CPodJob) × (read_at train_key
        (reconcile store options kubeflow (some running_job) train_key).0
      ≡ ok t)
    × Advances running_job t
unfolding string_eq String-discrete
Run-Advances_example =
    Run-Advances store train_key store-IsStore options kubeflow (some running_job)
      (reconcile store options kubeflow (some running_job) train_key).0 running_job refl
      (reconciled start)

abbrev failed_end : State (Option CPodJob)
failed_end =
    followed store options kubeflow (some running_job) train_key running_job
      (mpi_job (base_with "Failed")) (reported_with "Failed") (condition "Failed")

write_at_of_read :
    (w : Option CPodJob) (s t : CPodJob) → read_at (key_of s) w ≡ ok t → (write_at w s).1 ≡ ok tt
write_at_of_read none s t h = cc
write_at_of_read (some u) s t h = ground arith

status_is_written : (write_at failed_end.world failed_end.job).1 ≡ ok tt
unfolding string_eq String-discrete
status_is_written =
    let s : State (Option CPodJob) = record { world = some running_job; job = running_job } in
    let kept : read_at train_key failed_end.world ≡ ok running_job =
      Calls-get_cpodjob store (identity running_job) (some running_job) failed_end.world train_key
        store-IsStore (reconcile_body-Calls store options kubeflow s) in
    write_at_of_read failed_end.world failed_end.job running_job (
      subst (λ k. read_at k failed_end.world ≡ ok running_job)
        (sym (
          Advances-key_of running_job failed_end.job
            (reconcile_body-Advances store options kubeflow s)))
        kept)

reconcile_after_failed_base_example :
    let w = (reconcile store options kubeflow (some running_job) train_key).0 in
    let v = (reconcile store options kubeflow w train_key).0 in
    (reconcile store options kubeflow v train_key ≡ (v, ok finished))
    × ((t : CPodJob) × (read_at train_key v ≡ ok t) × (is_failed t.status ≡ true))
unfolding is_finished is_succeeded is_failed is_status_condition_true any_condition_true
    job_condition_type_eq condition_status_eq JobConditionType-discrete ConditionStatus-discrete
    get_base_job_status convert_mpi_status get_base_job_condition base_kind string_eq
    String-discrete
reconcile_after_failed_base_example =
    reconcile_after_failed_base store options kubeflow (some running_job) train_key running_job
      (mpi_job (base_with "Failed")) (reported_with "Failed") (condition "Failed") store-IsStore
      refl refl refl refl refl refl status_is_written
      (reconcile store options kubeflow
        (reconcile store options kubeflow (some running_job) train_key).0 train_key).0
      (reconciled start)

abbrev pub uploading : Client
uploading = store_with (ok uploaded_job)

abbrev pub uploaded_end : State (Option CPodJob)
uploaded_end =
    (upload_saved_model uploading options
      (record { world = some succeeded_job; job = succeeded_job })).1

outcome_is_written : (write_at uploaded_end.world uploaded_end.job).1 ≡ ok tt
unfolding upload_saved_model follow_upload fetched int_eq string_eq String-discrete
outcome_is_written = refl

reconcile_after_upload_example :
    let w = (reconcile uploading options kubeflow (some succeeded_job) train_key).0 in
    let v = (reconcile uploading options kubeflow w train_key).0 in
    (reconcile uploading options kubeflow v train_key ≡ (v, ok finished))
    × ((t : CPodJob) × (read_at train_key v ≡ ok t)
        × (is_present (get_condition t.status model_uploaded) ≡ true)
        × (is_status_condition_true t.status model_uploaded ≡ (uploaded_job.succeeded == pos 1)))
unfolding is_succeeded is_failed is_status_condition_true any_condition_true get_condition
    find_condition job_condition_type_eq condition_status_eq JobConditionType-discrete
    ConditionStatus-discrete string_eq String-discrete
reconcile_after_upload_example =
    reconcile_after_upload uploading options kubeflow (some succeeded_job) train_key succeeded_job
      (store_with-IsStore (ok uploaded_job)) refl uploaded_job refl refl refl refl refl (inl refl)
      outcome_is_written
      (reconcile uploading options kubeflow
        (reconcile uploading options kubeflow (some succeeded_job) train_key).0 train_key).0
      (reconciled start)
