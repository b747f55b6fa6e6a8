-- ===== src/Tests/Reconcile.antt =====
-- The theorems on `Reconcile` at the jobs of a cluster in memory.
use cpodoperator.Base.{
  inl, ◌==◌, false, ◌≡◌, ◌↔◌, ◌⊎◌, refl, true, false, none, some, [], ◌∷◌, String, String-discrete,
  string_eq, arith,
}
use text.Mathlib.TextEquality.{eq_iff}
use cpodoperator.Base.Int.{pos, int_eq}
use cpodoperator.Api.Job.{
  zero_status, CPodJob, model_uploaded, job_condition_type_eq, condition_status_eq,
  JobConditionType-discrete, ConditionStatus-discrete, condition_true,
}
use cpodoperator.Status.{
  is_finished, is_failed, is_succeeded, get_condition, is_status_condition_true, any_condition_true,
}
use cpodoperator.Kube.Objects.{
  Key, MpiCondition, MpiJob, mpi_job, BaseStatus, BaseCondition, BatchJob, restart_on_failure,
}
use cpodoperator.Kube.Outcome.{ok, err, panic, api_error, message}
use cpodoperator.Controller.Program.{State}
use cpodoperator.Controller.Create.{base_kind}
use cpodoperator.Controller.Report.{get_base_job_status, get_base_job_condition, convert_mpi_status}
use cpodoperator.Controller.Upload.{upload_saved_model}
use cpodoperator.Controller.Upload.Endings.{upload_saved_model_of_ended}
use cpodoperator.Controller.Reconcile.{
  finished, is_present, wants_upload, need_reconcile, reconcile_body, reconcile,
}
use cpodoperator.Controller.Reconcile.Outcomes.{need_reconcile_iff, reconcile_idle}
use cpodoperator.Controller.Reconcile.BaseJobs.{
  reconcile_body_of_running, reconcile_body_of_failed, reconcile_body_of_succeeded,
  reconcile_body_of_new_ckpt, reconcile_of_deleted,
}
use cpodoperator.Controller.Reconcile.Written.{followed, reconcile_of_failed_base}
use cpodoperator.Controller.Effects.{Calls, identity}
use cpodoperator.Controller.Effects.Bodies.{reconcile_body-Calls}
use cpodoperator.Controller.Advance.{Advances}
use cpodoperator.Controller.Advance.Whole.{reconcile_body-Advances}
use cpodoperator.Tests.Memory.{Memory, client, kubeflow, options, empty}
use cpodoperator.Tests.Claims.{mpi_train}
use cpodoperator.Tests.Status.{succeeded_condition, of_running, of_failed}

abbrev mpi_condition : String → MpiCondition
mpi_condition t = record {
  type = t;
  status = condition_true;
  last_update_time = 90;
  last_transition_time = 90;
  reason = t;
  message = "";
}

abbrev pub base_with : String → MpiJob
base_with t = record {
  name = "train";
  namespace = "cpod";
  owners = [];
  replica_specs = [];
  status = record {
    conditions = mpi_condition t ∷ [];
    start_time = some 20;
    completion_time = some 95;
    last_reconcile_time = none;
  };
}

abbrev with_base : String → State Memory
with_base t = record {
  world = record empty { base_jobs = mpi_job (base_with t) ∷ [] };
  job = record mpi_train { status = of_running };
}

abbrev pub condition : String → BaseCondition
condition t = record {
  type = t;
  status = condition_true;
  last_update_time = 90;
  last_transition_time = 90;
  reason = t;
  message = "";
}

abbrev pub reported_with : String → BaseStatus
reported_with t = record {
  conditions = condition t ∷ [];
  start_time = some 20;
  completion_time = some 95;
  last_reconcile_time = none;
}

abbrev new : State Memory
new = record { world = empty; job = mpi_train }

reconcile_body-Advances_test :
    Advances
      (with_base "Failed").job
      (reconcile_body client options kubeflow (with_base "Failed")).1.job
reconcile_body-Advances_test = reconcile_body-Advances client options kubeflow (with_base "Failed")

reconcile_body_of_running_test :
    (reconcile_body client options kubeflow (with_base "Running")).0
    ≡ err (message "baseJob is running")
unfolding is_finished is_succeeded is_failed is_status_condition_true any_condition_true
    job_condition_type_eq condition_status_eq JobConditionType-discrete ConditionStatus-discrete
    get_base_job_status convert_mpi_status base_kind string_eq String-discrete
reconcile_body_of_running_test =
    reconcile_body_of_running client options kubeflow (with_base "Running")
      (mpi_job (base_with "Running")) (reported_with "Running") refl refl refl refl refl

reconcile_body_of_failed_test :
    ((reconcile_body client options kubeflow (with_base "Failed")).0 ≡ ok finished)
    × (is_failed (reconcile_body client options kubeflow (with_base "Failed")).1.job.status ≡ true)
unfolding is_finished is_succeeded is_failed is_status_condition_true any_condition_true
    job_condition_type_eq condition_status_eq JobConditionType-discrete ConditionStatus-discrete
    get_base_job_status convert_mpi_status get_base_job_condition base_kind string_eq
    String-discrete
reconcile_body_of_failed_test =
    reconcile_body_of_failed client options kubeflow (with_base "Failed")
      (mpi_job (base_with "Failed")) (reported_with "Failed") refl refl refl (condition "Failed")
      refl refl

reconcile_body_of_succeeded_test :
    let (r, t) = reconcile_body client options kubeflow (with_base "Succeeded") in
    (r ≡ ok finished)
    × (is_succeeded t.job.status ≡ true)
    × (t.job.status.completion_time ≡ some 95)
unfolding is_finished is_succeeded is_failed is_status_condition_true any_condition_true
    job_condition_type_eq condition_status_eq JobConditionType-discrete ConditionStatus-discrete
    get_base_job_status convert_mpi_status get_base_job_condition base_kind string_eq
    String-discrete
reconcile_body_of_succeeded_test =
    reconcile_body_of_succeeded client options kubeflow (with_base "Succeeded")
      (mpi_job (base_with "Succeeded")) (reported_with "Succeeded") refl refl refl
      (condition "Succeeded") refl refl refl refl

reconcile_body_of_new_ckpt_example : (reconcile_body client options kubeflow new).0 ≡ panic
unfolding is_finished is_succeeded is_failed is_status_condition_true any_condition_true base_kind
    string_eq String-discrete
reconcile_body_of_new_ckpt_example =
    reconcile_body_of_new_ckpt client options kubeflow new refl refl
      (ground (arith, eq_iff "/ckpt" "")) refl refl

reconcile_of_deleted_example :
    reconcile client options kubeflow empty (record { namespace = "cpod"; name = "train" })
    ≡ (empty, err (api_error "expected pointer, but got nil"))
reconcile_of_deleted_example =
    reconcile_of_deleted client options kubeflow empty
      (record { namespace = "cpod"; name = "train" }) (api_error "expected pointer, but got nil")
      refl refl (λ e. cc)

abbrev ended : CPodJob
ended = record mpi_train { status = of_failed }

need_reconcile_iff_test : (need_reconcile ended ≡ true) ↔ (
    (is_failed ended.status ≡ false)
    × ((is_succeeded ended.status ≡ false)
        ⊎ ((wants_upload ended ≡ true) × (get_condition ended.status model_uploaded ≡ none))))
need_reconcile_iff_test = need_reconcile_iff ended

reconcile_idle_test :
    reconcile client options kubeflow
      (record empty { jobs = ended ∷ [] })
      (record { namespace = "cpod"; name = "train" })
    ≡ (record empty { jobs = ended ∷ [] }, ok finished)
unfolding need_reconcile is_failed is_status_condition_true any_condition_true job_condition_type_eq
    condition_status_eq JobConditionType-discrete ConditionStatus-discrete string_eq String-discrete
reconcile_idle_test =
    reconcile_idle client options kubeflow (record empty { jobs = ended ∷ [] })
      (record { namespace = "cpod"; name = "train" }) ended refl refl

abbrev pub succeeded_job : CPodJob
succeeded_job = record mpi_train {
  spec = record mpi_train.spec { model_save_path = "/model"; upload_model = true };
  status = record zero_status { conditions = succeeded_condition ∷ [] };
}

abbrev pub uploaded_job : BatchJob
uploaded_job = record {
  name = "train-upload";
  namespace = "cpod";
  labels = [];
  owners = [];
  backoff_limit = some (pos 10);
  completions = some (pos 1);
  parallelism = some (pos 1);
  pod = record {
    containers = [];
    volumes = [];
    node_selector = [];
    host_ipc = false;
    restart_policy = restart_on_failure;
  };
  succeeded = pos 1;
  failed = pos 3;
}

abbrev with_upload : State Memory
with_upload = record { world = record empty { uploads = uploaded_job ∷ [] }; job = succeeded_job }

upload_saved_model_of_ended_test :
    let (r, t) = upload_saved_model client options with_upload in
    (r ≡ ok tt)
    × (need_reconcile t.job ≡ false)
    × (is_present (get_condition t.job.status model_uploaded) ≡ true)
    × (is_status_condition_true t.job.status model_uploaded ≡ (uploaded_job.succeeded == pos 1))
unfolding is_succeeded is_failed is_status_condition_true any_condition_true job_condition_type_eq
    condition_status_eq JobConditionType-discrete ConditionStatus-discrete string_eq String-discrete
upload_saved_model_of_ended_test =
    upload_saved_model_of_ended client options with_upload uploaded_job refl refl refl (inl refl)

abbrev failing : Memory
failing = record empty {
  jobs = (with_base "Failed").job ∷ [];
  base_jobs = mpi_job (base_with "Failed") ∷ [];
}

abbrev train_key : Key
train_key = record { namespace = "cpod"; name = "train" }

abbrev left : State Memory
left =
    followed client options kubeflow failing train_key (with_base "Failed").job
      (mpi_job (base_with "Failed")) (reported_with "Failed") (condition "Failed")

reconcile_of_failed_base_test :
    (reconcile client options kubeflow failing train_key
      ≡ ((client.update_status left.world left.job).0, ok finished))
    × (is_failed left.job.status ≡ true)
    × (need_reconcile left.job ≡ false)
unfolding is_finished is_succeeded is_failed is_status_condition_true any_condition_true
    job_condition_type_eq condition_status_eq JobConditionType-discrete ConditionStatus-discrete
    get_base_job_status convert_mpi_status get_base_job_condition base_kind string_eq
    String-discrete
reconcile_of_failed_base_test =
    reconcile_of_failed_base client options kubeflow failing train_key (with_base "Failed").job
      (mpi_job (base_with "Failed")) (reported_with "Failed") (condition "Failed") refl refl refl
      refl refl refl refl

reconcile_body-Calls_example :
    Calls client (identity mpi_train) empty (reconcile_body client options kubeflow new).1.world
reconcile_body-Calls_example = reconcile_body-Calls client options kubeflow new
