-- ===== src/Tests/Status.antt =====
-- The theorems on pkg/util/status.go at the status of a job that ran and then failed.
use cpodoperator.Base.{◌≡◌, refl, [], ◌∷◌, ◌==◌, string_eq, if◌then◌else◌, String-discrete}
use cpodoperator.Api.Job.{
  JobCondition, CPodJobStatus, running, succeeded, failed, created, condition_true, zero_status,
  job_condition_type_eq, condition_status_eq, JobConditionType-discrete, ConditionStatus-discrete,
}
use cpodoperator.Status.{
  is_failed, is_finished, is_status_condition_true, any_condition_true, get_condition,
  find_condition, update_job_conditions, set_condition, is_succeeded,
}
use cpodoperator.Status.Lookup.{made_false, get_condition-set_condition}
use cpodoperator.Status.WellFormed.{UniqueTypes, update_job_conditions-UniqueTypes}
use cpodoperator.Status.Progress.{
  is_status_condition_true-update, update_job_conditions-IsSettled, IsSettled,
}

abbrev pub created_condition : JobCondition
created_condition = record {
  type = created;
  status = condition_true;
  reason = "CpodjobCreated";
  message = "Cpodjob train is created";
  last_update_time = 10;
  last_transition_time = 10;
}

abbrev pub running_condition : JobCondition
running_condition = record {
  type = running;
  status = condition_true;
  reason = "BaseJobRunning";
  message = "running";
  last_update_time = 20;
  last_transition_time = 20;
}

abbrev pub succeeded_condition : JobCondition
succeeded_condition = record running_condition { type = succeeded }

abbrev pub failed_condition : JobCondition
failed_condition = record {
  type = failed;
  status = condition_true;
  reason = "BaseJobFailed";
  message = "out of memory";
  last_update_time = 30;
  last_transition_time = 30;
}

abbrev pub of_running : CPodJobStatus
of_running = record zero_status { conditions = created_condition ∷ running_condition ∷ [] }

abbrev pub of_failed : CPodJobStatus
of_failed = record zero_status { conditions = created_condition ∷ failed_condition ∷ [] }

is_status_condition_true-update_test :
    is_status_condition_true
      (update_job_conditions 40 of_running failed condition_true "BaseJobFailed" "")
      failed
    ≡ (if is_failed of_running
        then is_status_condition_true of_running failed
        else if failed == failed
        then condition_true == condition_true
        else is_status_condition_true of_running failed)
is_status_condition_true-update_test =
    is_status_condition_true-update 40 of_running failed condition_true "BaseJobFailed" "" failed
      ((λ e. cc), (λ e. cc))

update_job_conditions-UniqueTypes_example :
    UniqueTypes
      (update_job_conditions 40 of_running succeeded condition_true "BaseJobSucceeded"
        "").conditions
unfolding find_condition job_condition_type_eq JobConditionType-discrete
update_job_conditions-UniqueTypes_example =
    update_job_conditions-UniqueTypes 40 of_running succeeded condition_true "BaseJobSucceeded" ""
      (refl, (refl, tt))

update_job_conditions-IsSettled_test :
    IsSettled (update_job_conditions 40 of_running succeeded condition_true "BaseJobSucceeded" "")
unfolding is_finished is_succeeded is_failed is_status_condition_true any_condition_true
    job_condition_type_eq condition_status_eq JobConditionType-discrete ConditionStatus-discrete
update_job_conditions-IsSettled_test =
    update_job_conditions-IsSettled 40 of_running succeeded condition_true "BaseJobSucceeded" ""
      (λ e. cc) (λ e. cc)

get_condition-set_condition_example :
    get_condition (set_condition of_running failed_condition) running
    ≡ made_false (get_condition of_running running)
unfolding is_failed is_status_condition_true any_condition_true get_condition find_condition
    job_condition_type_eq condition_status_eq JobConditionType-discrete ConditionStatus-discrete
    String-discrete
get_condition-set_condition_example =
    get_condition-set_condition of_running failed_condition running
