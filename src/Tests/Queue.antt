-- ===== src/Tests/Queue.antt =====
-- A queue over a store of one succeeded CPodJob whose upload has ended, and the theorems on it there.
use cpodoperator.Base.{
  ◌≡◌, ◌≢◌, refl, ap, ◌⊎◌, Bool, true, false, Option, some, arith, ◌==◌, String-discrete, string_eq,
}
use cpodoperator.Base.Int.{int_eq}
use cpodoperator.Api.Job.{
  CPodJob, model_uploaded, zero_job, job_condition_type_eq, condition_status_eq,
  JobConditionType-discrete, ConditionStatus-discrete, cpodjob_status_eq,
}
use cpodoperator.Status.{
  get_condition, find_condition, is_finished, is_failed, is_succeeded, is_status_condition_true,
  any_condition_true, update_job_conditions, set_condition, unchanged, new_condition,
  filter_out_condition, settle,
}
use cpodoperator.Kube.Objects.{Key}
use cpodoperator.Kube.Outcome.{Outcome, ok, err, panic, fetched}
use cpodoperator.Controller.Upload.{upload_saved_model, follow_upload}
use cpodoperator.Controller.Reconcile.{
  Result, finished, requeue, wants_upload, is_present, need_reconcile, watch_base_job,
  reconcile_body, write_back, reconcile_job, reconcile, on_owner_create, Created,
}
use cpodoperator.Controller.Runs.{key_of}
use cpodoperator.Controller.Queue.{
  appeared, wakes, same_key, Rules, IsDocumented, System, work, notice, told_created, worked,
  Reached, begun, after,
}
use cpodoperator.Controller.Queue.Isolation.{reconcile-apart}
use cpodoperator.Controller.Queue.Kept.{reconcile-Idle}
use cpodoperator.Controller.Queue.Watched.{at_rest-IsSettled}
use cpodoperator.Tests.Memory.{kubeflow, options}
use cpodoperator.Tests.Reconcile.{succeeded_job, uploaded_job}
use cpodoperator.Tests.Runs.{read_at, store_with-IsStore, uploading, uploaded_end, train_key}

abbrev other_key : Key
other_key = record { namespace = "cpod"; name = "other" }

other_key_is_other : other_key ≢ train_key
unfolding string_eq String-discrete
other_key_is_other h = ground (arith, ap (λ (k : Key). k.name == "other") h)

other_key_is_named : other_key ≢ key_of zero_job
unfolding string_eq String-discrete
other_key_is_named h = ground (arith, ap (λ (k : Key). k.name == "other") h)

train_key_is_named : train_key ≢ key_of zero_job
unfolding string_eq String-discrete
train_key_is_named h = ground (arith, ap (λ (k : Key). k.name == "train") h)

reconcile-apart_example :
    read_at other_key (reconcile uploading options kubeflow (some succeeded_job) train_key).0
    ≡ read_at other_key (some succeeded_job)
reconcile-apart_example =
    reconcile-apart uploading (store_with-IsStore (ok uploaded_job)) options kubeflow
      (some succeeded_job) train_key other_key other_key_is_other other_key_is_named

run_ends : (reconcile uploading options kubeflow (some succeeded_job) train_key).1 ≡ ok finished
unfolding reconcile reconcile_job need_reconcile reconcile_body watch_base_job write_back
    upload_saved_model follow_upload fetched is_finished is_succeeded is_failed
    is_status_condition_true any_condition_true get_condition find_condition update_job_conditions
    set_condition unchanged new_condition filter_out_condition settle job_condition_type_eq
    condition_status_eq JobConditionType-discrete ConditionStatus-discrete cpodjob_status_eq int_eq
    string_eq String-discrete
run_ends = refl

uploaded_is_stored :
    read_at train_key (reconcile uploading options kubeflow (some succeeded_job) train_key).0
    ≡ ok uploaded_end.job
unfolding reconcile reconcile_job need_reconcile reconcile_body watch_base_job write_back
    upload_saved_model follow_upload fetched is_finished is_succeeded is_failed
    is_status_condition_true any_condition_true get_condition find_condition update_job_conditions
    set_condition unchanged new_condition filter_out_condition settle job_condition_type_eq
    condition_status_eq JobConditionType-discrete ConditionStatus-discrete cpodjob_status_eq int_eq
    string_eq String-discrete
uploaded_is_stored = refl

reconcile-Idle_example : need_reconcile uploaded_end.job ≡ false
reconcile-Idle_example =
    reconcile-Idle uploading options kubeflow (store_with-IsStore (ok uploaded_job))
      (some succeeded_job) train_key train_key_is_named run_ends uploaded_end.job uploaded_is_stored

abbrev asks_again : Outcome Result → Bool
asks_again (ok finished) = false
asks_again (ok requeue) = true
asks_again (err e) = true
asks_again panic = true

abbrev rules : Rules
rules = record { asks_again = asks_again; without_func = true }

asks_again-false : (o : Outcome Result) → asks_again o ≡ false → o ≡ ok finished
asks_again-false (ok finished) h = refl
asks_again-false (ok requeue) h = cc
asks_again-false (err e) h = cc
asks_again-false panic h = cc

rules-IsDocumented : IsDocumented rules
rules-IsDocumented = record { done_only = asks_again-false; passes = refl }

-- The controller starts, is told of the CPodJob and runs on it.
abbrev at_start : System (Option CPodJob)
at_start = record { world = some succeeded_job; untold = λ k. true; queued = λ k. false }

abbrev told : System (Option CPodJob)
told = notice rules 100 (appeared (Created.of_job succeeded_job)) train_key at_start

abbrev at_end : System (Option CPodJob)
at_end = work uploading options kubeflow rules train_key told

told_queues : told.queued train_key ≡ true
unfolding notice wakes same_key on_owner_create string_eq String-discrete
told_queues = refl

at_end-Reached : Reached uploading options kubeflow rules at_end
at_end-Reached =
    after
      (after (begun (λ k job got. refl))
        (told_created 100 (Created.of_job succeeded_job) train_key))
      (worked train_key told_queues)

at_end_is_stored : read_at train_key at_end.world ≡ ok uploaded_end.job
unfolding work notice
at_end_is_stored = uploaded_is_stored

at_end_is_done : at_end.queued train_key ≡ false
unfolding work notice same_key string_eq String-discrete
at_end_is_done = rw run_ends refl

at_end_is_told : at_end.untold train_key ≡ false
unfolding work notice same_key string_eq String-discrete
at_end_is_told = refl

at_rest-IsSettled_example :
    (is_failed uploaded_end.job.status ≡ true)
    ⊎ ((is_succeeded uploaded_end.job.status ≡ true)
        × ((wants_upload uploaded_end.job ≡ false)
            ⊎ (is_present (get_condition uploaded_end.job.status model_uploaded) ≡ true)))
at_rest-IsSettled_example =
    at_rest-IsSettled uploading options kubeflow rules (store_with-IsStore (ok uploaded_job))
      rules-IsDocumented at_end train_key uploaded_end.job at_end-Reached train_key_is_named
      at_end_is_stored at_end_is_done at_end_is_told
