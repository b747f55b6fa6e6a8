-- ===== src/Status/Progress.antt =====
-- How a CPodJob's conditions move under the calls of pkg/util/status.go's `UpdateJobConditions`:
-- what `IsSucceeded`, `IsFailed` and `IsFinshed` answer after one.
use cpodoperator.Base.{
  String, ◌≡◌, ◌≢◌, true, false, not, ◌&&◌, ◌||◌, Option, none, some, arith, Bool-cases,
  Option-cases, inl, inr, ◌==◌, if◌then◌else◌,
}
use cpodoperator.Api.Job.{
  JobConditionType, running, succeeded, model_uploading, failed, ConditionStatus, condition_true,
  Time, JobCondition, CPodJobStatus, job_condition_type_eq, condition_status_eq,
}
use cpodoperator.Status.{
  is_status_condition_true, is_succeeded, is_failed, is_finished, new_condition, get_condition,
  settle, unchanged, keep_transition_time, set_condition, update_job_conditions,
}
use cpodoperator.Status.Lookup.{
  is_true, dropped, looked_up, get_condition-type, is_status_condition_true-get,
  get_condition-looked_up,
}

-- The conditions that no update of another type touches.
abbrev pub IsStable : JobConditionType → Type 0
IsStable u = (u ≢ running) × (u ≢ model_uploading)

looked_up-is_true :
    (s : CPodJobStatus) (c : JobCondition) (u : JobConditionType)
    → IsStable u
    → is_true (looked_up s c u (get_condition s u)) ≡ (
        if is_failed s
        then is_true (get_condition s u)
        else if u == c.type
        then c.status == condition_true
        else is_true (get_condition s u))
unfolding looked_up dropped settle unchanged keep_transition_time
looked_up-is_true s c u h = elim (Option-cases (get_condition s u)) [
  | inl e ↦ ground arith
  | inr (d, e) ↦ ground (arith, get_condition-type s u d e)
]

is_status_condition_true-set :
    (s : CPodJobStatus) (c : JobCondition) (u : JobConditionType)
    → IsStable u
    → is_status_condition_true (set_condition s c) u ≡ (
        if is_failed s
        then is_status_condition_true s u
        else if u == c.type
        then c.status == condition_true
        else is_status_condition_true s u)
is_status_condition_true-set s c u h =
    rw
      (
        is_status_condition_true-get (set_condition s c) u,
        get_condition-looked_up,
        is_status_condition_true-get s u,
      )
      (looked_up-is_true s c u h)

-- After an update of type `t`, a type `u` other than `Running` and `ModelUploading` is true as it
-- was before if the job had failed or `u` is not `t`, and else exactly if the update's status is
-- true.
pub is_status_condition_true-update :
    (now : Time) (s : CPodJobStatus) (t : JobConditionType) (status : ConditionStatus)
    (reason message : String) (u : JobConditionType)
    → IsStable u
    → is_status_condition_true (update_job_conditions now s t status reason message) u ≡ (
        if is_failed s
        then is_status_condition_true s u
        else if u == t
        then status == condition_true
        else is_status_condition_true s u)
unfolding update_job_conditions new_condition
is_status_condition_true-update now s t status reason message u h =
    is_status_condition_true-set s (new_condition now t status reason message) u h

-- A failed job is frozen.
pub update_of_failed :
    (now : Time) (s : CPodJobStatus) (t : JobConditionType) (status : ConditionStatus)
    (reason message : String)
    → is_failed s ≡ true
    → update_job_conditions now s t status reason message ≡ s
unfolding update_job_conditions set_condition
update_of_failed now s t status reason message h = ground arith

-- The job is not said to run once it has ended.
abbrev pub IsSettled : CPodJobStatus → Type 0
IsSettled s = is_finished s ≡ true → is_status_condition_true s running ≡ false

looked_up-running :
    (s : CPodJobStatus) (c : JobCondition)
    → is_failed s ≡ false
    → is_true (looked_up s c running (get_condition s running)) ≡ (
        if c.type == running
        then c.status == condition_true
        else if (c.type == succeeded || c.type == failed)
            && not (unchanged (get_condition s c.type) c)
        then false
        else is_true (get_condition s running))
unfolding looked_up dropped settle unchanged keep_transition_time
looked_up-running s c h = elim (Option-cases (get_condition s running)) [
  | inl e ↦ ground arith
  | inr (d, e) ↦ ground (arith, get_condition-type s running d e)
]

unchanged-true :
    (o : Option JobCondition) (c : JobCondition)
    → unchanged o c ≡ true
    → c.status ≡ condition_true
    → is_true o ≡ true
unfolding unchanged
unchanged-true none c h k = cc
unchanged-true (some o) c h k = ground arith

set_condition_of_failed :
    (s : CPodJobStatus) (c : JobCondition) → is_failed s ≡ true → set_condition s c ≡ s
unfolding set_condition
set_condition_of_failed s c h = ground arith

set_condition-IsSettled_of_live :
    (s : CPodJobStatus) (c : JobCondition)
    → is_failed s ≡ false
    → (c.type ≡ running → is_finished s ≡ false)
    → IsSettled s
    → IsSettled (set_condition s c)
unfolding is_finished is_succeeded is_failed
set_condition-IsSettled_of_live s c live idle h =
    rw
      (
        is_status_condition_true-get (set_condition s c) running,
        get_condition-looked_up s c running,
        looked_up-running s c live,
        is_status_condition_true-set s c succeeded ((λ e. cc), (λ e. cc)),
        is_status_condition_true-set s c failed ((λ e. cc), (λ e. cc)),
      )
      (ground (
        arith,
        unchanged-true (get_condition s c.type) c,
        is_status_condition_true-get s running,
        is_status_condition_true-get s succeeded,
        is_status_condition_true-get s c.type,
      ))

set_condition-IsSettled :
    (s : CPodJobStatus) (c : JobCondition)
    → (c.type ≡ running → is_finished s ≡ false)
    → IsSettled s
    → IsSettled (set_condition s c)
set_condition-IsSettled s c idle h = elim (Bool-cases (is_failed s)) [
  | inl e ↦ rw (set_condition_of_failed s c e) h
  | inr e ↦ set_condition-IsSettled_of_live s c e idle h
]

-- If a status that has succeeded or failed does not have `Running` true, so it is after an update,
-- provided that the update is not one of `Running` on a job that has ended.
pub update_job_conditions-IsSettled :
    (now : Time) (s : CPodJobStatus) (t : JobConditionType) (status : ConditionStatus)
    (reason message : String)
    → (t ≡ running → is_finished s ≡ false)
    → IsSettled s
    → IsSettled (update_job_conditions now s t status reason message)
unfolding update_job_conditions new_condition
update_job_conditions-IsSettled now s t status reason message idle h =
    set_condition-IsSettled s (new_condition now t status reason message) idle h

failed-IsStable : IsStable failed
failed-IsStable = ((λ e. cc), (λ e. cc))

pub succeeded-IsStable : IsStable succeeded
succeeded-IsStable = ((λ e. cc), (λ e. cc))

-- Setting a condition to true makes it true, unless the job has failed.
pub is_failed-update_failed :
    (now : Time) (s : CPodJobStatus) (reason message : String)
    → is_failed (update_job_conditions now s failed condition_true reason message) ≡ true
unfolding is_failed
is_failed-update_failed now s reason message =
    rw
      (is_status_condition_true-update now s failed condition_true reason message failed
        failed-IsStable)
      (ground arith)

pub is_succeeded-update_failed :
    (now : Time) (s : CPodJobStatus) (reason message : String)
    → is_succeeded (update_job_conditions now s failed condition_true reason message)
      ≡ is_succeeded s
unfolding is_succeeded
is_succeeded-update_failed now s reason message =
    rw
      (is_status_condition_true-update now s failed condition_true reason message succeeded
        succeeded-IsStable)
      (ground arith)

pub is_succeeded-update_succeeded :
    (now : Time) (s : CPodJobStatus) (reason message : String)
    → is_failed s ≡ false
    → is_succeeded (update_job_conditions now s succeeded condition_true reason message) ≡ true
unfolding is_succeeded
is_succeeded-update_succeeded now s reason message live =
    rw
      (is_status_condition_true-update now s succeeded condition_true reason message succeeded
        succeeded-IsStable)
      (ground arith)
