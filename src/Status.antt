-- ===== src/Status.antt =====
-- pkg/util/status.go: reading and updating the conditions of a CPodJob. A pointer to a condition
-- that is returned is an `Option`; a status that is changed in place is the new status.
pub mod Lookup
pub mod WellFormed
pub mod Progress
use cpodoperator.Base.{
  String, Bool, true, false, ◌&&◌, ◌||◌, Option, none, some, List, [], ◌∷◌, ◌++◌, ◌==◌,
  if◌then◌else◌,
}
use cpodoperator.Api.Job.{
  JobConditionType, running, succeeded, model_uploading, model_uploaded, failed, ConditionStatus,
  condition_true, condition_false, Time, JobCondition, CPodJobStatus, job_condition_type_eq,
  condition_status_eq,
}
use cpodoperator.Base.{string_eq}

-- The loop of `isStatusConditionTrue`: the first condition of the type decides.
unfoldable pub any_condition_true : List JobCondition → JobConditionType → Bool
any_condition_true [] t = false
any_condition_true (c ∷ cs) t =
    if c.type == t then c.status == condition_true else any_condition_true cs t

unfoldable pub is_status_condition_true : CPodJobStatus → JobConditionType → Bool
unfolding any_condition_true
is_status_condition_true s t = any_condition_true s.conditions t

unfoldable pub is_succeeded : CPodJobStatus → Bool
is_succeeded s = is_status_condition_true s succeeded

unfoldable pub is_failed : CPodJobStatus → Bool
is_failed s = is_status_condition_true s failed

unfoldable pub is_finished : CPodJobStatus → Bool
is_finished s = is_succeeded s || is_failed s

unfoldable pub new_condition :
    Time → JobConditionType → ConditionStatus → String → String → JobCondition
new_condition now t s reason message = record {
  type = t;
  status = s;
  reason = reason;
  message = message;
  last_update_time = 0;
  last_transition_time = now;
}

-- The loop of `GetCondition`.
unfoldable pub find_condition : List JobCondition → JobConditionType → Option JobCondition
find_condition [] t = none
find_condition (c ∷ cs) t = if c.type == t then some c else find_condition cs t

unfoldable pub get_condition : CPodJobStatus → JobConditionType → Option JobCondition
get_condition s t = find_condition s.conditions t

-- What the loop of `filterOutCondition` appends for a condition of another type: a running
-- condition becomes false when the job ends, and uploading goes when uploaded is set.
unfoldable pub settle : JobConditionType → JobCondition → JobCondition
settle t c =
    if (t == failed || t == succeeded) && c.type == running
    then record c { status = condition_false }
    else c

unfoldable pub filter_out_condition : List JobCondition → JobConditionType → List JobCondition
filter_out_condition [] t = []
filter_out_condition (c ∷ cs) t =
    let rest = filter_out_condition cs t in
    if c.type == t
    then rest
    else if t == model_uploaded && c.type == model_uploading
    then rest
    else settle t c ∷ rest

-- The condition does not change.
unfoldable pub unchanged : Option JobCondition → JobCondition → Bool
unchanged none c = false
unchanged (some o) c = o.status == c.status && o.reason == c.reason && o.message == c.message

-- The transition time stays where the status of the condition does.
unfoldable pub keep_transition_time : Option JobCondition → JobCondition → JobCondition
keep_transition_time none c = c
keep_transition_time (some o) c =
    if o.status == c.status then record c { last_transition_time = o.last_transition_time } else c

unfoldable pub set_condition : CPodJobStatus → JobCondition → CPodJobStatus
set_condition s c =
    let current = get_condition s c.type in
    if is_failed s then s else if unchanged current c then s else record s {
      conditions = filter_out_condition s.conditions c.type ++ keep_transition_time current c ∷ [];
    }

unfoldable pub update_job_conditions :
    Time → CPodJobStatus → JobConditionType → ConditionStatus → String → String → CPodJobStatus
update_job_conditions now s t status reason message =
    set_condition s (new_condition now t status reason message)
