-- ===== src/Sync/Status.antt =====
-- internal/synchronizer/cpodobserver.go: `parseStatus`, the one status that a CPodJob is reported
-- and synchronised by.
pub mod Agrees
use cpodoperator.Base.{String, Option, none, some, List, [], ◌∷◌, ◌==◌, if◌then◌else◌}
use cpodoperator.Api.Job.{
  JobConditionType, created, running, succeeded, model_uploading, model_uploaded, failed,
  condition_true, JobCondition, CPodJobStatus, job_condition_type_eq, condition_status_eq,
}

-- `condMap`: the last condition of a type counts.
unfoldable pub last_condition : List JobCondition → JobConditionType → Option JobCondition
last_condition [] t = none
last_condition (c ∷ cs) t = elim (last_condition cs t) [
  | none ↦ if c.type == t then some c else none
  | some later ↦ some later
]

abbrev pub check_order : List JobConditionType
check_order = model_uploaded ∷ model_uploading ∷ failed ∷ succeeded ∷ running ∷ created ∷ []

-- The loop over `checkOrder`. A type with no condition has the zero condition, which is not true.
unfoldable pub first_true : List JobCondition → List JobConditionType → JobConditionType × String
unfolding last_condition
first_true cs [] = (created, "unknow status")
first_true cs (t ∷ ts) =
    let rest = first_true cs ts in
    elim (last_condition cs t) [
      | none ↦ rest
      | some c ↦ if c.status == condition_true then (t, c.message) else rest
    ]

unfoldable pub parse_conditions : List JobCondition → JobConditionType × String
unfolding first_true
parse_conditions [] = (created, "no status")
parse_conditions (c ∷ cs) = first_true (c ∷ cs) check_order

unfoldable pub parse_status : CPodJobStatus → JobConditionType × String
unfolding parse_conditions
parse_status s = parse_conditions s.conditions
