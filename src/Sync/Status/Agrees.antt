-- ===== src/Sync/Status/Agrees.antt =====
-- `parseStatus` of internal/synchronizer/cpodobserver.go and the tests of pkg/util/status.go read the
-- same conditions, so the synchronizer and the controller agree on which jobs have ended.
use cpodoperator.Base.{
  ◌≡◌, refl, ◌↔◌, ◌⊎◌, ◌∙◌, true, List, [], ◌∷◌, arith, if◌then◌else◌, Option-cases, inl, inr,
}
use cpodoperator.Api.Job.{
  JobConditionType, created, model_uploading, model_uploaded, JobCondition, CPodJobStatus, CPodJob,
  job_condition_type_eq, condition_status_eq,
}
use cpodoperator.Status.{
  is_finished, is_succeeded, is_failed, is_status_condition_true, find_condition, get_condition,
}
use cpodoperator.Status.Lookup.{is_status_condition_true-get}
use cpodoperator.Status.WellFormed.{UniqueTypes}
use cpodoperator.Sync.Status.{
  last_condition, first_true, parse_conditions, parse_status, check_order,
}
use cpodoperator.Sync.Jobs.{is_settled}

-- With conditions keyed by type the last condition of a type is the first one.
last_condition-find :
    (cs : List JobCondition) (t : JobConditionType)
    → UniqueTypes cs
    → last_condition cs t ≡ find_condition cs t
unfolding last_condition find_condition
last_condition-find [] t h = refl
last_condition-find (c ∷ cs) t (fresh, h) = ground (arith, last_condition-find cs t h)

-- The first type of the order whose condition `isStatusConditionTrue` finds true.
abbrev pub first_listed : CPodJobStatus → List JobConditionType → JobConditionType
first_listed s [] = created
first_listed s (t ∷ ts) =
    let rest = first_listed s ts in if is_status_condition_true s t then t else rest

first_true-first_listed :
    (s : CPodJobStatus) (ts : List JobConditionType)
    → UniqueTypes s.conditions
    → (first_true s.conditions ts).0 ≡ first_listed s ts
unfolding first_true get_condition
first_true-first_listed s [] h = refl
first_true-first_listed s (t ∷ ts) h = elim (Option-cases (find_condition s.conditions t)) [
  | inl e ↦ ground (
    arith,
    last_condition-find s.conditions t h,
    is_status_condition_true-get s t,
    first_true-first_listed s ts h,
  )
  | inr (c, e) ↦ ground (
    arith,
    last_condition-find s.conditions t h,
    is_status_condition_true-get s t,
    first_true-first_listed s ts h,
  )
]

-- The answer for no conditions is the one of the loop, where only the text differs.
parse_conditions-first_true :
    (cs : List JobCondition) → (parse_conditions cs).0 ≡ (first_true cs check_order).0
unfolding parse_conditions first_true last_condition
parse_conditions-first_true [] = refl
parse_conditions-first_true (c ∷ cs) = refl

pub parse_status-first_listed :
    (s : CPodJobStatus) → UniqueTypes s.conditions → (parse_status s).0 ≡ first_listed s check_order
unfolding parse_status
parse_status-first_listed s h =
    parse_conditions-first_true s.conditions ∙ first_true-first_listed s check_order h

-- If no two conditions have one type, `SyncJob` takes a job for settled exactly if the controller
-- takes it for finished or its condition `ModelUploaded` or `ModelUploading` is true.
pub is_settled_iff :
    (job : CPodJob)
    → UniqueTypes job.status.conditions
    → (is_settled job ≡ true) ↔ (
        (is_finished job.status ≡ true)
        ⊎ ((is_status_condition_true job.status model_uploaded ≡ true)
            ⊎ (is_status_condition_true job.status model_uploading ≡ true)))
unfolding is_settled is_finished is_succeeded is_failed
is_settled_iff job h =
    rw (parse_status-first_listed job.status h) ((λ k. ground arith), (λ k. ground arith))
