-- ===== src/Status/WellFormed.antt =====
-- The API server keeps a job's conditions as a map keyed by type (`listType=map`): no type is
-- listed twice, and the functions of pkg/util/status.go keep it so.
use mathlib.Core.Option.{or_else}
use cpodoperator.Base.{String, ◌≡◌, refl, none, List, [], ◌∷◌, ◌++◌, arith}
use cpodoperator.Api.Job.{JobConditionType, ConditionStatus, Time, JobCondition, CPodJobStatus}
use cpodoperator.Status.{
  find_condition, get_condition, filter_out_condition, keep_transition_time, set_condition,
  update_job_conditions, new_condition,
}
use cpodoperator.Status.Lookup.{
  dropped_self, find_condition-append, find-filter_out_condition, settle-type,
  filter_out_condition-cons, keep_transition_time-type,
}

-- No two conditions have one type.
abbrev pub UniqueTypes : List JobCondition → Type 0
UniqueTypes [] = Unit
UniqueTypes (c ∷ cs) = (find_condition cs c.type ≡ none) × UniqueTypes cs

filter_out_condition-UniqueTypes :
    (cs : List JobCondition) (t : JobConditionType)
    → UniqueTypes cs
    → UniqueTypes (filter_out_condition cs t)
filter_out_condition-UniqueTypes [] t h = unfold filter_out_condition in tt
filter_out_condition-UniqueTypes (c ∷ cs) t (fresh, h) = rw filter_out_condition-cons (
    ground (
      arith,
      filter_out_condition-UniqueTypes cs t h,
      settle-type t c,
      find-filter_out_condition cs t c.type,
    ))

append-UniqueTypes :
    (cs : List JobCondition) (d : JobCondition)
    → UniqueTypes cs
    → find_condition cs d.type ≡ none
    → UniqueTypes (cs ++ d ∷ [])
unfolding find_condition or_else
append-UniqueTypes [] d h fresh = (refl, tt)
append-UniqueTypes (c ∷ cs) d (new, h) fresh =
    ground (arith, append-UniqueTypes cs d h, find_condition-append cs (d ∷ []) c.type)

pub set_condition-UniqueTypes :
    (s : CPodJobStatus) (c : JobCondition)
    → UniqueTypes s.conditions
    → UniqueTypes (set_condition s c).conditions
unfolding set_condition get_condition
set_condition-UniqueTypes s c h = ground (arith, replaced)
  where
    kept : JobCondition
    kept = keep_transition_time (find_condition s.conditions c.type) c

    replaced : UniqueTypes (filter_out_condition s.conditions c.type ++ kept ∷ [])
    replaced =
        append-UniqueTypes (filter_out_condition s.conditions c.type) kept
          (filter_out_condition-UniqueTypes s.conditions c.type h)
          (rw (keep_transition_time-type, find-filter_out_condition, dropped_self))

-- An update of a status whose conditions are keyed by their types, by any condition type, status,
-- reason and message, leaves conditions keyed by their types.
pub update_job_conditions-UniqueTypes :
    (now : Time) (s : CPodJobStatus) (t : JobConditionType) (status : ConditionStatus)
    (reason message : String)
    → UniqueTypes s.conditions
    → UniqueTypes (update_job_conditions now s t status reason message).conditions
unfolding update_job_conditions new_condition
update_job_conditions-UniqueTypes now s t status reason message h =
    set_condition-UniqueTypes s (new_condition now t status reason message) h
