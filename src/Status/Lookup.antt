-- ===== src/Status/Lookup.antt =====
-- What pkg/util/status.go's `UpdateJobConditions` does to each type's condition: the list of
-- conditions seen as a map from types.
use mathlib.Core.Option
use mathlib.Core.Option.{or_else}
use cpodoperator.Base.{
  ◌≡◌, refl, ◌∙◌, Bool, true, false, ◌&&◌, ◌||◌, Option, none, some, List, [], ◌∷◌, ◌++◌, arith,
  ◌==◌, if◌then◌else◌, string_eq,
}
use cpodoperator.Api.Job.{
  JobConditionType, running, succeeded, failed, model_uploading, model_uploaded, condition_true,
  condition_false, JobCondition, CPodJobStatus, job_condition_type_eq, condition_status_eq,
}
use cpodoperator.Status.{
  any_condition_true, is_status_condition_true, is_failed, find_condition, get_condition, settle,
  filter_out_condition, unchanged, keep_transition_time, set_condition,
}

-- The status that a found condition stands for.
abbrev pub is_true : Option JobCondition → Bool
is_true none = false
is_true (some c) = c.status == condition_true

any_condition_true-find :
    (cs : List JobCondition) (t : JobConditionType)
    → any_condition_true cs t ≡ is_true (find_condition cs t)
unfolding any_condition_true find_condition
any_condition_true-find [] t = refl
any_condition_true-find (c ∷ cs) t = ground (arith, any_condition_true-find cs t)

-- `isStatusConditionTrue` reads the same condition as `GetCondition`.
pub is_status_condition_true-get :
    (s : CPodJobStatus) (t : JobConditionType)
    → is_status_condition_true s t ≡ is_true (get_condition s t)
unfolding is_status_condition_true get_condition
is_status_condition_true-get s t = any_condition_true-find s.conditions t

-- A condition that is found has the type that was asked for.
pub find_condition-type :
    (cs : List JobCondition) (t : JobConditionType) (c : JobCondition)
    → find_condition cs t ≡ some c
    → c.type ≡ t
unfolding find_condition
find_condition-type [] t c h = cc
find_condition-type (d ∷ cs) t c h = ground (arith, find_condition-type cs t c)

pub find_condition-append :
    (cs ds : List JobCondition) (t : JobConditionType)
    → find_condition (cs ++ ds) t ≡ or_else (find_condition cs t) (find_condition ds t)
unfolding find_condition or_else
find_condition-append [] ds t = refl
find_condition-append (c ∷ cs) ds t = ground (arith, find_condition-append cs ds t)

-- The types whose conditions an update of type `t` removes.
unfoldable pub dropped : JobConditionType → JobConditionType → Bool
dropped t u = u == t || (t == model_uploaded && u == model_uploading)

pub settle-type : (t : JobConditionType) (c : JobCondition) → (settle t c).type ≡ c.type
unfolding settle
settle-type t c = ground arith

pub filter_out_condition-cons :
    (c : JobCondition) (cs : List JobCondition) (t : JobConditionType)
    → filter_out_condition (c ∷ cs) t ≡ (
        if dropped t c.type
        then filter_out_condition cs t
        else settle t c ∷ filter_out_condition cs t)
unfolding filter_out_condition dropped
filter_out_condition-cons c cs t = ground arith

pub find-filter_out_condition :
    (cs : List JobCondition) (t u : JobConditionType)
    → find_condition (filter_out_condition cs t) u
      ≡ (if dropped t u then none else Option.map (settle t) (find_condition cs u))
unfolding find_condition
find-filter_out_condition [] t u = unfold filter_out_condition in ground arith
find-filter_out_condition (c ∷ cs) t u =
    rw filter_out_condition-cons (ground (arith, find-filter_out_condition cs t u, settle-type t c))

-- What `setCondition` leaves for type `u`, by the conditions that it found.
unfoldable pub looked_up :
    CPodJobStatus → JobCondition → JobConditionType → Option JobCondition → Option JobCondition
looked_up s c u found =
    if is_failed s || unchanged (get_condition s c.type) c
    then found
    else if u == c.type
    then some (keep_transition_time (get_condition s c.type) c)
    else if dropped c.type u
    then none
    else Option.map (settle c.type) found

pub keep_transition_time-type :
    (o : Option JobCondition) (c : JobCondition) → (keep_transition_time o c).type ≡ c.type
unfolding keep_transition_time
keep_transition_time-type none c = refl
keep_transition_time-type (some o) c = ground arith

pub dropped_self : (t : JobConditionType) → dropped t t ≡ true
unfolding dropped
dropped_self t = ground arith

find-replaced :
    (cs : List JobCondition) (t u : JobConditionType) (d : JobCondition)
    → d.type ≡ t
    → find_condition (filter_out_condition cs t ++ d ∷ []) u ≡ (
        if u == t
        then some d
        else if dropped t u
        then none
        else Option.map (settle t) (find_condition cs u))
unfolding or_else
find-replaced cs t u d h =
    rw (find_condition-append, find-filter_out_condition)
      (unfold find_condition dropped in ground arith)

pub get_condition-looked_up :
    (s : CPodJobStatus) (c : JobCondition) (u : JobConditionType)
    → get_condition (set_condition s c) u ≡ looked_up s c u (get_condition s u)
unfolding set_condition looked_up get_condition
get_condition-looked_up s c u = ground (
  arith,
  find-replaced s.conditions c.type u (keep_transition_time (find_condition s.conditions c.type) c)
      (keep_transition_time-type (find_condition s.conditions c.type) c),
)

-- The condition, if there is one, with its status set to false.
abbrev pub made_false : Option JobCondition → Option JobCondition
made_false none = none
made_false (some c) = some (record c { status = condition_false })

-- What is told of type `u` after a condition was set, by what was told of its own type, `old`, and of
-- `u` before, and by whether the job had failed.
abbrev pub told :
    Bool
    → JobCondition
    → JobConditionType
    → Option JobCondition
    → Option JobCondition
    → Option JobCondition
told true c u old found = found
told false c u none found =
    if u == c.type
    then some c
    else if u == model_uploading && c.type == model_uploaded
    then none
    else if u == running && (c.type == succeeded || c.type == failed)
    then made_false found
    else found
told false c u (some old) found =
    if old.status == c.status && old.reason == c.reason && old.message == c.message
    then found
    else if u == c.type
    then some (record c {
      last_transition_time =
          if old.status == c.status then old.last_transition_time else c.last_transition_time;
    })
    else if u == model_uploading && c.type == model_uploaded
    then none
    else if u == running && (c.type == succeeded || c.type == failed)
    then made_false found
    else found

map-settle :
    (t u : JobConditionType) (found : Option JobCondition)
    → ((c : JobCondition) → found ≡ some c → c.type ≡ u)
    → Option.map (settle t) found
      ≡ (if u == running && (t == succeeded || t == failed) then made_false found else found)
unfolding settle
map-settle t u none h = ground arith
map-settle t u (some c) h = let same : c.type ≡ u = h c refl in ground arith

looked_up-told :
    (s : CPodJobStatus) (c : JobCondition) (u : JobConditionType) (old found : Option JobCondition)
    → get_condition s c.type ≡ old
    → Option.map (settle c.type) found ≡ (
        if u == running && (c.type == succeeded || c.type == failed)
        then made_false found
        else found)
    → looked_up s c u found ≡ told (is_failed s) c u old found
unfolding looked_up unchanged keep_transition_time dropped
looked_up-told s c u none found e m = ground arith
looked_up-told s c u (some old) found e m = ground arith

-- After `setCondition` each type `u` looks up to what it did before if the job has failed, or if the
-- condition of the new one's type has its status, reason and message. Else the new condition's type
-- looks up to the new condition, with the transition time of the old one of its type if that has its
-- status; `ModelUploading` to nothing if `ModelUploaded` is set; `Running` to what it did, with its
-- status set to false, if `Succeeded` or `Failed` is set; and any other type to what it did.
pub get_condition-set_condition :
    (s : CPodJobStatus) (c : JobCondition) (u : JobConditionType)
    → get_condition (set_condition s c) u
      ≡ told (is_failed s) c u (get_condition s c.type) (get_condition s u)
get_condition-set_condition s c u =
    get_condition-looked_up s c u
    ∙ looked_up-told s c u (get_condition s c.type) (get_condition s u) refl (
        map-settle c.type u (get_condition s u)
          (λ d e. find_condition-type s.conditions u d (unfold get_condition in e)))

pub get_condition-type :
    (s : CPodJobStatus) (t : JobConditionType) (c : JobCondition)
    → get_condition s t ≡ some c
    → c.type ≡ t
unfolding get_condition
get_condition-type s t c h = find_condition-type s.conditions t c h
