-- ===== src/Sync/Manager/Statuses.antt =====
-- The states of jobs that the runnables of internal/synchronizer/manager.go report to the portal.
use mathlib.Core.List.{Memᴰ}
use mathlib.Core.List.Memᴰ.{head, tail}
use mathlib.Core.Path.{subst}
use cpodoperator.Base.{
  String, ◌≡◌, refl, sym, ◌∙◌, inl, inr, Bool-cases, none, some, Option-cases, List, [], ◌∷◌, map,
  All, All-append, All-Mem, arith, ◌==◌,
}
use cpodoperator.Base.Int.{pos, ltb_ℤ}
use cpodoperator.Api.Job.{
  CPodJob, JobConditionType, created, running, succeeded, model_uploading, model_uploaded, failed,
  other_type, Time, JobCondition, condition_true, condition_status_eq, job_condition_type_eq,
}
use cpodoperator.Sync.Status.{
  parse_status, parse_conditions, first_true, last_condition, check_order,
}
use cpodoperator.Sync.Portal.{PortalJob}
use cpodoperator.Sync.Buffer.{Buffer, get_create_failed_jobs}
use cpodoperator.Sync.Jobs.{source_label}
use cpodoperator.Sync.Observer.{
  Observed, JobState, lower_text, state_of, is_over, status_over, status_at, observe_job,
  observe_jobs, get_job_states,
}
use cpodoperator.Sync.Observer.Payload.{Payload, create_failed_state, observe, job_status_of_sent}
use cpodoperator.Sync.Provider.{Account, Http, Kube}
use cpodoperator.Sync.Manager.{Sight, System, observed, Reached}
use cpodoperator.Sync.Manager.Reported.{Reached-IsObserved}

-- The statuses that the portal is told of.
abbrev pub known_statuses : List String
known_statuses =
    "created" ∷ "running" ∷ "succeeded" ∷ "modeluploading" ∷ "modeluploaded" ∷ "failed"
    ∷ "createfailed" ∷ []

abbrev pub IsKnown : JobState → Type 0
IsKnown q = Memᴰ q.job_status known_statuses

-- A type that the operator sets, not one of another text.
abbrev IsOwn : JobConditionType → Type 0
IsOwn created = Unit
IsOwn running = Unit
IsOwn succeeded = Unit
IsOwn model_uploading = Unit
IsOwn model_uploaded = Unit
IsOwn failed = Unit
IsOwn (other_type t) = ⊥

lower_text-known : (t : JobConditionType) → IsOwn t → Memᴰ (lower_text t) known_statuses
unfolding lower_text
lower_text-known created own = head refl
lower_text-known running own = tail (head refl)
lower_text-known succeeded own = tail (tail (head refl))
lower_text-known model_uploading own = tail (tail (tail (head refl)))
lower_text-known model_uploaded own = tail (tail (tail (tail (head refl))))
lower_text-known failed own = tail (tail (tail (tail (tail (head refl)))))
lower_text-known (other_type t) own = absurd own

first_true-IsOwn :
    (cs : List JobCondition) (ts : List JobConditionType)
    → All IsOwn ts
    → IsOwn (first_true cs ts).0
unfolding first_true
first_true-IsOwn cs [] own = tt
first_true-IsOwn cs (t ∷ ts) (own_t, own) =
    let rest : first_true cs (t ∷ ts) ≡ first_true cs ts → IsOwn (first_true cs (t ∷ ts)).0 =
      λ same. subst (λ r. IsOwn r.0) (sym same) (first_true-IsOwn cs ts own) in
    elim (Option-cases (last_condition cs t)) [
      | inl e ↦ rest (ground arith)
      | inr (c, e) ↦ elim (Bool-cases (c.status == condition_true)) [
        | inl h ↦
            let found : first_true cs (t ∷ ts) ≡ (t, c.message) = ground arith in
            subst (λ r. IsOwn r.0) (sym found) own_t
        | inr h ↦ rest (ground arith)
      ]
    ]

-- The status that `parseStatus` reads is of a type that the operator sets, whatever types the
-- conditions have.
parse_conditions-IsOwn : (cs : List JobCondition) → IsOwn (parse_conditions cs).0
unfolding parse_conditions
parse_conditions-IsOwn [] = tt
parse_conditions-IsOwn (c ∷ cs) =
    first_true-IsOwn (c ∷ cs) check_order (tt, (tt, (tt, (tt, (tt, (tt, tt))))))

status_at-IsOwn : (now : Time) (job : CPodJob) → IsOwn (status_at now job).0
unfolding status_at status_over parse_status
status_at-IsOwn now job =
    let answer = parse_conditions job.status.conditions in
    elim (Bool-cases (is_over now job)) [
      | inr e ↦
          let same : status_at now job ≡ answer = rw e refl in
          subst (λ r. IsOwn r.0) (sym same) (parse_conditions-IsOwn job.status.conditions)
      | inl e ↦ elim (Bool-cases (answer.0 == running)) [
        | inl h ↦
            let same : status_at now job ≡ (succeeded, "timeup when running") = rw (e, h) refl in
            subst (λ r. IsOwn r.0) (sym same) tt
        | inr h ↦
            let same : status_at now job ≡ (failed, "timeup job not running") = rw (e, h) refl in
            subst (λ r. IsOwn r.0) (sym same) tt
      ]
    ]

state_of-IsKnown :
    (job : CPodJob) (r : JobConditionType × String) → IsOwn r.0 → IsKnown (state_of job r)
unfolding state_of
state_of-IsKnown job (t, info) own = lower_text-known t own

create_failed_states-IsKnown : (jobs : List PortalJob) → All IsKnown (map create_failed_state jobs)
unfolding create_failed_state
create_failed_states-IsKnown [] = tt
create_failed_states-IsKnown (job ∷ jobs) =
    (tail (tail (tail (tail (tail (tail (head refl)))))), create_failed_states-IsKnown jobs)

module _ (O : Observed) where
  observe_job-IsKnown : (w : O.World) (job : CPodJob) → IsKnown (observe_job O w job).1
  unfolding observe_job parse_status
  observe_job-IsKnown w job = elim (Bool-cases (ltb_ℤ (pos 0) job.spec.duration)) [
    | inl e ↦
        rw e (state_of-IsKnown job (status_at (O.now w).1 job) (status_at-IsOwn (O.now w).1 job))
    | inr e ↦ rw e (
        state_of-IsKnown job (parse_status job.status)
          (parse_conditions-IsOwn job.status.conditions))
  ]

  observe_jobs-IsKnown : (w : O.World) (jobs : List CPodJob) → All IsKnown (observe_jobs O w jobs).1
  unfolding observe_jobs
  observe_jobs-IsKnown w [] = tt
  observe_jobs-IsKnown w (job ∷ jobs) =
      (observe_job-IsKnown w job, observe_jobs-IsKnown (observe_job O w job).0 jobs)

  unlisted-observe :
      (cpod_id : String) (b : Buffer) (w : O.World)
      → O.list_cpodjobs w source_label ≡ none
      → (observe O cpod_id b w).1 ≡ none
  unfolding observe get_job_states
  unlisted-observe cpod_id b w e = ground arith

  observe-IsKnown :
      (cpod_id : String) (b : Buffer) (w : O.World) (p : Payload)
      → (observe O cpod_id b w).1 ≡ some p
      → All IsKnown p.job_status
  observe-IsKnown cpod_id b w p sent = elim (Option-cases (O.list_cpodjobs w source_label)) [
    | inl e ↦ absurd (ground (arith, sym (unlisted-observe cpod_id b w e) ∙ sent))
    | inr (jobs, e) ↦ subst (All IsKnown) (sym (job_status_of_sent O cpod_id b w p jobs e sent)) (
        All-append IsKnown (observe_jobs O w jobs).1
          (map create_failed_state (get_create_failed_jobs b)) (observe_jobs-IsKnown w jobs)
          (create_failed_states-IsKnown (get_create_failed_jobs b)))
  ]

-- In every state that a manager reaches, in any interleaving of the steps of its three runnables, each
-- job that a payload reports that the portal has been given has one of the seven statuses: the six
-- types of conditions that the operator sets, in lower case, and `createfailed`. Conditions of a
-- CPodJob with any other type are never reported.
pub Reached-IsKnown :
    {W : Type 0} (kube : Kube W) (H : Http W) (sight : Sight W) (a : Account) (s : System W)
    (p : Payload) (q : JobState)
    → Reached kube H sight a s
    → Memᴰ p s.exchange.uploaded
    → Memᴰ q p.job_status
    → Memᴰ q.job_status known_statuses
Reached-IsKnown kube H sight a s p q reached given reported =
    let (t, earlier, is_map, made) = Reached-IsObserved kube H sight a s p reached given in
    All-Mem IsKnown p.job_status q
      (observe-IsKnown (observed kube H sight a) a.identity t.buffer t.world p made) reported
