-- ===== src/Sync/Observer/Limits.antt =====
-- How internal/synchronizer/cpodobserver.go reports a job whose time limit is over.
use cpodoperator.Base.{
  ℕ, ◌+◌, ◌*◌, ◌≤◌, ◌<◌, ◌≡◌, ◌↔◌, refl, true, List, [], ◌∷◌, map, All, arith, ◌==◌, if◌then◌else◌,
  ltb, String, nat_eq,
}
use cpodoperator.Base.Int.{pos, ◌+ℤ◌, ◌*ℤ◌, to_int64}
use cpodoperator.Api.Job.{CPodJob, Time, running, job_condition_type_eq}
use cpodoperator.Sync.Text.{codes, to_lower, to_lower_codes}
use cpodoperator.Sync.Status.{check_order, parse_status}
use cpodoperator.Sync.Observer.{
  Observed, JobState, is_over, status_over, status_at, state_of, observe_job, observe_jobs,
  lower_text, type_text,
}

-- The product of a limit of at most 153722867 minutes is exact.
limit_exact : (d : ℕ) → d ≤ 153722867 → to_int64 (pos d *ℤ pos 60000000000) ≡ pos (d * 60000000000)
unfolding to_int64 ◌*ℤ◌
limit_exact d h = ground arith

-- A job with a time limit of `d` minutes, where `d` is at most 153722867 (292 years), is over
-- exactly when more than `d` minutes have passed since its creation.
pub is_over_iff :
    (now : Time) (job : CPodJob) (d : ℕ)
    → job.spec.duration ≡ pos d
    → d ≤ 153722867
    → (is_over now job ≡ true) ↔ (job.creation_timestamp + d * 60000000000 < now)
unfolding is_over ◌+ℤ◌
is_over_iff now job d e h = rw (e, limit_exact d h) ((λ k. ground arith), (λ k. ground arith))

abbrev pub reported_names : JobState → String × String × String
reported_names s = (s.name, s.namespace, s.job_type)

abbrev pub names_of : CPodJob → String × String × String
names_of job = (job.name, job.namespace, job.spec.job_type)

abbrev pub reported_as : CPodJob → String → String → JobState
reported_as job status info = record {
  name = job.name;
  namespace = job.namespace;
  job_type = job.spec.job_type;
  job_status = status;
  info = info;
}

module _ (O : Observed) where
  -- A job with a time limit of `d` minutes, where `d` is positive and at most 153722867, is reported
  -- under its name and namespace and with its type. While no more than `d` minutes have passed
  -- between its creation and the clock's time, it has the lower-case text of the status that
  -- `parseStatus` reads, and that one's message. Afterwards its status is `succeeded`, with the
  -- information `timeup when running`, if the status that `parseStatus` reads is `Running`, and
  -- `failed`, with `timeup job not running`, if that status is any other.
  pub observe_job_of_limited :
      (w : O.World) (job : CPodJob) (d : ℕ)
      → job.spec.duration ≡ pos d
      → 0 < d
      → d ≤ 153722867
      → observe_job O w job ≡ (
        (O.now w).0,
        (let (read, message) = parse_status job.status in
            if ltb (job.creation_timestamp + d * 60000000000) (O.now w).1
            then if read == running
              then reported_as job "succeeded" "timeup when running"
              else reported_as job "failed" "timeup job not running"
            else reported_as job (lower_text read) message),
      )
  unfolding observe_job status_at status_over state_of lower_text is_over ◌+ℤ◌
  observe_job_of_limited w job d e some_time h = rw (e, limit_exact d h) (ground arith)

  -- Every job of the list is reported, once and in its order, under its name and namespace and with
  -- its type.
  pub observe_jobs-names :
      (w : O.World) (jobs : List CPodJob)
      → map reported_names (observe_jobs O w jobs).1 ≡ map names_of jobs
  unfolding observe_jobs observe_job state_of
  observe_jobs-names w [] = refl
  observe_jobs-names w (job ∷ jobs) =
      ground (arith, observe_jobs-names (observe_job O w job).0 jobs)

-- The text that is reported of a type that the operator sets is the lower case of the constant's.
lower_text-to_lower : All (λ t. codes (lower_text t) ≡ to_lower_codes (type_text t)) check_order
unfolding lower_text to_lower nat_eq
lower_text-to_lower = (refl, (refl, (refl, (refl, (refl, (refl, tt))))))
