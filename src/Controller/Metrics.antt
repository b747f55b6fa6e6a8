-- ===== src/Controller/Metrics.antt =====
-- pkg/util/metrics.go: the counter of the CPodJobs that are created, which the predicate on creation
-- events of internal/controller/cpodjob_controller.go counts up. The counter vector is Prometheus'.
use cpodoperator.Base.{
  ℕ, ◌+◌, String, ◌≡◌, ◌==◌, ◌&&◌, Option, none, some, List, [], ◌∷◌, if◌then◌else◌, string_eq,
  arith,
}
use cpodoperator.Api.Job.{Time}
use cpodoperator.Controller.Reconcile.{Created, on_owner_create}

-- `WithLabelValues(a, b).Inc()`, and what a scrape reads.
pub record CounterVec : Type 1 where
  pub Counters : Type 0
  pub inc : Counters → String → String → Counters
  pub value : Counters → String → String → ℕ

-- What is documented: the counter of the two labels is one more, and no other changes.
pub record Counts (V : CounterVec) : Type 0 where
  pub counts_up :
      (c : V.Counters) (a b a' b' : String)
      → V.value (V.inc c a b) a' b'
        ≡ (if a == a' && b == b' then V.value c a' b' + 1 else V.value c a' b')

module _ (V : CounterVec) where
  -- `CreatedJobsCounterInc`
  unfoldable pub created_jobs_counter_inc : V.Counters → String → String → V.Counters
  created_jobs_counter_inc c job_namespace job_type = V.inc c job_namespace job_type

  count_up : Option (String × String) → V.Counters → V.Counters
  unfolding created_jobs_counter_inc
  count_up none c = c
  count_up (some (job_namespace, job_type)) c = created_jobs_counter_inc c job_namespace job_type

  -- The counters after the predicate was asked of the events of creation in turn.
  unfoldable pub counted : List (Time × Created) → V.Counters → V.Counters
  unfolding count_up
  counted [] c = c
  counted ((now, o) ∷ os) c =
      let (passes, after, labels) = on_owner_create now o in counted os (count_up labels c)

-- How many of the objects are CPodJobs of the namespace and the type.
abbrev pub jobs_among : String → String → List (Time × Created) → ℕ
jobs_among namespace type [] = 0
jobs_among namespace type ((now, Created.of_other) ∷ os) = jobs_among namespace type os
jobs_among namespace type ((now, Created.of_job job) ∷ os) =
    let rest = jobs_among namespace type os in
    if job.namespace == namespace && job.spec.job_type == type then rest + 1 else rest

-- With counters as Prometheus documents them, after any events of creation the counter of a namespace
-- and a job type has grown by as many as the events that are about a CPodJob of them.
pub counted-jobs_among :
    (V : CounterVec) (os : List (Time × Created)) (c : V.Counters) (namespace type : String)
    → Counts V
    → V.value (counted V os c) namespace type
      ≡ V.value c namespace type + jobs_among namespace type os
unfolding counted created_jobs_counter_inc on_owner_create
counted-jobs_among V [] c namespace type laws = omega arith
counted-jobs_among V ((now, Created.of_other) ∷ os) c namespace type laws =
    counted-jobs_among V os c namespace type laws
counted-jobs_among V ((now, Created.of_job job) ∷ os) c namespace type laws = ground (
  arith,
  counted-jobs_among V os (V.inc c job.namespace job.spec.job_type) namespace type laws,
  laws.counts_up c job.namespace job.spec.job_type namespace type,
)
