-- ===== src/Sync/Jobs/Endings.antt =====
-- What the synchronizer's deletions leave alone, in the terms of the controller.
use cpodoperator.Base.{◌≡◌, inl, inr, true, false, List, [], ◌∷◌, arith, All, Bool-cases}
use cpodoperator.Api.Job.{CPodJob}
use cpodoperator.Status.{is_finished}
use cpodoperator.Status.WellFormed.{UniqueTypes}
use cpodoperator.Sync.Portal.{PortalJob}
use cpodoperator.Sync.Jobs.{has_portal_job}
use cpodoperator.Sync.Jobs.Deletion.{is_doomed, doomed}
use cpodoperator.Sync.Status.Agrees.{is_settled_iff}

abbrev pub IsKeyed : CPodJob → Type 0
IsKeyed job = UniqueTypes job.status.conditions

-- A job that the portal lacks and that the controller has not brought to an end.
abbrev pub IsAbandoned : List PortalJob → CPodJob → Type 0
IsAbandoned portal_jobs job =
    (has_portal_job portal_jobs job.name ≡ false) × (is_finished job.status ≡ false)

is_doomed-IsAbandoned :
    (portal_jobs : List PortalJob) (job : CPodJob)
    → IsKeyed job
    → is_doomed portal_jobs job ≡ true
    → IsAbandoned portal_jobs job
is_doomed-IsAbandoned portal_jobs job keyed h = elim (Bool-cases (is_finished job.status)) [
  | inl e ↦ ground (arith, (is_settled_iff job keyed).1 (inl e))
  | inr e ↦ ground arith
]

-- If no job of the cluster has two conditions of one type, then every job that the loop over them
-- picks for deletion is one that the portal lacks and that has neither succeeded nor failed.
pub doomed-IsAbandoned :
    (portal_jobs : List PortalJob) (jobs : List CPodJob)
    → All IsKeyed jobs
    → All (IsAbandoned portal_jobs) (doomed portal_jobs jobs)
unfolding doomed
doomed-IsAbandoned portal_jobs [] h = tt
doomed-IsAbandoned portal_jobs (job ∷ jobs) (keyed, h) =
    elim (Bool-cases (is_doomed portal_jobs job)) [
      | inl e ↦
          rw e
            (is_doomed-IsAbandoned portal_jobs job keyed e, doomed-IsAbandoned portal_jobs jobs h)
      | inr e ↦ rw e (doomed-IsAbandoned portal_jobs jobs h)
    ]
