-- ===== src/Sync/Jobs/Deletion.antt =====
-- Which CPodJobs the second loop of internal/synchronizer/syncjob.go deletes.
use cpodoperator.Base.{◌≡◌, refl, Bool, true, false, not, ◌||◌, List, [], ◌∷◌, arith, if◌then◌else◌}
use cpodoperator.Api.Job.{CPodJob}
use cpodoperator.Sync.Portal.{PortalJob, Cluster}
use cpodoperator.Sync.Jobs.{has_portal_job, is_settled, delete_all}

-- A job that is not settled and that the portal has no more.
abbrev pub is_doomed : List PortalJob → CPodJob → Bool
is_doomed portal_jobs job = not (is_settled job || has_portal_job portal_jobs job.name)

unfoldable pub doomed : List PortalJob → List CPodJob → List CPodJob
doomed portal_jobs [] = []
doomed portal_jobs (job ∷ jobs) =
    let rest = doomed portal_jobs jobs in if is_doomed portal_jobs job then job ∷ rest else rest

module _ (C : Cluster) where
  -- Deletions one after the other, up to the first that fails, which is tried too.
  unfoldable pub delete_each : List CPodJob → C.World → C.World
  delete_each [] w = w
  delete_each (job ∷ jobs) w = elim (C.delete_cpodjob w job).1 [
    | true ↦ delete_each jobs (C.delete_cpodjob w job).0
    | false ↦ (C.delete_cpodjob w job).0
  ]

  -- The loop over the cluster's jobs deletes exactly those that are not settled and that the portal
  -- has no more, in the order of the list, up to the first deletion that fails, which is tried too.
  pub delete_all-eq-delete_each :
      (portal_jobs : List PortalJob) (jobs : List CPodJob) (w : C.World)
      → delete_all C portal_jobs jobs w ≡ delete_each (doomed portal_jobs jobs) w
  unfolding delete_all doomed delete_each
  delete_all-eq-delete_each portal_jobs [] w = refl
  delete_all-eq-delete_each portal_jobs (job ∷ jobs) w = ground (
    arith,
    delete_all-eq-delete_each portal_jobs jobs w,
    delete_all-eq-delete_each portal_jobs jobs (C.delete_cpodjob w job).0,
  )
