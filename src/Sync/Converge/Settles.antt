-- ===== src/Sync/Converge/Settles.antt =====
-- One pass of `SyncJob.Start` of internal/synchronizer/syncjob.go brings the cluster and the portal
-- together, and the next one changes nothing in the cluster.
use mathlib.Core.Path.{subst}
use mathlib.Core.List.{Memᴰ}
use mathlib.Core.List.Memᴰ.{head, tail}
use cpodoperator.Base.{
  String, ◌≡◌, ◌≢◌, refl, sym, ap, ◌∙◌, inl, inr, true, false, Bool-cases, some, List, [], ◌∷◌, All,
  arith, string_eq,
}
use cpodoperator.Api.Job.{CPodJob}
use cpodoperator.Sync.Portal.{PortalJob, Cluster}
use cpodoperator.Sync.Buffer.{Buffer}
use cpodoperator.Sync.Jobs.{source_label, has_portal_job, create_all, start}
use cpodoperator.Sync.Jobs.Deletion.{is_doomed, doomed, delete_each, delete_all-eq-delete_each}
use cpodoperator.Sync.Converge.{key_of, Distinct, IsApiServer, Served, IsConverged}
use cpodoperator.Sync.Converge.Idle.{IsLeft, IsCreated, start_lem, start-buffer, converged_idle}
use cpodoperator.Sync.Converge.Created.{
  same_true, has_cpodjob_of_mem, mem_of_has_cpodjob, Extends, create_all-Served,
}
use cpodoperator.Sync.Converge.Deleted.{
  Spared, All-doomed, All-at, mem-doomed, doomed-Distinct, Shrinks, delete_each-Shrinks,
}

spared-IsLeft :
    (portal_jobs : List PortalJob) (j : CPodJob)
    → is_doomed portal_jobs j ≡ false
    → IsLeft portal_jobs j
spared-IsLeft portal_jobs j h = ground arith

All-IsLeft :
    (portal_jobs : List PortalJob) (jobs : List CPodJob)
    → ((j : CPodJob) → Memᴰ j jobs → is_doomed portal_jobs j ≡ false)
    → All (IsLeft portal_jobs) jobs
All-IsLeft portal_jobs [] h = tt
All-IsLeft portal_jobs (job ∷ jobs) h = (
  spared-IsLeft portal_jobs job (h job (head refl)),
  All-IsLeft portal_jobs jobs (λ j m. h j (tail m)),
)

portal_job-Spared :
    (portal_jobs : List PortalJob) (jobs : List CPodJob) (j : CPodJob)
    → has_portal_job portal_jobs j.name ≡ true
    → Spared j (doomed portal_jobs jobs)
portal_job-Spared portal_jobs jobs j has = All-doomed portal_jobs jobs λ d m h e.
    let same : has_portal_job portal_jobs d.name ≡ true =
      ap (λ k. has_portal_job portal_jobs k.name) (sym e) ∙ has in
    ground arith

module _ (portal_jobs : List PortalJob) (before mid after : List CPodJob) (b b' : Buffer)
    (grown : Extends portal_jobs before b mid b')
    (shrunk : Shrinks (doomed portal_jobs before) mid after) where
  left_alone : (j : CPodJob) → Memᴰ j after → is_doomed portal_jobs j ≡ false
  left_alone j m = elim (Bool-cases (is_doomed portal_jobs j)) [
    | inr spared ↦ spared
    | inl marked ↦
        (let (m', spared) = shrunk.only j m in
          elim (grown.only j m') [
            | inl has ↦ ground arith
            | inr old ↦ absurd (
                All-at (λ d. key_of j ≢ key_of d) (doomed portal_jobs before) j spared
                  (mem-doomed portal_jobs before j old marked) refl)
          ])
  ]

  has_portal_job_of_mem :
      (all : List PortalJob) (p : PortalJob) (name : String)
      → Memᴰ p all
      → name ≡ p.job_name
      → has_portal_job all name ≡ true
  has_portal_job_of_mem [] p name m e = elim m [ ]
  has_portal_job_of_mem (q ∷ all) p name (head same) e =
      rw (same_true name q.job_name (e ∙ ap (λ x. x.job_name) same)) refl
  has_portal_job_of_mem (q ∷ all) p name (tail m) e =
      let rest : has_portal_job all name ≡ true = has_portal_job_of_mem all p name m e in
      ground arith

  still-Served :
      (p : PortalJob) → Memᴰ p portal_jobs → Served mid b' p.job_name → Served after b' p.job_name
  still-Served p m (inl kept) = inl kept
  still-Served p m (inr has) =
      let (j, n, e) = mem_of_has_cpodjob mid p.job_name has in
      inr (
        has_cpodjob_of_mem after j p.job_name
          (shrunk.kept j n (
            portal_job-Spared portal_jobs before j
              (has_portal_job_of_mem portal_jobs p j.name m e)))
          e)

  All-Served :
      (all : List PortalJob)
      → ((p : PortalJob) → Memᴰ p all → Memᴰ p portal_jobs)
      → All (λ p. Served mid b' p.job_name) all
      → All (λ p. Served after b' p.job_name) all
  All-Served [] within h = tt
  All-Served (p ∷ all) within (served, h) =
      (still-Served p (within p (head refl)) served, All-Served all (λ q m. within q (tail m)) h)

  converged : All (λ p. Served mid b' p.job_name) portal_jobs → IsConverged portal_jobs after b'
  converged served = record {
    none_doomed = All-IsLeft portal_jobs after left_alone;
    served = All-Served portal_jobs (λ p m. m) served;
  }

All-within :
    (all jobs : List CPodJob)
    → ((j : CPodJob) → Memᴰ j all → Memᴰ j jobs)
    → All (λ d. Memᴰ d jobs) all
All-within [] jobs within = tt
All-within (j ∷ all) jobs within =
    (within j (head refl), All-within all jobs (λ i m. within i (tail m)))

module _ (C : Cluster) (w : C.World) (b : Buffer) (jobs : List CPodJob)
    (portal_jobs : List PortalJob) where
  -- In a cluster that lists at once what is stored in it, and where deletions succeed and creations
  -- may fail, let the CPodJobs be listed, no two with one key, and let the portal answer a list of
  -- jobs. Then after one pass CPodJobs are listed of which each is settled or has a job of the
  -- portal, and each job of the portal has a CPodJob of its name or is in the buffer by it, from
  -- which it is reported as not created.
  pub start-IsConverged :
      IsApiServer C
      → C.list_cpodjobs w source_label ≡ some jobs
      → Distinct jobs
      → (C.get_assigned_job_list w).1 ≡ some portal_jobs
      → let s = start C (w, b) in
        (after : List CPodJob) × (C.list_cpodjobs s.0 source_label ≡ some after)
        × IsConverged portal_jobs after s.1
  start-IsConverged server listed distinct assigned =
      let w' : C.World = (C.get_assigned_job_list w).0 in
      let (mid, listed', grown, served) =
        create_all-Served C server jobs portal_jobs w' b jobs (λ j m. m)
          (server.portal_apart w ∙ listed) in
      let made : C.World × Buffer = create_all C jobs portal_jobs (w', b) in
      let (after, listed'', shrunk) =
        delete_each-Shrinks C server (doomed portal_jobs jobs) made.0 mid listed'
          (All-doomed portal_jobs jobs (λ j m k. grown.kept j m))
          (doomed-Distinct portal_jobs jobs distinct) in
      let ended : delete_each C (doomed portal_jobs jobs) made.0 ≡ (start C (w, b)).0 = sym (
        start_lem C w b jobs portal_jobs listed assigned
        ∙ delete_all-eq-delete_each C portal_jobs jobs made.0) in
      (
        after,
        subst (λ v. C.list_cpodjobs v source_label ≡ some after) ended listed'',
        subst (IsConverged portal_jobs after)
            (sym (start-buffer C w b jobs portal_jobs listed assigned))
            (converged portal_jobs jobs mid after b made.1 grown shrunk served),
      )

  -- In a cluster that lists at once what is stored in it, and where deletions succeed and creations
  -- may fail, let the CPodJobs be listed, no two with one key, let the portal answer the same list
  -- of jobs to two passes, one after the other, and let the buffer have no job of the list after the
  -- first pass but those whose type is not run. Then the second pass leaves the cluster as asking the
  -- portal left it: it creates and deletes nothing.
  pub start-start :
      IsApiServer C
      → C.list_cpodjobs w source_label ≡ some jobs
      → Distinct jobs
      → (C.get_assigned_job_list w).1 ≡ some portal_jobs
      → (C.get_assigned_job_list (start C (w, b)).0).1 ≡ some portal_jobs
      → All (IsCreated (start C (w, b)).1) portal_jobs
      → (start C (start C (w, b))).0 ≡ (C.get_assigned_job_list (start C (w, b)).0).0
  start-start server listed distinct assigned again made =
      let (after, listed', done) = start-IsConverged server listed distinct assigned in
      converged_idle C (start C (w, b)).0 (start C (w, b)).1 after portal_jobs listed' again made
        done
