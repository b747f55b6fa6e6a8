-- ===== src/Sync/Converge/Idle.antt =====
-- A pass of `SyncJob.Start` of internal/synchronizer/syncjob.go where there is nothing to do.
use cpodoperator.Base.{
  ◌≡◌, refl, sym, ap, ◌∙◌, inl, inr, true, false, Bool-cases, some, none, ◌⊎◌, List, [], ◌∷◌, All,
  arith, string_eq,
}
use cpodoperator.Api.Job.{CPodJob}
use cpodoperator.Sync.Portal.{PortalJob, Cluster}
use cpodoperator.Sync.Buffer.{Buffer, lookup}
use cpodoperator.Sync.Jobs.{
  source_label, job_type_check, is_settled, has_cpodjob, has_portal_job, create_checked, create_one,
  create_all, delete_all, start,
}
use cpodoperator.Sync.Jobs.Deletion.{is_doomed, doomed, delete_each, delete_all-eq-delete_each}
use cpodoperator.Sync.Converge.{Served, IsConverged}

-- A job that the second loop leaves.
abbrev pub IsLeft : List PortalJob → CPodJob → Type 0
IsLeft portal_jobs j = (is_settled j ≡ true) ⊎ (has_portal_job portal_jobs j.name ≡ true)

is_doomed_of_left :
    (portal_jobs : List PortalJob) (j : CPodJob)
    → IsLeft portal_jobs j
    → is_doomed portal_jobs j ≡ false
is_doomed_of_left portal_jobs j (inl settled) = ground arith
is_doomed_of_left portal_jobs j (inr has) = ground arith

none-doomed :
    (portal_jobs : List PortalJob) (jobs : List CPodJob)
    → All (IsLeft portal_jobs) jobs
    → doomed portal_jobs jobs ≡ []
unfolding doomed
none-doomed portal_jobs [] h = refl
none-doomed portal_jobs (job ∷ jobs) (left, h) =
    rw (is_doomed_of_left portal_jobs job left) (none-doomed portal_jobs jobs h)

some-none : (q : PortalJob) → ¬ (some q ≡ none)
some-none q h = cc

-- The job's type is none that is run, or the buffer has no job of its name.
abbrev pub IsCreated : Buffer → PortalJob → Type 0
IsCreated b p = (job_type_check p.job_type ≡ none) ⊎ (lookup p.job_name b ≡ none)

module _ (C : Cluster) where
  idle_create_one :
      (jobs : List CPodJob) (b₀ : Buffer) (p : PortalJob) (s : C.World × Buffer)
      → IsCreated b₀ p
      → Served jobs b₀ p.job_name
      → (create_one C jobs p s).0 ≡ s.0
  unfolding create_one create_checked
  idle_create_one jobs b₀ p (w, b) (inl invalid) served =
      elim (Bool-cases (has_cpodjob jobs p.job_name)) [
        | inl has ↦ rw has refl
        | inr hasnt ↦ rw (hasnt, invalid) refl
      ]
  idle_create_one jobs b₀ p (w, b) (inr gone) (inr has) = rw has refl
  idle_create_one jobs b₀ p (w, b) (inr gone) (inl (q, kept)) =
      absurd (some-none q (sym kept ∙ gone))

  idle_create_all :
      (jobs : List CPodJob) (b₀ : Buffer) (portal_jobs : List PortalJob) (s : C.World × Buffer)
      → All (IsCreated b₀) portal_jobs
      → All (λ p. Served jobs b₀ p.job_name) portal_jobs
      → (create_all C jobs portal_jobs s).0 ≡ s.0
  unfolding create_all
  idle_create_all jobs b₀ [] s made h = refl
  idle_create_all jobs b₀ (p ∷ portal_jobs) s (m, made) (served, h) =
      idle_create_all jobs b₀ portal_jobs (create_one C jobs p s) made h
      ∙ idle_create_one jobs b₀ p s m served

  idle_delete_all :
      (jobs : List CPodJob) (portal_jobs : List PortalJob) (w : C.World)
      → doomed portal_jobs jobs ≡ []
      → delete_all C portal_jobs jobs w ≡ w
  idle_delete_all jobs portal_jobs w h =
      delete_all-eq-delete_each C portal_jobs jobs w
      ∙ (unfold delete_each in ap (λ gone. delete_each C gone w) h)

  pub start_lem :
      (w : C.World) (b : Buffer) (jobs : List CPodJob) (portal_jobs : List PortalJob)
      → C.list_cpodjobs w source_label ≡ some jobs
      → (C.get_assigned_job_list w).1 ≡ some portal_jobs
      → (start C (w, b)).0
        ≡ delete_all C portal_jobs jobs
            (create_all C jobs portal_jobs ((C.get_assigned_job_list w).0, b)).0
  unfolding start
  start_lem w b jobs portal_jobs listed assigned = ground arith

  pub start-buffer :
      (w : C.World) (b : Buffer) (jobs : List CPodJob) (portal_jobs : List PortalJob)
      → C.list_cpodjobs w source_label ≡ some jobs
      → (C.get_assigned_job_list w).1 ≡ some portal_jobs
      → (start C (w, b)).1 ≡ (create_all C jobs portal_jobs ((C.get_assigned_job_list w).0, b)).1
  unfolding start
  start-buffer w b jobs portal_jobs listed assigned = ground arith

  -- Where the cluster's jobs are those of the portal but for settled ones, a pass only asks the
  -- portal.
  pub converged_idle :
      (w : C.World) (b : Buffer) (jobs : List CPodJob) (portal_jobs : List PortalJob)
      → C.list_cpodjobs w source_label ≡ some jobs
      → (C.get_assigned_job_list w).1 ≡ some portal_jobs
      → All (IsCreated b) portal_jobs
      → IsConverged portal_jobs jobs b
      → (start C (w, b)).0 ≡ (C.get_assigned_job_list w).0
  converged_idle w b jobs portal_jobs listed assigned made done =
      start_lem w b jobs portal_jobs listed assigned
      ∙ idle_delete_all jobs portal_jobs _ (none-doomed portal_jobs jobs done.none_doomed)
      ∙ idle_create_all jobs b portal_jobs ((C.get_assigned_job_list w).0, b) made done.served
