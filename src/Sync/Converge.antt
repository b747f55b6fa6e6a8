-- ===== src/Sync/Converge.antt =====
-- What one pass of internal/synchronizer/syncjob.go brings about in a cluster: its CPodJobs are
-- those of the portal, but for settled ones and for jobs that are reported as not created.
pub mod Created
pub mod Deleted
pub mod Idle
pub mod Settles
use mathlib.Core.List.{Memᴰ}
use cpodoperator.Base.{String, ◌≡◌, ◌≢◌, ◌⊎◌, true, Option, none, some, List, [], ◌∷◌, All}
use cpodoperator.Api.Job.{CPodJob}
use cpodoperator.Kube.Objects.{Key}
use cpodoperator.Sync.Portal.{PortalJob, Cluster}
use cpodoperator.Sync.Jobs.{source_label, is_settled, has_cpodjob, has_portal_job}
use cpodoperator.Sync.Buffer.{Buffer, lookup}

abbrev pub key_of : CPodJob → Key
key_of job = record { namespace = job.namespace; name = job.name }

-- No two jobs of a list have one key.
abbrev pub Distinct : List CPodJob → Type 0
Distinct [] = Unit
Distinct (job ∷ jobs) = All (λ j. key_of j ≢ key_of job) jobs × Distinct jobs

-- From the jobs listed before a creation to those listed after it: at most one of the key is new. The
-- one that is stored may differ from the one that was sent, as in its identifier and its time.
pub record Gains (job : CPodJob) (before after : List CPodJob) : Type 0 where
  pub kept : (j : CPodJob) → Memᴰ j before → Memᴰ j after
  pub only : (j : CPodJob) → Memᴰ j after → (key_of j ≡ key_of job) ⊎ Memᴰ j before

-- The same for a deletion.
pub record Loses (job : CPodJob) (before after : List CPodJob) : Type 0 where
  pub kept : (j : CPodJob) → Memᴰ j before → key_of j ≢ key_of job → Memᴰ j after
  pub only : (j : CPodJob) → Memᴰ j after → Memᴰ j before × (key_of j ≢ key_of job)

-- A cluster that lists what is stored in it at once, and where deletions succeed. A creation of a job
-- with the label may fail, as where a job of its key is there without the label; where it succeeds,
-- one of its key is listed. The deletion of a listed job succeeds and takes it out of the list. The
-- portal is no part of the cluster.
pub record IsApiServer (C : Cluster) : Type 1 where
  pub creates :
      (w : C.World) (job : CPodJob) (jobs : List CPodJob)
      → C.list_cpodjobs w source_label ≡ some jobs
      → job.labels ≡ source_label
      → (after : List CPodJob) × (C.list_cpodjobs (C.create_cpodjob w job).0 source_label
          ≡ some after)
        × Gains job jobs after
        × ((C.create_cpodjob w job).1 ≡ true
            → (j : CPodJob) × Memᴰ j after × (key_of j ≡ key_of job))
  pub deletes :
      (w : C.World) (job : CPodJob) (jobs : List CPodJob)
      → C.list_cpodjobs w source_label ≡ some jobs
      → Memᴰ job jobs
      → ((C.delete_cpodjob w job).1 ≡ true)
        × ((after : List CPodJob) × (C.list_cpodjobs (C.delete_cpodjob w job).0 source_label
              ≡ some after)
            × Loses job jobs after)
  pub portal_apart :
      (w : C.World)
      → C.list_cpodjobs (C.get_assigned_job_list w).0 source_label ≡ C.list_cpodjobs w source_label

-- A CPodJob has the name, or a job of it is in the buffer, which is reported as not created.
abbrev pub Served : List CPodJob → Buffer → String → Type 0
Served jobs b name = ((q : PortalJob) × (lookup name b ≡ some q)) ⊎ (has_cpodjob jobs name ≡ true)

-- Each CPodJob is settled or has a job of the portal, and each of the portal's jobs is served.
pub record IsConverged (portal_jobs : List PortalJob) (jobs : List CPodJob) (b : Buffer)
    : Type 0 where
  pub none_doomed :
      All (λ j. (is_settled j ≡ true) ⊎ (has_portal_job portal_jobs j.name ≡ true)) jobs
  pub served : All (λ p. Served jobs b p.job_name) portal_jobs
