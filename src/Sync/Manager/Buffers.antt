-- ===== src/Sync/Manager/Buffers.antt =====
-- The buffer of internal/synchronizer/syncjob.go while the runnables of manager.go run.
use mathlib.Core.Path.{subst}
use cpodoperator.Base.{◌≡◌, refl, sym, List, [], ◌∷◌, arith, string_eq}
use cpodoperator.Api.Job.{CPodJob}
use cpodoperator.Sync.Portal.{PortalJob, Cluster}
use cpodoperator.Sync.Buffer.{Buffer, UniqueNames}
use cpodoperator.Sync.Jobs.Creation.{create_one-UniqueNames}
use cpodoperator.Sync.Reports.{KeyedByName, create_one-KeyedByName}
use cpodoperator.Sync.Manager.{Stage, idle, creating, deleting, sync_step}

-- The buffer is a map, in which each job has its own name.
abbrev pub IsMap : Buffer → Type 0
IsMap b = UniqueNames b × KeyedByName b

module _ (C : Cluster) where
  idle-buffer : (w : C.World) (b : Buffer) → (sync_step C (idle, (w, b))).1.1 ≡ b
  unfolding sync_step
  idle-buffer w b = ground arith

  deleting-buffer :
      (portal_jobs : List PortalJob) (left : List CPodJob) (w : C.World) (b : Buffer)
      → (sync_step C (deleting portal_jobs left, (w, b))).1.1 ≡ b
  unfolding sync_step
  deleting-buffer portal_jobs [] w b = refl
  deleting-buffer portal_jobs (job ∷ left) w b = ground arith

  creating-IsMap :
      (cpodjobs : List CPodJob) (portal_jobs left : List PortalJob) (w : C.World) (b : Buffer)
      → IsMap b
      → IsMap (sync_step C (creating cpodjobs portal_jobs left, (w, b))).1.1
  unfolding sync_step
  creating-IsMap cpodjobs portal_jobs [] w b h = h
  creating-IsMap cpodjobs portal_jobs (job ∷ left) w b (unique, keyed) = (
    create_one-UniqueNames C cpodjobs job (w, b) unique,
    create_one-KeyedByName C cpodjobs job (w, b) keyed,
  )

  pub sync_step-IsMap :
      (stage : Stage) (w : C.World) (b : Buffer) → IsMap b → IsMap (sync_step C (stage, (w, b))).1.1
  sync_step-IsMap idle w b h = subst IsMap (sym (idle-buffer w b)) h
  sync_step-IsMap (deleting portal_jobs left) w b h =
      subst IsMap (sym (deleting-buffer portal_jobs left w b)) h
  sync_step-IsMap (creating cpodjobs portal_jobs left) w b h =
      creating-IsMap cpodjobs portal_jobs left w b h
