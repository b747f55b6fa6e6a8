-- ===== src/Models/Storage/Invariants.antt =====
-- What holds of a ModelStorage over any run of
-- internal/controller/modelstorage_controller.go and of everything beside it.
use cpodoperator.Base.{◌≡◌, ◌≢◌, refl, ◌∙◌, arith, prefix_ne_empty}
use cpodoperator.Api.Storage.{ModelStorage}
use cpodoperator.Kube.Objects.{Key}
use cpodoperator.Kube.Outcome.{ok}
use cpodoperator.Models.Storage.{
  Options, Client, failed_storage, claimed_storage, syncing_storage, lost_storage, done_storage,
  reconcile,
}
use cpodoperator.Models.Storage.Steps.{
  IsStore, Step, fail_size, claim_volume, begin_sync, lose_job, complete, Steps, here, more,
}
use cpodoperator.Models.Storage.Reached.{reconcile-Reached}

-- A job is only named once a claim is: the job mounts the claim.
abbrev pub IsOrdered : ModelStorage → Type 0
IsOrdered s = s.status.target_download_job_name ≢ "" → s.status.target_pvc_name ≢ ""

Step-IsOrdered : (C : Client) (s t : ModelStorage) → Step C s t → IsOrdered s → IsOrdered t
unfolding failed_storage claimed_storage syncing_storage lost_storage done_storage
Step-IsOrdered C s _ (fail_size e) h = h
Step-IsOrdered C s _ (claim_volume e) h = λ k. prefix_ne_empty "pvc-" s.name (omega arith)
Step-IsOrdered C s _ (begin_sync p e) h = λ k. p
Step-IsOrdered C s _ (lose_job w e) h = λ k. absurd (k refl)
Step-IsOrdered C s _ (complete w job e one p q) h = λ k. p

pub Steps-IsOrdered : (C : Client) (s t : ModelStorage) → Steps C s t → IsOrdered s → IsOrdered t
Steps-IsOrdered C s _ here h = h
Steps-IsOrdered C s _ (more {t = v} {u = u} before one) h =
    Step-IsOrdered C v u one (Steps-IsOrdered C s v before h)

Steps-trans : (C : Client) (s t u : ModelStorage) → Steps C s t → Steps C t u → Steps C s u
Steps-trans C s t _ before here = before
Steps-trans C s t _ before (more {t = v} {u = u} after one) =
    more (Steps-trans C s t v before after) one

module _ (C : Client) (options : Options) (key : Key) where
  -- Reconciliations of one ModelStorage, and between them any change that leaves the stored one
  -- alone: jobs that run and end, other controllers, the hub.
  pub data Run (w : C.World) : C.World → Type 0 where
    start : Run w w
    reconciled : {v : C.World} → Run w v → Run w (reconcile C options v key).0
    elsewhere : {v u : C.World} → Run w v → C.get_storage u key ≡ C.get_storage v key → Run w u

  pub Run-Steps :
      (w v : C.World) (s : ModelStorage)
      → IsStore C
      → C.get_storage w key ≡ ok s
      → Run w v
      → (t : ModelStorage) × (C.get_storage v key ≡ ok t) × Steps C s t
  Run-Steps w _ s store got_s start = (s, got_s, here)
  Run-Steps w _ s store got_s (reconciled {v} r) =
      let (t, got_t, before) = Run-Steps w v s store got_s r in
      let (u, got_u, after) = reconcile-Reached C key t store options v got_t in
      (u, got_u, Steps-trans C s t u before after)
  Run-Steps w _ s store got_s (elsewhere {v} {u} r same) =
      let (t, got_t, before) = Run-Steps w v s store got_s r in (t, same ∙ got_t, before)

  -- Over a store as the API server documents it, let reconciliations of one stored ModelStorage and
  -- changes elsewhere follow each other in any order. If the storage named no download job without a
  -- claim at first, the one that is stored in the end does not either.
  pub Run-IsOrdered :
      (w v : C.World) (s : ModelStorage)
      → IsStore C
      → C.get_storage w key ≡ ok s
      → IsOrdered s
      → Run w v
      → (t : ModelStorage) × (C.get_storage v key ≡ ok t) × IsOrdered t
  Run-IsOrdered w v s store got_s ordered r =
      let (t, got_t, path) = Run-Steps w v s store got_s r in
      (t, got_t, Steps-IsOrdered C s t path ordered)
