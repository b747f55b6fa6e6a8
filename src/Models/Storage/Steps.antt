-- ===== src/Models/Storage/Steps.antt =====
-- The states of a ModelStorage, as internal/controller/modelstorage_controller.go changes them, and
-- what the API server that stores it is taken to do.
use cpodoperator.Base.{◌≡◌, ◌≢◌, refl, string_eq}
use cpodoperator.Base.Int.{pos, int_eq}
use cpodoperator.Api.Storage.{ModelStorage}
use cpodoperator.Kube.Objects.{Key, Pvc, BatchJob}
use cpodoperator.Kube.Outcome.{ok, err, not_found}
use cpodoperator.Models.Storage.{
  Client, failed_storage, claimed_storage, syncing_storage, lost_storage, done_storage, job_key,
}

abbrev pub key_of : ModelStorage → Key
key_of s = record { namespace = s.namespace; name = s.name }

-- What is documented of the API server: an object is read under its key; a status update that
-- succeeds is read back, and one that fails changes nothing; other kinds of object are apart.
pub record IsStore (C : Client) : Type 0 where
  pub named : (w : C.World) (k : Key) (s : ModelStorage) → C.get_storage w k ≡ ok s → key_of s ≡ k
  pub written :
      (w : C.World) (s : ModelStorage)
      → (C.update_status w s).1 ≡ ok tt
      → C.get_storage (C.update_status w s).0 (key_of s) ≡ ok s
  pub unwritten :
      (w : C.World) (s : ModelStorage) (k : Key)
      → (C.update_status w s).1 ≢ ok tt
      → C.get_storage (C.update_status w s).0 k ≡ C.get_storage w k
  pub claims_apart :
      (w : C.World) (c : Pvc) (k : Key) → C.get_storage (C.create_pvc w c).0 k ≡ C.get_storage w k
  pub jobs_apart :
      (w : C.World) (j : BatchJob) (k : Key)
      → C.get_storage (C.create_job w j).0 k ≡ C.get_storage w k

-- One change of a stored ModelStorage, with what the controller found before it.
pub data Step (C : Client) (s : ModelStorage) : ModelStorage → Type 0 where
  fail_size : s.status.target_pvc_name ≡ "" → Step C s (failed_storage s)
  claim_volume : s.status.target_pvc_name ≡ "" → Step C s (claimed_storage s)
  begin_sync :
      s.status.target_pvc_name ≢ ""
      → s.status.target_download_job_name ≡ ""
      → Step C s (syncing_storage s)
  lose_job : (w : C.World) → C.get_job w (job_key s) ≡ err not_found → Step C s (lost_storage s)
  complete :
      (w : C.World) (job : BatchJob)
      → C.get_job w (job_key s) ≡ ok job
      → job.succeeded ≡ pos 1
      → s.status.target_pvc_name ≢ ""
      → s.status.target_download_job_name ≢ ""
      → Step C s (done_storage s)

pub data Steps (C : Client) (s : ModelStorage) : ModelStorage → Type 0 where
  here : Steps C s s
  more : {t u : ModelStorage} → Steps C s t → Step C t u → Steps C s u

pub Step-key_of : {C : Client} {s t : ModelStorage} → Step C s t → key_of t ≡ key_of s
unfolding failed_storage claimed_storage syncing_storage lost_storage done_storage
Step-key_of (fail_size h) = refl
Step-key_of (claim_volume h) = refl
Step-key_of (begin_sync h k) = refl
Step-key_of (lose_job w h) = refl
Step-key_of (complete w job h k p q) = refl
