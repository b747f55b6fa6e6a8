-- ===== src/Controller/Mounts.antt =====
-- internal/controller/cpodjob_controller.go: the first part of `CreateBaseJob`, which collects the
-- volumes of a base job and the mounts of its containers.
use cpodoperator.Base.{
  String, Bool, false, ◌&&◌, not, none, List, [], ◌∷◌, ◌++◌, ◌==◌, if◌then◌else◌, string_eq,
}
use cpodoperator.Base.Int.{pos, int_eq}
use cpodoperator.Api.Job.{CPodJob, failed, condition_true}
use cpodoperator.Api.Storage.{DataSetStorage, CachedModel, phase_done}
use cpodoperator.Status.{update_job_conditions}
use cpodoperator.Kube.Objects.{Key, claim, Volume, VolumeMount}
use cpodoperator.Kube.Outcome.{found, missing, refused, crashed}
use cpodoperator.Kube.Client.{Client, Kubeflow}
use cpodoperator.Controller.Program.{
  Options, M, pure, throw, crash, ◌>>=◌, ◌>>◌, on_error, ask, set_status, get_job, get_now, deref,
  warn,
}
use cpodoperator.Controller.Claims.{get_ckpt_pvc, get_model_save_pvc}
use cpodoperator.Controller.Report.{update_status}

-- The slices `volumes` and `volumeMounts`.
pub record Mounts : Type 0 where
  pub volumes : List Volume
  pub mounts : List VolumeMount

abbrev pub no_mounts : Mounts
no_mounts = record { volumes = []; mounts = [] }

-- The closure `addVolume`.
unfoldable pub add_volume : Mounts → String → String → String → Mounts
add_volume m name claim_name mount_path = record {
  volumes = m.volumes ++ record { name = name; source = claim claim_name false } ∷ [];
  mounts = m.mounts ++ record { name = name; mount_path = mount_path } ∷ [];
}

-- Whether the function goes on, or returns nil at once with the job marked as failed.
pub data Stage : Type 0 where
  next : Mounts → Stage
  done : Stage

abbrev pub is_set : String → Bool
is_set s = not (s == "")

abbrev pub key_of : CPodJob → String → Key
key_of job name = record { namespace = job.namespace; name = name }

module _ (C : Client) (options : Options) where
  unfoldable pub mount_ckpt : Mounts → CPodJob → M C.World Mounts
  mount_ckpt m job = do
    pvc ← on_error (get_ckpt_pvc C options) (warn C "GetCKPTPVCFailed" "Get ckpt pvc failed")
    claimed ← deref pvc
    pure (add_volume m "ckpt" claimed.name job.spec.ckpt_path)

  unfoldable pub add_ckpt : Mounts → M C.World Mounts
  unfolding mount_ckpt
  add_ckpt m = do job ← get_job; if is_set job.spec.ckpt_path then mount_ckpt m job else pure m

  unfoldable pub mount_model_save : Mounts → CPodJob → M C.World Mounts
  mount_model_save m job = do
    pvc ←
        on_error (get_model_save_pvc C options)
          (warn C "GetModelSavePVCFailed" "Get model save pvc failed")
    claimed ← deref pvc
    pure (add_volume m "modelsave" claimed.name job.spec.model_save_path)

  unfoldable pub add_model_save : Mounts → M C.World Mounts
  unfolding mount_model_save
  add_model_save m = do
    job ← get_job
    if is_set job.spec.model_save_path && not (job.spec.model_save_volume_size == pos 0)
        then mount_model_save m job
        else pure m

module _ (C : Client) (kf : Kubeflow) where
  -- The event, the failed condition, and `return c.UpdateStatus(ctx, cpodjob, nil)`.
  unfoldable pub fail_job : String → String → String → String → M C.World Stage
  fail_job event text reason description = do
    warn C event text
    now ← get_now C
    job ← get_job
    set_status (update_job_conditions now job.status failed condition_true reason description)
    update_status C kf none
    pure done

  unfoldable pub mount_dataset : Mounts → CPodJob → DataSetStorage → M C.World Stage
  mount_dataset m job dataset = do
    answer ← ask (λ w. C.get_pvc w (key_of job dataset.pvc))
    elim answer [
      | found pvc ↦ pure (next (add_volume m "dataset" pvc.name job.spec.dataset_path))
      | missing ↦
          fail_job "GetDatasetPVCFailed" "Dataset PVC not found" "GetDatasetPVCFailed"
            "Dataset PVC not found"
      | refused e ↦ throw e
      | crashed ↦ crash
    ]

  unfoldable pub check_dataset : Mounts → CPodJob → M C.World Stage
  check_dataset m job = do
    answer ← ask (λ w. C.get_dataset w (key_of job job.spec.dataset_name))
    elim answer [
      | found dataset ↦
          if dataset.phase == phase_done
          then mount_dataset m job dataset
          else fail_job "GetDatasetFailed" "Dateset not found" "GetPretrainModelFailed"
              "Pretrain model downloader failed"
      | missing ↦
          fail_job "DatasetFailed" "Dataset not found" "GetDatasetFailed" "Dataset not found"
      | refused e ↦ throw e
      | crashed ↦ crash
    ]

  unfoldable pub add_dataset : Mounts → M C.World Stage
  unfolding mount_dataset check_dataset
  add_dataset m = do
    job ← get_job
    if is_set job.spec.dataset_path && is_set job.spec.dataset_name
        then check_dataset m job
        else pure (next m)

  -- When the claim of the model cannot be read for another reason than that it is not there, the
  -- error is dropped, and the volume is added with the claim's empty name.
  unfoldable pub mount_pretrain_model : Mounts → CPodJob → CachedModel → M C.World Stage
  mount_pretrain_model m job model = do
    answer ← ask (λ w. C.get_pvc w (key_of job model.pvc))
    elim answer [
      | found pvc ↦
          pure (next (add_volume m "pretrain-model" pvc.name job.spec.pretrain_model_path))
      | missing ↦
          fail_job "GetPretrainModelPVCFailed" "Pretrain model PVC not found"
            "GetPretrainModelPVCFailed" "Pretrain model PVC not found"
      | refused e ↦ pure (next (add_volume m "pretrain-model" "" job.spec.pretrain_model_path))
      | crashed ↦ crash
    ]

  unfoldable pub check_pretrain_model : Mounts → CPodJob → M C.World Stage
  check_pretrain_model m job = do
    answer ← ask (λ w. C.get_model w (key_of job job.spec.pretrain_model_name))
    elim answer [
      | found model ↦
          if model.phase == phase_done
          then mount_pretrain_model m job model
          else fail_job "GetPretrainModelFailed" "Pretrain model not found" "GetPretrainModelFailed"
              "Pretrain model downloader failed"
      | missing ↦
          fail_job "GetPretrainModelFailed" "Pretrain model not found" "GetPretrainModelFailed"
            "Pretrain model not found"
      | refused e ↦ throw e
      | crashed ↦ crash
    ]

  unfoldable pub add_pretrain_model : Mounts → M C.World Stage
  unfolding mount_pretrain_model check_pretrain_model
  add_pretrain_model m = do
    job ← get_job
    if is_set job.spec.pretrain_model_name && is_set job.spec.pretrain_model_path
        then check_pretrain_model m job
        else pure (next m)
