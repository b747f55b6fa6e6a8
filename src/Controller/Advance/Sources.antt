-- ===== src/Controller/Advance/Sources.antt =====
-- The parts of `CreateBaseJob` in internal/controller/cpodjob_controller.go that mount a dataset and
-- a pretrained model move the job up: at most they mark it as failed.
use cpodoperator.Base.{if◌then◌else◌, ◌==◌, ◌&&◌, string_eq}
use cpodoperator.Api.Job.{CPodJob}
use cpodoperator.Api.Storage.{DataSetStorage, CachedModel, phase_done}
use cpodoperator.Kube.Client.{Client, Kubeflow}
use cpodoperator.Controller.Program.{pure, throw, crash}
use cpodoperator.Controller.Mounts.{
  Mounts, next, is_set, add_volume, fail_job, mount_dataset, check_dataset, add_dataset,
  mount_pretrain_model, check_pretrain_model, add_pretrain_model,
}
use cpodoperator.Controller.Advance.{
  Moves, Moves-pure, Moves-throw, Moves-crash, Moves-ask, Moves-if, Moves-get_job, Moves-bind,
  Moves-fetched,
}
use cpodoperator.Controller.Advance.Reports.{Moves-fail_job}

module _ (C : Client) (kf : Kubeflow) where
  Moves-mount_dataset :
      (m : Mounts) (job : CPodJob) (dataset : DataSetStorage)
      → Moves (mount_dataset C kf m job dataset)
  unfolding mount_dataset
  Moves-mount_dataset m job dataset = Moves-bind _ _ (Moves-ask _) λ answer.
      Moves-fetched answer
        (λ pvc. pure (next (add_volume m "dataset" pvc.name job.spec.dataset_path)))
        (fail_job C kf "GetDatasetPVCFailed" "Dataset PVC not found" "GetDatasetPVCFailed"
          "Dataset PVC not found")
        throw crash (λ pvc. Moves-pure _) (Moves-fail_job C kf _ _ _ _) Moves-throw Moves-crash

  Moves-check_dataset : (m : Mounts) (job : CPodJob) → Moves (check_dataset C kf m job)
  unfolding check_dataset
  Moves-check_dataset m job = Moves-bind _ _ (Moves-ask _) λ answer.
      Moves-fetched answer
        (λ dataset.
          if dataset.phase == phase_done
          then mount_dataset C kf m job dataset
          else fail_job C kf "GetDatasetFailed" "Dateset not found" "GetPretrainModelFailed"
              "Pretrain model downloader failed")
        (fail_job C kf "DatasetFailed" "Dataset not found" "GetDatasetFailed" "Dataset not found")
        throw crash
        (λ dataset.
          Moves-if (dataset.phase == phase_done) _ _ (Moves-mount_dataset m job dataset)
            (Moves-fail_job C kf _ _ _ _))
        (Moves-fail_job C kf _ _ _ _) Moves-throw Moves-crash

  pub Moves-add_dataset : (m : Mounts) → Moves (add_dataset C kf m)
  unfolding add_dataset
  Moves-add_dataset m = Moves-bind _ _ Moves-get_job λ job.
      Moves-if (is_set job.spec.dataset_path && is_set job.spec.dataset_name) _ _
        (Moves-check_dataset m job) (Moves-pure (next m))

  Moves-mount_pretrain_model :
      (m : Mounts) (job : CPodJob) (model : CachedModel)
      → Moves (mount_pretrain_model C kf m job model)
  unfolding mount_pretrain_model
  Moves-mount_pretrain_model m job model = Moves-bind _ _ (Moves-ask _) λ answer.
      Moves-fetched answer
        (λ pvc. pure (next (add_volume m "pretrain-model" pvc.name job.spec.pretrain_model_path)))
        (fail_job C kf "GetPretrainModelPVCFailed" "Pretrain model PVC not found"
          "GetPretrainModelPVCFailed" "Pretrain model PVC not found")
        (λ e. pure (next (add_volume m "pretrain-model" "" job.spec.pretrain_model_path))) crash
        (λ pvc. Moves-pure _) (Moves-fail_job C kf _ _ _ _) (λ e. Moves-pure _) Moves-crash

  Moves-check_pretrain_model :
      (m : Mounts) (job : CPodJob) → Moves (check_pretrain_model C kf m job)
  unfolding check_pretrain_model
  Moves-check_pretrain_model m job = Moves-bind _ _ (Moves-ask _) λ answer.
      Moves-fetched answer
        (λ model.
          if model.phase == phase_done
          then mount_pretrain_model C kf m job model
          else fail_job C kf "GetPretrainModelFailed" "Pretrain model not found"
              "GetPretrainModelFailed" "Pretrain model downloader failed")
        (fail_job C kf "GetPretrainModelFailed" "Pretrain model not found" "GetPretrainModelFailed"
          "Pretrain model not found")
        throw crash
        (λ model.
          Moves-if (model.phase == phase_done) _ _ (Moves-mount_pretrain_model m job model)
            (Moves-fail_job C kf _ _ _ _))
        (Moves-fail_job C kf _ _ _ _) Moves-throw Moves-crash

  pub Moves-add_pretrain_model : (m : Mounts) → Moves (add_pretrain_model C kf m)
  unfolding add_pretrain_model
  Moves-add_pretrain_model m = Moves-bind _ _ Moves-get_job λ job.
      Moves-if (is_set job.spec.pretrain_model_name && is_set job.spec.pretrain_model_path) _ _
        (Moves-check_pretrain_model m job) (Moves-pure (next m))
