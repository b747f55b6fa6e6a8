-- ===== src/Controller/Effects/Sources.antt =====
-- The parts of `CreateBaseJob` in internal/controller/cpodjob_controller.go that mount a dataset and
-- a pretrained model: what is done to the cluster for them, and that every mount has its volume.
use cpodoperator.Base.{String, none, if◌then◌else◌, ◌==◌, ◌&&◌, string_eq}
use cpodoperator.Api.Job.{CPodJob, failed, condition_true}
use cpodoperator.Api.Storage.{DataSetStorage, CachedModel, phase_done}
use cpodoperator.Status.{update_job_conditions}
use cpodoperator.Kube.Client.{Client, Kubeflow}
use cpodoperator.Controller.Program.{pure, throw, crash, ◌>>◌, set_status}
use cpodoperator.Controller.Report.{update_status}
use cpodoperator.Controller.Mounts.{
  Mounts, next, done, is_set, add_volume, fail_job, mount_dataset, check_dataset, add_dataset,
  mount_pretrain_model, check_pretrain_model, add_pretrain_model,
}
use cpodoperator.Controller.Build.Backing.{add_volume-AllBacked}
use cpodoperator.Controller.Effects.{Identity}
use cpodoperator.Controller.Effects.Rules.{
  Does, Does-pure, Does-throw, Does-crash, Does-if, Does-fetched, Does-ask, Does-get_now,
  Does-set_status, Does-warn, Does-step, Does-with_job,
}
use cpodoperator.Controller.Effects.Parts.{Backed, StageBacked}
use cpodoperator.Controller.Effects.Updates.{Does-update_status}

module _ (C : Client) (id : Identity) (kf : Kubeflow) where
  pub Does-fail_job :
      (event text reason description : String)
      → Does C id StageBacked (fail_job C kf event text reason description)
  unfolding fail_job
  Does-fail_job event text reason description =
      Does-step C id StageBacked _ _ (Does-warn C id event text) λ u.
        Does-step C id StageBacked _ _ (Does-get_now C id) λ now.
          Does-with_job C id StageBacked
            (λ job.
              set_status
                (update_job_conditions now job.status failed condition_true reason description)
              >> (update_status C kf none >> pure done))
            λ job e.
              Does-step C id StageBacked _ _
                (Does-set_status C id
                  (update_job_conditions now job.status failed condition_true reason description))
                λ v.
                  Does-step C id StageBacked _ _ (Does-update_status C id kf none)
                    λ x. Does-pure C id StageBacked done tt

  Does-mount_dataset :
      (m : Mounts) (h : Backed m) (job : CPodJob) (dataset : DataSetStorage)
      → Does C id StageBacked (mount_dataset C kf m job dataset)
  unfolding mount_dataset
  Does-mount_dataset m h job dataset = Does-step C id StageBacked _ _ (Does-ask C id _) λ answer.
      Does-fetched C id StageBacked answer
        (λ pvc. pure (next (add_volume m "dataset" pvc.name job.spec.dataset_path)))
        (fail_job C kf "GetDatasetPVCFailed" "Dataset PVC not found" "GetDatasetPVCFailed"
          "Dataset PVC not found")
        throw crash
        (λ pvc.
          Does-pure C id StageBacked _
            (add_volume-AllBacked m "dataset" pvc.name job.spec.dataset_path h))
        (Does-fail_job _ _ _ _) (Does-throw C id StageBacked) (Does-crash C id StageBacked)

  Does-check_dataset :
      (m : Mounts) (h : Backed m) (job : CPodJob) → Does C id StageBacked (check_dataset C kf m job)
  unfolding check_dataset
  Does-check_dataset m h job = Does-step C id StageBacked _ _ (Does-ask C id _) λ answer.
      Does-fetched C id StageBacked answer
        (λ dataset.
          if dataset.phase == phase_done
          then mount_dataset C kf m job dataset
          else fail_job C kf "GetDatasetFailed" "Dateset not found" "GetPretrainModelFailed"
              "Pretrain model downloader failed")
        (fail_job C kf "DatasetFailed" "Dataset not found" "GetDatasetFailed" "Dataset not found")
        throw crash
        (λ dataset.
          Does-if C id StageBacked (dataset.phase == phase_done) _ _
            (Does-mount_dataset m h job dataset) (Does-fail_job _ _ _ _))
        (Does-fail_job _ _ _ _) (Does-throw C id StageBacked) (Does-crash C id StageBacked)

  pub Does-add_dataset : (m : Mounts) → Backed m → Does C id StageBacked (add_dataset C kf m)
  unfolding add_dataset
  Does-add_dataset m h =
      Does-with_job C id StageBacked
        (λ job.
          if is_set job.spec.dataset_path && is_set job.spec.dataset_name
          then check_dataset C kf m job
          else pure (next m))
        (λ job e.
          Does-if C id StageBacked _ _ _ (Does-check_dataset m h job)
            (Does-pure C id StageBacked (next m) h))

  Does-mount_pretrain_model :
      (m : Mounts) (h : Backed m) (job : CPodJob) (model : CachedModel)
      → Does C id StageBacked (mount_pretrain_model C kf m job model)
  unfolding mount_pretrain_model
  Does-mount_pretrain_model m h job model =
      Does-step C id StageBacked _ _ (Does-ask C id _) λ answer.
        Does-fetched C id StageBacked answer
          (λ pvc. pure (next (add_volume m "pretrain-model" pvc.name job.spec.pretrain_model_path)))
          (fail_job C kf "GetPretrainModelPVCFailed" "Pretrain model PVC not found"
            "GetPretrainModelPVCFailed" "Pretrain model PVC not found")
          (λ e. pure (next (add_volume m "pretrain-model" "" job.spec.pretrain_model_path))) crash
          (λ pvc.
            Does-pure C id StageBacked _
              (add_volume-AllBacked m "pretrain-model" pvc.name job.spec.pretrain_model_path h))
          (Does-fail_job _ _ _ _)
          (λ e.
            Does-pure C id StageBacked _
              (add_volume-AllBacked m "pretrain-model" "" job.spec.pretrain_model_path h))
          (Does-crash C id StageBacked)

  Does-check_pretrain_model :
      (m : Mounts) (h : Backed m) (job : CPodJob)
      → Does C id StageBacked (check_pretrain_model C kf m job)
  unfolding check_pretrain_model
  Does-check_pretrain_model m h job = Does-step C id StageBacked _ _ (Does-ask C id _) λ answer.
      Does-fetched C id StageBacked answer
        (λ model.
          if model.phase == phase_done
          then mount_pretrain_model C kf m job model
          else fail_job C kf "GetPretrainModelFailed" "Pretrain model not found"
              "GetPretrainModelFailed" "Pretrain model downloader failed")
        (fail_job C kf "GetPretrainModelFailed" "Pretrain model not found" "GetPretrainModelFailed"
          "Pretrain model not found")
        throw crash
        (λ model.
          Does-if C id StageBacked (model.phase == phase_done) _ _
            (Does-mount_pretrain_model m h job model) (Does-fail_job _ _ _ _))
        (Does-fail_job _ _ _ _) (Does-throw C id StageBacked) (Does-crash C id StageBacked)

  pub Does-add_pretrain_model :
      (m : Mounts) → Backed m → Does C id StageBacked (add_pretrain_model C kf m)
  unfolding add_pretrain_model
  Does-add_pretrain_model m h =
      Does-with_job C id StageBacked
        (λ job.
          if is_set job.spec.pretrain_model_name && is_set job.spec.pretrain_model_path
          then check_pretrain_model C kf m job
          else pure (next m))
        (λ job e.
          Does-if C id StageBacked _ _ _ (Does-check_pretrain_model m h job)
            (Does-pure C id StageBacked (next m) h))
