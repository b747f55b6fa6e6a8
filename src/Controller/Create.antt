-- ===== src/Controller/Create.antt =====
-- internal/controller/cpodjob_controller.go: `CreateBaseJob` as a whole, and `GetBaseJob`.
use cpodoperator.Base.{Bool, Option, none, some, ◌==◌, if◌then◌else◌, string_eq, String}
use cpodoperator.Api.Job.{CPodJob, job_type_mpi, job_type_pytorch}
use cpodoperator.Kube.Objects.{BaseKind, mpi_kind, pytorch_kind, BaseJob}
use cpodoperator.Kube.Outcome.{Outcome, ok, err, panic, Fetched, ignore_already_exists}
use cpodoperator.Kube.Client.{Client, Kubeflow}
use cpodoperator.Controller.Program.{Options, M, pure, throw, crash, ◌>>=◌, ask, call, get_job}
use cpodoperator.Controller.Mounts.{
  Mounts, no_mounts, Stage, next, done, add_ckpt, add_model_save, add_dataset, add_pretrain_model,
}
use cpodoperator.Controller.Build.{
  Plan, worker_replicas_of, resources_of, need_allocate_rdma_device, build_base_job,
}

-- An outcome that is no program's.
abbrev pub lift : {W A : Type 0} → Outcome A → M W A
lift (ok a) = pure a
lift (err e) = throw e
lift panic = crash

-- The kind of the empty object that is read into.
unfoldable pub base_kind : String → Option BaseKind
base_kind job_type =
    if job_type == job_type_mpi
    then some mpi_kind
    else if job_type == job_type_pytorch
    then some pytorch_kind
    else none

module _ (C : Client) where
  unfoldable pub get_base_job : M C.World (Fetched BaseJob)
  unfolding base_kind
  get_base_job = do
    job ← get_job
    ask (λ w.
        C.get_base_job w (record { namespace = job.namespace; name = job.name })
          (base_kind job.spec.job_type))

  -- `return client.IgnoreAlreadyExists(c.Client.Create(ctx, targetJob))`
  unfoldable pub create_target : Option BaseJob → M C.World (Unit {0})
  create_target target =
      call (λ w. let (w', r) = C.create_base_job w target in (w', ignore_already_exists r))

-- `workerReplicas` and `resources`, with what was mounted.
unfoldable pub plan_of : CPodJob → Mounts → Bool → Plan
plan_of job m rdma = record {
  mounts = m;
  replicas = worker_replicas_of job;
  resources = resources_of job rdma;
}

module _ (C : Client) (options : Options) (kf : Kubeflow) where
  -- From `workerReplicas` on.
  unfoldable pub submit : Mounts → M C.World (Unit {0})
  unfolding create_target
  submit m = do
    job ← get_job
    rdma ← need_allocate_rdma_device C job
    target ← lift (build_base_job kf job (plan_of job m rdma))
    create_target C target

  unfoldable pub after_dataset : Stage → M C.World Stage
  after_dataset done = pure done
  after_dataset (next m) = add_pretrain_model C kf m

  unfoldable pub submit_or_stop : Stage → M C.World (Unit {0})
  unfolding submit
  submit_or_stop done = pure tt
  submit_or_stop (next m) = submit m

  unfoldable pub create_base_job : M C.World (Unit {0})
  unfolding after_dataset submit_or_stop
  create_base_job = do
    ckpt ← add_ckpt C options no_mounts
    saved ← add_model_save C options ckpt
    dataset ← add_dataset C kf saved
    pretrained ← after_dataset dataset
    submit_or_stop pretrained
