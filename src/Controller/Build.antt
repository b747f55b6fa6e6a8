-- ===== src/Controller/Build.antt =====
-- internal/controller/cpodjob_controller.go: the second part of `CreateBaseJob`, which builds the
-- MPIJob or the PyTorchJob that a CPodJob stands for.
pub mod Backing
use cpodoperator.Base.{
  String, Bool, true, false, ◌&&◌, not, Option, none, some, List, [], ◌∷◌, ◌++◌, ◌==◌, length, leb,
  if◌then◌else◌, string_eq,
}
use cpodoperator.Base.Int.{ℤ, pos, ltb_ℤ, to_int64, int_eq}
use cpodoperator.Api.Job.{CPodJob, EnvVar, job_type_mpi, job_type_pytorch}
use cpodoperator.Kube.Objects.{
  Volume, VolumeMount, empty_dir, memory, pull_default, Container, restart_default,
  restart_on_failure, PodSpec, ReplicaSpec, BaseJob, mpi_job, pytorch_job, PytorchJob,
  clean_running, c10d, Node, BaseStatus, MpiStatus,
}
use cpodoperator.Kube.Outcome.{Outcome, ok, err, panic, found, missing, refused, crashed}
use cpodoperator.Kube.Client.{Client, Kubeflow}
use cpodoperator.Controller.Program.{Options, M, pure, crash, ◌>>=◌, ask}
use cpodoperator.Controller.Claims.{generate_owner_ref}
use cpodoperator.Controller.Mounts.{Mounts}

abbrev Resources : Type 0
Resources = List (String × ℤ)

-- What both kinds of base job are built from: the mounts, `workerReplicas` and `resources`.
pub record Plan : Type 0 where
  pub mounts : Mounts
  pub replicas : ℤ
  pub resources : List (String × ℤ)

unfoldable pub worker_replicas_of : CPodJob → ℤ
worker_replicas_of job =
    if job.spec.worker_replicas == pos 0 then pos 1 else job.spec.worker_replicas

-- The requests and the limits are the same.
unfoldable pub resources_of : CPodJob → Bool → List (String × ℤ)
resources_of job rdma =
    ("nvidia.com/gpu", job.spec.gpu_required_per_replica)
    ∷ (if rdma then ("rdma/rdma_shared_device_a", pos 1) ∷ [] else [])

-- The job is distributed: `WorkerReplicas > 1`.
abbrev pub is_distributed : CPodJob → Bool
is_distributed job = ltb_ℤ (pos 1) job.spec.worker_replicas

abbrev rdma_label : List (String × String)
rdma_label = ("feature.node.kubernetes.io/rdma.available", "true") ∷ []

module _ (C : Client) where
  -- An error of the list counts as no device.
  unfoldable pub need_allocate_rdma_device : CPodJob → M C.World Bool
  need_allocate_rdma_device job = do
    answer ← ask (λ w. C.list_nodes w rdma_label)
    elim answer [
      | found nodes ↦ pure (leb 2 (length nodes) && is_distributed job)
      | missing ↦ pure false
      | refused e ↦ pure false
      | crashed ↦ crash
    ]

abbrev empty_mpi_status : MpiStatus
empty_mpi_status = record {
  conditions = [];
  start_time = none;
  completion_time = none;
  last_reconcile_time = none;
}

abbrev empty_base_status : BaseStatus
empty_base_status = record {
  conditions = [];
  start_time = none;
  completion_time = none;
  last_reconcile_time = none;
}

-- The launcher has the command, and no resources.
launcher_container : CPodJob → Plan → Container
launcher_container job plan = record {
  name = "launcher";
  image = job.spec.image;
  image_pull_policy = pull_default;
  command = job.spec.command;
  env = job.spec.envs;
  config_env = [];
  env_from_secrets = [];
  volume_mounts = plan.mounts.mounts;
  requests = [];
  limits = [];
  capabilities = [];
}

worker_container : CPodJob → Plan → String → List String → Container
worker_container job plan name command = record {
  name = name;
  image = job.spec.image;
  image_pull_policy = pull_default;
  command = command;
  env = job.spec.envs;
  config_env = [];
  env_from_secrets = [];
  volume_mounts = plan.mounts.mounts;
  requests = plan.resources;
  limits = plan.resources;
  capabilities = [];
}

launcher_spec : CPodJob → Plan → ReplicaSpec
unfolding launcher_container
launcher_spec job plan = record {
  replicas = none;
  restart_policy = restart_on_failure;
  template_name = "";
  template_namespace = "";
  pod = record {
    containers = launcher_container job plan ∷ [];
    volumes = plan.mounts.volumes;
    node_selector = [];
    host_ipc = true;
    restart_policy = restart_default;
  };
}

worker_spec : CPodJob → Plan → Container → String → String → ReplicaSpec
worker_spec job plan container name namespace = record {
  replicas = some plan.replicas;
  restart_policy = restart_on_failure;
  template_name = name;
  template_namespace = namespace;
  pod = record {
    containers = container ∷ [];
    volumes = plan.mounts.volumes;
    node_selector = ("nvidia.com/gpu.product", job.spec.gpu_type) ∷ [];
    host_ipc = false;
    restart_policy = restart_default;
  };
}

unfoldable pub build_mpi_job : Kubeflow → CPodJob → Plan → BaseJob
unfolding generate_owner_ref launcher_spec worker_container worker_spec
build_mpi_job kf job plan = mpi_job (record {
  name = job.name;
  namespace = job.namespace;
  owners = generate_owner_ref job ∷ [];
  replica_specs =
      (kf.mpi_launcher, launcher_spec job plan)
      ∷ (kf.mpi_worker, worker_spec job plan (worker_container job plan "worker" []) "" "")
      ∷ [];
  status = empty_mpi_status;
})

unfoldable pub pytorch_worker_spec : CPodJob → Plan → ReplicaSpec
unfolding worker_container worker_spec
pytorch_worker_spec job plan =
    worker_spec job plan (worker_container job plan "pytorch" job.spec.command) "pytorch-worker"
      job.namespace

unfoldable pub build_pytorch_job : Kubeflow → CPodJob → Plan → PytorchJob
unfolding generate_owner_ref pytorch_worker_spec
build_pytorch_job kf job plan = record {
  name = job.name;
  namespace = job.namespace;
  owners = generate_owner_ref job ∷ [];
  clean_pod_policy = clean_running;
  elastic_backend = none;
  nproc_per_node = none;
  replica_specs = (kf.pytorch_worker, pytorch_worker_spec job plan) ∷ [];
  status = empty_base_status;
}

abbrev pub shm_mount : VolumeMount
shm_mount = record { name = "shm"; mount_path = "/dev/shm" }

abbrev shm_volume : Volume
shm_volume = record { name = "shm"; source = empty_dir memory (pos 5120) }

abbrev nccl_envs : List EnvVar
nccl_envs =
    record { name = "NCCL_NET"; value = "IB" }
    ∷ record { name = "NCCL_IB_DISABLE"; value = "0" }
    ∷ []

abbrev distribute_container : Container → Container
distribute_container c = record c {
  env = c.env ++ nccl_envs;
  capabilities = "IPC_LOCK" ∷ [];
  volume_mounts = c.volume_mounts ++ shm_mount ∷ [];
}

-- An assignment to `Containers[0]`.
distribute_first : List Container → List Container
distribute_first [] = []
distribute_first (c ∷ cs) = distribute_container c ∷ cs

-- What the code does to `workerSpec`, which is a copy of the pod's specification.
distribute_copy : PodSpec → PodSpec
unfolding distribute_first
distribute_copy pod = record pod {
  containers = distribute_first pod.containers;
  volumes = pod.volumes ++ shm_volume ∷ [];
}

-- The copy and the pod share the array of containers, so what is written to a container reaches the
-- pod. The new slice of volumes is a field of the copy alone, and is lost with it.
unfoldable pub distribute_pod : PodSpec → PodSpec
unfolding distribute_copy
distribute_pod pod = record pod { containers = (distribute_copy pod).containers }

-- A write through the entry of a map; there is none at a missing key, where the code panics.
update_entry :
    String
    → (ReplicaSpec → ReplicaSpec)
    → List (String × ReplicaSpec)
    → Option (List (String × ReplicaSpec))
update_entry k f [] = none
update_entry k f ((j, r) ∷ specs) =
    if j == k
    then some ((j, f r) ∷ specs)
    else elim (update_entry k f specs) [ none ↦ none | some rest ↦ some ((j, r) ∷ rest) ]

distributed_job : CPodJob → PytorchJob → List (String × ReplicaSpec) → PytorchJob
distributed_job job target specs = record target {
  elastic_backend = some c10d;
  nproc_per_node = some job.spec.worker_replicas;
  replica_specs = specs;
}

-- `if cpodjob.Spec.WorkerReplicas > 1`. The entry is looked up under the name of PaddlePaddle's
-- worker type.
unfoldable pub distribute : Kubeflow → CPodJob → PytorchJob → Outcome BaseJob
unfolding distribute_pod update_entry distributed_job
distribute kf job target =
    elim (update_entry kf.paddle_worker (λ r. record r { pod = distribute_pod r.pod })
      target.replica_specs) [
        | none ↦ panic
        | some specs ↦ ok (pytorch_job (distributed_job job target specs))
      ]

-- The switch on the job type. `none` is the nil object of the other types.
unfoldable pub build_base_job : Kubeflow → CPodJob → Plan → Outcome (Option BaseJob)
build_base_job kf job plan =
    if job.spec.job_type == job_type_mpi
    then ok (some (build_mpi_job kf job plan))
    else if job.spec.job_type == job_type_pytorch
    then if is_distributed job
      then elim (distribute kf job (build_pytorch_job kf job plan)) [
        | ok base ↦ ok (some base)
        | err e ↦ err e
        | panic ↦ panic
      ]
      else ok (some (pytorch_job (build_pytorch_job kf job plan)))
    else ok none
