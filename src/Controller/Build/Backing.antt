-- ===== src/Controller/Build/Backing.antt =====
-- Kubernetes accepts a pod only if each mount of its containers names a volume of the pod. Which
-- pods of the base jobs that internal/controller/cpodjob_controller.go builds are of that form.
use mathlib.Core.Path.{subst}
use text.Mathlib.TextEquality.{eq_iff}
use cpodoperator.Base.{
  String, String-discrete, ◌≡◌, refl, ◌≢◌, Bool, true, false, ◌||◌, some, List, [], ◌∷◌, ◌++◌,
  arith, ◌==◌, any, All, All-append, string_eq,
}
use cpodoperator.Api.Job.{CPodJob, job_type_mpi, job_type_pytorch}
use cpodoperator.Kube.Objects.{
  Volume, VolumeMount, PodSpec, ReplicaSpec, BaseJob, mpi_job, pytorch_job,
}
use cpodoperator.Kube.Outcome.{ok}
use cpodoperator.Kube.Client.{Kubeflow}
use cpodoperator.Controller.Mounts.{Mounts, add_volume}
use cpodoperator.Controller.Build.{
  Plan, shm_mount, is_distributed, build_mpi_job, pytorch_worker_spec, build_pytorch_job,
  distribute_pod, distribute, build_base_job,
}

abbrev pub has_volume : List Volume → String → Bool
has_volume vs name = any (λ v. v.name == name) vs

-- Every mount names a volume.
abbrev pub AllBacked : List Volume → List VolumeMount → Type 0
AllBacked vs = All (λ m. has_volume vs m.name ≡ true)

abbrev pub IsBacked : PodSpec → Type 0
IsBacked pod = All (λ c. AllBacked pod.volumes c.volume_mounts) pod.containers

abbrev pub replica_specs : BaseJob → List (String × ReplicaSpec)
replica_specs (mpi_job j) = j.replica_specs
replica_specs (pytorch_job j) = j.replica_specs

abbrev SpecsAreBacked : List (String × ReplicaSpec) → Type 0
SpecsAreBacked = All (λ entry. IsBacked entry.1.pod)

-- Every pod of the job is of the form that Kubernetes accepts.
abbrev pub JobIsBacked : BaseJob → Type 0
JobIsBacked base = SpecsAreBacked (replica_specs base)

has_volume-append :
    (vs ws : List Volume) (name : String)
    → has_volume (vs ++ ws) name ≡ (has_volume vs name || has_volume ws name)
has_volume-append [] ws name = refl
has_volume-append (v ∷ vs) ws name = ground (arith, has_volume-append vs ws name)

AllBacked-weaken :
    (vs ws : List Volume) (ms : List VolumeMount) → AllBacked vs ms → AllBacked (vs ++ ws) ms
AllBacked-weaken vs ws [] h = tt
AllBacked-weaken vs ws (m ∷ ms) (p, h) =
    (rw (has_volume-append, p) refl, AllBacked-weaken vs ws ms h)

-- `addVolume` adds a volume for the mount that it adds.
pub add_volume-AllBacked :
    (m : Mounts) (name claim_name path : String)
    → AllBacked m.volumes m.mounts
    → AllBacked
        (add_volume m name claim_name path).volumes
        (add_volume m name claim_name path).mounts
unfolding add_volume
add_volume-AllBacked m name claim_name path h =
    All-append _ m.mounts _ (AllBacked-weaken m.volumes _ m.mounts h)
      (rw has_volume-append (ground arith), tt)

-- If the mounts that were collected all name a volume that was collected, and the job is no PyTorch
-- job of more than one worker, then in a base job that is built each mount of a pod's containers
-- names a volume of the pod.
pub build_base_job-JobIsBacked :
    (kf : Kubeflow) (job : CPodJob) (plan : Plan) (base : BaseJob)
    → AllBacked plan.mounts.volumes plan.mounts.mounts
    → (is_distributed job ≡ true → job.spec.job_type ≢ job_type_pytorch)
    → build_base_job kf job plan ≡ ok (some base)
    → JobIsBacked base
unfolding build_base_job build_mpi_job build_pytorch_job
build_base_job-JobIsBacked kf job plan base backed single h = ground arith

AllBacked-append_right :
    (vs : List Volume) (ms ns : List VolumeMount) → AllBacked vs (ms ++ ns) → AllBacked vs ns
AllBacked-append_right vs [] ns h = h
AllBacked-append_right vs (m ∷ ms) ns (p, h) = AllBacked-append_right vs ms ns h

pub mpi_ne_pytorch : job_type_mpi ≢ job_type_pytorch
unfolding String-discrete
mpi_ne_pytorch = ground (arith, eq_iff "mpi" "pytorch")

abbrev distributed_worker : CPodJob → Plan → ReplicaSpec
distributed_worker job plan =
    let r = pytorch_worker_spec job plan in record r { pod = distribute_pod r.pod }

build_base_job-distributed :
    (kf : Kubeflow) (job : CPodJob) (plan : Plan) (base : BaseJob)
    → kf.pytorch_worker ≡ kf.paddle_worker
    → job.spec.job_type ≡ job_type_pytorch
    → is_distributed job ≡ true
    → build_base_job kf job plan ≡ ok (some base)
    → replica_specs base ≡ (kf.pytorch_worker, distributed_worker job plan) ∷ []
unfolding build_base_job build_pytorch_job distribute
build_base_job-distributed kf job plan base same pytorch several h = ground (arith, mpi_ne_pytorch)

-- Where the worker types of PyTorch and PaddlePaddle have one name, and no volume that was collected
-- is named `shm`, the base job that is built for a PyTorch job of more than one worker has a pod
-- with a mount that names no volume of the pod: the volume for shared memory is lost.
pub build_base_job-unbacked :
    (kf : Kubeflow) (job : CPodJob) (plan : Plan) (base : BaseJob)
    → kf.pytorch_worker ≡ kf.paddle_worker
    → job.spec.job_type ≡ job_type_pytorch
    → is_distributed job ≡ true
    → has_volume plan.mounts.volumes "shm" ≡ false
    → build_base_job kf job plan ≡ ok (some base)
    → ¬ JobIsBacked base
unfolding distribute_pod pytorch_worker_spec
build_base_job-unbacked kf job plan base same pytorch several free h backed =
    let all : SpecsAreBacked ((kf.pytorch_worker, distributed_worker job plan) ∷ []) =
      subst SpecsAreBacked (build_base_job-distributed kf job plan base same pytorch several h)
        backed in
    let shm : AllBacked plan.mounts.volumes (shm_mount ∷ []) =
      AllBacked-append_right plan.mounts.volumes plan.mounts.mounts (shm_mount ∷ []) all.0.0 in
    cc (shm.0)
