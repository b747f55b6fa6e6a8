-- ===== src/Tests/Claims.antt =====
-- The theorems on the volume claims and on the pods of the base jobs at a job that trains a model.
use text.Mathlib.TextEquality.{eq_iff}
use cpodoperator.Base.{
  Option, ◌≡◌, ◌↔◌, refl, some, [], ◌∷◌, String-discrete, string_eq, arith, ◌*◌, ◌-◌, ◌<◌,
}
use cpodoperator.Base.Int.{pos, negsuc, int_eq}
use cpodoperator.Api.Job.{CPodJob, zero_job, zero_spec, job_type_mpi, job_type_pytorch}
use cpodoperator.Kube.Objects.{Pvc, claim_bound, read_write_many, filesystem, BaseJob}
use cpodoperator.Kube.Outcome.{Outcome, ok, fetched}
use cpodoperator.Controller.Program.{State}
use cpodoperator.Controller.Claims.{requested_storage, get_ckpt_pvc}
use cpodoperator.Controller.Claims.Sizes.{requested_storage_iff, requested_storage_negative}
use cpodoperator.Controller.Claims.Answers.{ckpt_key, get_ckpt_pvc-bound}
use cpodoperator.Controller.Mounts.{no_mounts, add_volume}
use cpodoperator.Controller.Build.{
  Plan, build_mpi_job, build_pytorch_job, build_base_job, distribute,
}
use cpodoperator.Controller.Build.Backing.{
  JobIsBacked, build_base_job-JobIsBacked, build_base_job-unbacked,
}
use cpodoperator.Tests.Memory.{Memory, client, kubeflow, options, empty}

abbrev pub mpi_train : CPodJob
mpi_train = record zero_job {
  name = "train";
  namespace = "cpod";
  spec = record zero_spec {
    job_type = job_type_mpi;
    ckpt_path = "/ckpt";
    ckpt_volume_size = pos 1024;
    worker_replicas = pos 2;
    gpu_required_per_replica = pos 8;
  };
}

abbrev pub pytorch_train : CPodJob
pytorch_train = record mpi_train { spec = record mpi_train.spec { job_type = job_type_pytorch } }

abbrev bound_claim : Pvc
bound_claim = record {
  name = "train-ckpt";
  namespace = "cpod";
  owners = [];
  access_modes = read_write_many ∷ [];
  storage = pos 1073741824;
  storage_class_name = "standard";
  volume_mode = some filesystem;
  phase = claim_bound;
}

abbrev with_claim : State Memory
with_claim = record { world = record empty { claims = bound_claim ∷ [] }; job = mpi_train }

abbrev pub plan : Plan
unfolding add_volume
plan = record {
  mounts = add_volume no_mounts "ckpt" "train-ckpt" "/ckpt";
  replicas = pos 2;
  resources = ("nvidia.com/gpu", pos 8) ∷ [];
}

requested_storage_iff_example :
    (requested_storage (pos 1024) ≡ pos (1024 * 1048576)) ↔ (1024 < 2048)
requested_storage_iff_example = requested_storage_iff 1024 (omega arith)

requested_storage_negative_test :
    requested_storage (pos 2048) ≡ negsuc (4294967295 - 2048 * 1048576)
requested_storage_negative_test = requested_storage_negative 2048 (omega arith) (omega arith)

get_ckpt_pvc-bound_test :
    (client.get_pvc with_claim.world (ckpt_key client options with_claim) ≡ ok bound_claim)
    × (bound_claim.phase ≡ claim_bound)
    × ((get_ckpt_pvc client options with_claim).1 ≡ with_claim)
unfolding get_ckpt_pvc fetched string_eq String-discrete
get_ckpt_pvc-bound_test = get_ckpt_pvc-bound client options with_claim bound_claim refl

abbrev mpi_base : BaseJob
unfolding build_mpi_job
mpi_base = build_mpi_job kubeflow mpi_train plan

build_base_job-JobIsBacked_example : JobIsBacked mpi_base
unfolding build_base_job build_mpi_job string_eq String-discrete plan mpi_base
build_base_job-JobIsBacked_example =
    build_base_job-JobIsBacked kubeflow mpi_train plan mpi_base (refl, tt)
      (λ e. unfold String-discrete in ground (arith, eq_iff "mpi" "pytorch")) refl

-- The PyTorchJob that is built, or else the other job.
abbrev built : Outcome (Option BaseJob) → BaseJob
built (ok (some base)) = base
built _ = mpi_base

abbrev pytorch_base : BaseJob
unfolding build_base_job build_pytorch_job distribute string_eq String-discrete
pytorch_base = built (build_base_job kubeflow pytorch_train plan)

build_base_job-unbacked_example : ¬ JobIsBacked pytorch_base
unfolding build_base_job build_pytorch_job distribute string_eq String-discrete plan pytorch_base
build_base_job-unbacked_example =
    build_base_job-unbacked kubeflow pytorch_train plan pytorch_base refl refl refl refl refl
