-- ===== src/Tests/Sync.antt =====
-- The theorems on internal/synchronizer/syncjob.go at two jobs of the portal.
use cpodoperator.Base.{ℕ, ◌≡◌, refl, [], ◌∷◌, String, string_eq, arith}
use text.Mathlib.TextEquality.{eq_iff}
use cpodoperator.Base.Int.{pos}
use cpodoperator.Sync.Portal.{PortalJob}
use cpodoperator.Sync.Buffer.{lookup, UniqueNames}
use cpodoperator.Sync.Jobs.{gpu_per_worker, replicas, create_all, delete_all}
use cpodoperator.Sync.Jobs.Sharing.{IsSharing, replicas-IsSharing}
use cpodoperator.Sync.Jobs.Creation.{treated, lookup-create_all, create_all-UniqueNames}
use cpodoperator.Sync.Jobs.Deletion.{doomed, delete_each, delete_all-eq-delete_each}
use cpodoperator.Tests.Memory.{cluster, empty}
use cpodoperator.Tests.Claims.{mpi_train}

abbrev pub mpi_job_of : String → PortalJob
mpi_job_of name = record {
  ckpt_path = "/ckpt";
  ckpt_vol = pos 1024;
  command = "python train.py";
  envs = [];
  dataset_path = "";
  dataset_name = "";
  gpu_number = pos 16;
  gpu_type = "A100";
  hf_url = "";
  image_path = "train:v1";
  job_id = pos 7;
  job_name = name;
  job_type = "MPI";
  model_path = "/model";
  model_vol = pos 1024;
  pretrain_model_name = "";
  pretrain_model_path = "";
  stop_time = pos 0;
  stop_type = pos 0;
}

abbrev pub unknown_job : PortalJob
unknown_job = record (mpi_job_of "other") { job_type = "tensorFlow" }

lookup-create_all_example :
    lookup "first"
      (create_all cluster [] (unknown_job ∷ mpi_job_of "first" ∷ unknown_job ∷ []) (empty, [])).1
    ≡ treated cluster [] (mpi_job_of "first") (create_all cluster [] (unknown_job ∷ []) (empty, []))
lookup-create_all_example =
    lookup-create_all cluster [] (unknown_job ∷ []) (unknown_job ∷ []) (mpi_job_of "first")
      (empty, []) ((ground (arith, eq_iff "other" "first")), tt)

create_all-UniqueNames_test :
    UniqueNames (create_all cluster [] (unknown_job ∷ unknown_job ∷ []) (empty, [])).1
create_all-UniqueNames_test =
    create_all-UniqueNames cluster [] (unknown_job ∷ unknown_job ∷ []) (empty, []) tt

delete_all-eq-delete_each_example :
    delete_all cluster [] (mpi_train ∷ []) (record empty { jobs = mpi_train ∷ [] })
    ≡ delete_each cluster (doomed [] (mpi_train ∷ [])) (record empty { jobs = mpi_train ∷ [] })
delete_all-eq-delete_each_example =
    delete_all-eq-delete_each cluster [] (mpi_train ∷ []) (record empty { jobs = mpi_train ∷ [] })

replicas-IsSharing_example :
    (g : ℕ) × (r : ℕ) × (gpu_per_worker (mpi_job_of "first") ≡ pos g)
    × (replicas (mpi_job_of "first") ≡ pos r)
    × IsSharing 16 g r
replicas-IsSharing_example = replicas-IsSharing (mpi_job_of "first") 16 refl (omega arith)
