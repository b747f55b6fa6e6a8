-- ===== src/Controller/Effects/Bases.antt =====
-- The base job that internal/controller/cpodjob_controller.go builds belongs to its CPodJob, and
-- each mount of its pods has a volume unless it is a PyTorchJob of several workers.
use cpodoperator.Base.{
  String-discrete, ◌≡◌, inl, inr, ◌⊎◌, true, some, [], ◌∷◌, arith, string_eq, Bool-cases,
}
use cpodoperator.Api.Job.{CPodJob, job_type_pytorch}
use cpodoperator.Kube.Objects.{BaseJob}
use cpodoperator.Kube.Outcome.{ok}
use cpodoperator.Kube.Client.{Kubeflow}
use cpodoperator.Controller.Claims.{generate_owner_ref}
use cpodoperator.Controller.Build.{
  Plan, is_distributed, build_mpi_job, build_pytorch_job, distribute, build_base_job,
}
use cpodoperator.Controller.Build.Backing.{
  AllBacked, JobIsBacked, build_base_job-JobIsBacked, mpi_ne_pytorch,
}
use cpodoperator.Controller.Effects.{
  identity, owner, base_name, base_namespace, base_owners, IsElastic, IsOwnBase,
}

module _ (kf : Kubeflow) (job : CPodJob) (plan : Plan) (base : BaseJob) where
  base-owned :
      build_base_job kf job plan ≡ ok (some base)
      → (base_name base ≡ job.name)
        × (base_namespace base ≡ job.namespace)
        × (base_owners base ≡ owner (identity job) ∷ [])
  unfolding build_base_job build_mpi_job build_pytorch_job distribute generate_owner_ref
  base-owned h = ground arith

  base-IsElastic :
      job.spec.job_type ≡ job_type_pytorch
      → is_distributed job ≡ true
      → build_base_job kf job plan ≡ ok (some base)
      → IsElastic base
  unfolding build_base_job build_mpi_job build_pytorch_job distribute
  base-IsElastic pytorch several h = ground (arith, mpi_ne_pytorch)

  base-backed :
      AllBacked plan.mounts.volumes plan.mounts.mounts
      → build_base_job kf job plan ≡ ok (some base)
      → JobIsBacked base ⊎ IsElastic base
  base-backed backed h = elim (Bool-cases (is_distributed job)) [
    | inl several ↦ elim (String-discrete job.spec.job_type job_type_pytorch) [
      | yes pytorch ↦ inr (base-IsElastic pytorch several h)
      | no other ↦ inl (build_base_job-JobIsBacked kf job plan base backed (λ s. other) h)
    ]
    | inr single ↦ inl (build_base_job-JobIsBacked kf job plan base backed (λ s. cc) h)
  ]

  pub build_base_job-IsOwnBase :
      AllBacked plan.mounts.volumes plan.mounts.mounts
      → build_base_job kf job plan ≡ ok (some base)
      → IsOwnBase (identity job) base
  build_base_job-IsOwnBase backed h =
      let own = base-owned h in
      record { named = own.0; placed = own.1; owned = own.2; backed = base-backed backed h }
