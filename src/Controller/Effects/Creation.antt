-- ===== src/Controller/Effects/Creation.antt =====
-- `CreateBaseJob` in internal/controller/cpodjob_controller.go: what it does to the cluster.
use cpodoperator.Base.{◌≡◌, refl, Bool, ◌&&◌, Option, none, some, string_eq, false, length, leb}
use cpodoperator.Base.Int.{int_eq}
use cpodoperator.Api.Job.{CPodJob}
use cpodoperator.Kube.Objects.{BaseJob}
use cpodoperator.Kube.Outcome.{Outcome, ok, err, panic, ignore_already_exists}
use cpodoperator.Kube.Client.{Client, Kubeflow}
use cpodoperator.Controller.Program.{Options, pure, crash, ◌>>=◌}
use cpodoperator.Controller.Mounts.{
  Mounts, no_mounts, Stage, next, done, add_ckpt, add_model_save, add_dataset,
}
use cpodoperator.Controller.Build.{is_distributed, need_allocate_rdma_device, build_base_job}
use cpodoperator.Controller.Create.{
  lift, plan_of, create_target, submit, after_dataset, submit_or_stop, create_base_job,
}
use cpodoperator.Controller.Effects.{
  Identity, identity, IsOwnBase, none_made, create_base, create_nil,
}
use cpodoperator.Controller.Effects.Rules.{
  Anything, anything, Does, Does-pure, Does-throw, Does-crash, Does-fetched, Does-call, Does-ask,
  Does-bind, Does-step, Does-with_job,
}
use cpodoperator.Controller.Effects.Parts.{Backed, StageBacked, Does-add_ckpt, Does-add_model_save}
use cpodoperator.Controller.Effects.Sources.{Does-add_dataset, Does-add_pretrain_model}
use cpodoperator.Controller.Effects.Bases.{build_base_job-IsOwnBase}
use mathlib.Core.Path.{subst}

module _ (C : Client) (id : Identity) (options : Options) (kf : Kubeflow) where
  -- A base job that belongs to the CPodJob, or the nil object.
  OwnTarget : Option BaseJob → Type 0
  OwnTarget none = Unit
  OwnTarget (some base) = IsOwnBase id base

  Does-need_allocate : (job : CPodJob) → Does C id Anything (need_allocate_rdma_device C job)
  unfolding need_allocate_rdma_device
  Does-need_allocate job = Does-step C id Anything _ _ (Does-ask C id _) λ answer.
      Does-fetched C id Anything answer (λ nodes. pure (leb 2 (length nodes) && is_distributed job))
        (pure false) (λ e. pure false) crash (λ nodes. Does-pure C id Anything _ tt)
        (Does-pure C id Anything false tt) (λ e. Does-pure C id Anything false tt)
        (Does-crash C id Anything)

  Does-lift :
      (r : Outcome (Option BaseJob))
      → ((target : Option BaseJob) → r ≡ ok target → OwnTarget target)
      → Does C id OwnTarget (lift r)
  Does-lift (ok a) own = Does-pure C id OwnTarget a (own a refl)
  Does-lift (err e) own = Does-throw C id OwnTarget e
  Does-lift panic own = Does-crash C id OwnTarget

  Does-create_target :
      (target : Option BaseJob) → OwnTarget target → Does C id Anything (create_target C target)
  unfolding create_target OwnTarget
  Does-create_target none own =
      Does-call C id Anything
        (λ w. let (w', r) = C.create_base_job w none in (w', ignore_already_exists r))
        (λ w. (create_nil none_made, anything _))
  Does-create_target (some base) own =
      Does-call C id Anything
        (λ w. let (w', r) = C.create_base_job w (some base) in (w', ignore_already_exists r))
        (λ w. (create_base base none_made own, anything _))

  OwnTarget-built :
      (job : CPodJob) (m : Mounts) (rdma : Bool)
      → identity job ≡ id
      → Backed m
      → (target : Option BaseJob) → build_base_job kf job (plan_of job m rdma) ≡ ok target
      → OwnTarget target
  unfolding OwnTarget plan_of
  OwnTarget-built job m rdma e h none built = tt
  OwnTarget-built job m rdma e h (some base) built =
      subst (λ i. IsOwnBase i base) e
        (build_base_job-IsOwnBase kf job (plan_of job m rdma) base h built)

  Does-submit : (m : Mounts) → Backed m → Does C id Anything (submit C options kf m)
  unfolding submit
  Does-submit m h =
      Does-with_job C id Anything
        (λ job. need_allocate_rdma_device C job >>= λ rdma.
          lift (build_base_job kf job (plan_of job m rdma)) >>= create_target C)
        λ job e.
          Does-step C id Anything (need_allocate_rdma_device C job)
            (λ rdma. lift (build_base_job kf job (plan_of job m rdma)) >>= create_target C)
            (Does-need_allocate job)
            λ rdma.
              Does-bind C id OwnTarget Anything (lift (build_base_job kf job (plan_of job m rdma)))
                (create_target C) (Does-lift _ (OwnTarget-built job m rdma e h)) Does-create_target

  Does-after_dataset :
      (stage : Stage) → StageBacked stage → Does C id StageBacked (after_dataset C options kf stage)
  unfolding after_dataset
  Does-after_dataset done h = Does-pure C id StageBacked done tt
  Does-after_dataset (next m) h = Does-add_pretrain_model C id kf m h

  Does-submit_or_stop :
      (stage : Stage) → StageBacked stage → Does C id Anything (submit_or_stop C options kf stage)
  unfolding submit_or_stop
  Does-submit_or_stop done h = Does-pure C id Anything tt tt
  Does-submit_or_stop (next m) h = Does-submit m h

  pub Does-create_base_job : Does C id Anything (create_base_job C options kf)
  unfolding create_base_job
  Does-create_base_job =
      Does-bind C id Backed Anything (add_ckpt C options no_mounts)
        (λ ckpt. add_model_save C options ckpt >>= λ saved. add_dataset C kf saved >>= λ dataset.
          after_dataset C options kf dataset >>= submit_or_stop C options kf)
        (Does-add_ckpt C id options no_mounts tt)
        λ ckpt h.
          Does-bind C id Backed Anything (add_model_save C options ckpt)
            (λ saved. add_dataset C kf saved >>= λ dataset.
              after_dataset C options kf dataset >>= submit_or_stop C options kf)
            (Does-add_model_save C id options ckpt h)
            λ saved k.
              Does-bind C id StageBacked Anything (add_dataset C kf saved)
                (λ dataset. after_dataset C options kf dataset >>= submit_or_stop C options kf)
                (Does-add_dataset C id kf saved k)
                λ dataset l.
                  Does-bind C id StageBacked Anything (after_dataset C options kf dataset)
                    (submit_or_stop C options kf) (Does-after_dataset dataset l) Does-submit_or_stop
