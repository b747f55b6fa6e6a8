-- ===== src/Controller/Advance/Steps.antt =====
-- The programs of internal/controller/cpodjob_controller.go move a job up, from the single status
-- updates to `Reconcile`.
use cpodoperator.Base.{String, ◌≡◌, arith}
use cpodoperator.Api.Job.{JobConditionType, ConditionStatus, succeeded, condition_true}
use cpodoperator.Status.{update_job_conditions}
use cpodoperator.Kube.Client.{Client}
use cpodoperator.Controller.Program.{Options, get_now, warn, set_status, get_job, ◌>>=◌}
use cpodoperator.Controller.Claims.{get_ckpt_pvc, get_model_save_pvc}
use cpodoperator.Controller.Mounts.{Mounts, add_ckpt, add_model_save}
use cpodoperator.Controller.Advance.{
  Advances-refl, Advances-update, Moves, Moves-pure, Moves-deref, Moves-if, Moves-get_job,
  Moves-bind, Moves-on_error, Moves-of_same,
}

module _ (C : Client) where
  pub Moves-get_now : Moves (get_now C)
  Moves-get_now = record { at = λ s. Advances-refl s.job }

  pub Moves-warn : (reason text : String) → Moves (warn C reason text)
  Moves-warn reason text = record { at = λ s. Advances-refl s.job }

  Moves-get_ckpt_pvc : (options : Options) → Moves (get_ckpt_pvc C options)
  unfolding get_ckpt_pvc
  Moves-get_ckpt_pvc options = Moves-of_same _ λ s. ground arith

  Moves-get_model_save_pvc : (options : Options) → Moves (get_model_save_pvc C options)
  unfolding get_model_save_pvc
  Moves-get_model_save_pvc options = Moves-of_same _ λ s. ground arith

  pub Moves-add_ckpt : (options : Options) (m : Mounts) → Moves (add_ckpt C options m)
  unfolding add_ckpt
  Moves-add_ckpt options m = Moves-bind _ _ Moves-get_job λ job.
      Moves-if _ _ _
        (Moves-bind _ _ (Moves-on_error _ _ (Moves-get_ckpt_pvc options) (Moves-warn _ _))
          λ pvc. Moves-bind _ _ (Moves-deref pvc) λ claimed. Moves-pure _)
        (Moves-pure m)

  pub Moves-add_model_save : (options : Options) (m : Mounts) → Moves (add_model_save C options m)
  unfolding add_model_save
  Moves-add_model_save options m = Moves-bind _ _ Moves-get_job λ job.
      Moves-if _ _ _
        (Moves-bind _ _ (Moves-on_error _ _ (Moves-get_model_save_pvc options) (Moves-warn _ _))
          λ pvc. Moves-bind _ _ (Moves-deref pvc) λ claimed. Moves-pure _)
        (Moves-pure m)

  -- Setting a condition to what `UpdateJobConditions` makes of the job's own status.
  pub Moves-update :
      (t : JobConditionType) (status : ConditionStatus) (reason message : String)
      → (t ≡ succeeded → status ≡ condition_true)
      → Moves (
          get_now C >>= λ now. get_job >>= λ job.
          set_status (update_job_conditions now job.status t status reason message))
  Moves-update t status reason message honest = record {
    at = λ s. Advances-update s.job (C.now s.world).1 t status reason message honest;
  }
