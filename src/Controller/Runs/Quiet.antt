-- ===== src/Controller/Runs/Quiet.antt =====
-- A CPodJob that needs no reconciliation ends the work of internal/controller/cpodjob_controller.go
-- on it.
use cpodoperator.Base.{◌≡◌, ap, ◌∙◌, true, false, sym, some}
use mathlib.Core.Path.{subst}
use cpodoperator.Api.Job.{CPodJob}
use cpodoperator.Kube.Objects.{Key, BaseJob, BaseStatus, BaseCondition}
use cpodoperator.Kube.Outcome.{ok}
use cpodoperator.Kube.Client.{Client, Kubeflow}
use cpodoperator.Controller.Program.{Options, State}
use cpodoperator.Controller.Report.{get_base_job_condition, get_base_job_status}
use cpodoperator.Controller.Create.{base_kind}
use cpodoperator.Controller.Reconcile.BaseJobs
use cpodoperator.Controller.Reconcile.Written.{followed, reconcile_of_failed_base}
use cpodoperator.Controller.Advance.Whole.{reconcile_body-Advances}
use cpodoperator.Status.{is_failed, is_finished}
use cpodoperator.Controller.Reconcile.{finished, need_reconcile, reconcile}
use cpodoperator.Controller.Reconcile.Outcomes.{reconcile_idle}
use cpodoperator.Controller.Runs.{key_of, IsStore, Run, start, reconciled, elsewhere}
use cpodoperator.Controller.Runs.Stored.{Advances-key_of}

module _ (C : Client) (key : Key) where
  -- If the stored CPodJob needs no reconciliation, then in any run of reconciliations of it and
  -- changes that leave it alone, the next reconciliation ends well, without a requeue, and leaves the
  -- cluster as it finds it, and the stored CPodJob is the same.
  pub reconcile_in_run :
      (options : Options) (kf : Kubeflow) (w v : C.World) (job : CPodJob)
      → C.get_cpodjob w key ≡ ok job
      → need_reconcile job ≡ false
      → Run C options kf key w v
      → (reconcile C options kf v key ≡ (v, ok finished)) × (C.get_cpodjob v key ≡ ok job)
  reconcile_in_run options kf w _ job got_job idle start =
      (reconcile_idle C options kf w key job got_job idle, got_job)
  reconcile_in_run options kf w _ job got_job idle (reconciled {v = x} before) =
      let (quiet, got_t) = reconcile_in_run options kf w x job got_job idle before in
      subst
        (λ u. (reconcile C options kf u key ≡ (u, ok finished)) × (C.get_cpodjob u key ≡ ok job))
        (sym (ap (λ r. r.0) quiet)) (quiet, got_t)
  reconcile_in_run options kf w _ job got_job idle (elsewhere {v = x} {u = y} before same) =
      let (quiet, got_t) = reconcile_in_run options kf w x job got_job idle before in
      (reconcile_idle C options kf y key job (same ∙ got_t) idle, same ∙ got_t)

module _ (C : Client) (options : Options) (kf : Kubeflow) (w : C.World) (key : Key) (job : CPodJob)
    (base : BaseJob) (st : BaseStatus) (c : BaseCondition) where
  -- Over a store as the API server documents it, let a stored CPodJob that has not ended have a base
  -- job that is read with a status that is failed and has a condition of the failed type, and let the
  -- update of the CPodJob's status succeed. Then after one reconciliation, and after any run of
  -- reconciliations and of changes that leave the CPodJob alone from there, a failed CPodJob is
  -- stored, and one more reconciliation ends well, without a requeue, and leaves the whole cluster
  -- as it finds it: it creates, updates and records nothing.
  pub reconcile_after_failed_base :
      IsStore C
      → C.get_cpodjob w key ≡ ok job
      → is_finished job.status ≡ false
      → C.get_base_job w (BaseJobs.key_of job) (base_kind job.spec.job_type) ≡ ok base
      → get_base_job_status job.spec.job_type base ≡ ok (some st)
      → kf.is_failed st ≡ true
      → get_base_job_condition st kf.failed_type ≡ some c
      → (let t = followed C options kf w key job base st c in
          (C.update_status t.world t.job).1 ≡ ok tt)
      → (v : C.World) → Run C options kf key (reconcile C options kf w key).0 v
      → (reconcile C options kf v key ≡ (v, ok finished))
        × ((t : CPodJob) × (C.get_cpodjob v key ≡ ok t) × (is_failed t.status ≡ true))
  reconcile_after_failed_base store got_job live read reported broken found written v run =
      let t : State C.World = followed C options kf w key job base st c in
      let ended =
        reconcile_of_failed_base C options kf w key job base st c got_job live read reported broken
          found written in
      let up = reconcile_body-Advances C options kf (record { world = w; job = job }) in
      let same_key : key_of t.job ≡ key =
        Advances-key_of job t.job up ∙ store.named w key job got_job in
      let left : (C.update_status t.world t.job).0 ≡ (reconcile C options kf w key).0 =
        sym (ap (λ r. r.0) ended.0) in
      let stored : C.get_cpodjob (reconcile C options kf w key).0 key ≡ ok t.job =
        subst (λ u. C.get_cpodjob u key ≡ ok t.job) left
          (subst (λ k. C.get_cpodjob (C.update_status t.world t.job).0 k ≡ ok t.job) same_key
            (store.written t.world t.job written)) in
      let (quiet, got_t) =
        reconcile_in_run C key options kf (reconcile C options kf w key).0 v t.job stored ended.2
          run in
      (quiet, (t.job, got_t, ended.1))
