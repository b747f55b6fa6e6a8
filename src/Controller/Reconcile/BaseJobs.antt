-- ===== src/Controller/Reconcile/BaseJobs.antt =====
-- What one call of `Reconcile` in internal/controller/cpodjob_controller.go makes of the base job
-- that it finds, or does not find.
use cpodoperator.Base.{◌≡◌, ◌≢◌, refl, true, false, none, some, arith, string_eq}
use cpodoperator.Api.Job.{
  CPodJob, zero_job, cpodjob_status_eq, job_condition_type_eq, condition_status_eq,
}
use cpodoperator.Status.{is_succeeded, is_failed, is_finished, is_status_condition_true}
use cpodoperator.Kube.Objects.{Key, BaseStatus, BaseCondition, BaseJob}
use cpodoperator.Kube.Outcome.{Error, ok, err, panic, not_found, message, refused, fetched}
use cpodoperator.Kube.Client.{Client, Kubeflow}
use cpodoperator.Controller.Program.{Options, State}
use cpodoperator.Controller.Claims.{get_ckpt_pvc, ckpt_pvc_name, new_claim}
use cpodoperator.Controller.Claims.Answers.{ckpt_key}
use cpodoperator.Controller.Mounts.{add_ckpt}
use cpodoperator.Controller.Report.{get_base_job_condition, get_base_job_status, update_status}
use cpodoperator.Controller.Report.Updates.{
  spec-update_status, update_status_of_failed, update_status_of_succeeded,
}
use cpodoperator.Controller.Create.{base_kind, get_base_job, create_base_job}
use cpodoperator.Controller.Reconcile.{
  finished, need_reconcile, watch_base_job, reconcile_body, write_back, reconcile_job, reconcile,
}

-- The key of a job, which its base job has too.
abbrev pub key_of : CPodJob → Key
key_of job = record { namespace = job.namespace; name = job.name }

module _ (C : Client) (options : Options) (kf : Kubeflow) (s : State C.World) where
  module _ (base : BaseJob) (st : BaseStatus) (live : is_finished s.job.status ≡ false)
      (read : C.get_base_job s.world (key_of s.job) (base_kind s.job.spec.job_type) ≡ ok base)
      (reported : get_base_job_status s.job.spec.job_type base ≡ ok (some st)) where
    -- For a CPodJob that has not ended and whose base job is read with a status: while the training
    -- operator's tests call that status neither failed nor succeeded, the body of `Reconcile` ends
    -- with the error that the base job is running, for which it is repeated.
    pub reconcile_body_of_running :
        kf.is_failed st ≡ false
        → kf.is_succeeded st ≡ false
        → (reconcile_body C options kf s).0 ≡ err (message "baseJob is running")
    unfolding reconcile_body watch_base_job get_base_job update_status fetched
    reconcile_body_of_running h k = ground arith

    -- For a CPodJob that has not ended and whose base job is read with a status: if that status is
    -- failed and has a condition of the failed type, the body of `Reconcile` ends well and the
    -- CPodJob is failed.
    pub reconcile_body_of_failed :
        (c : BaseCondition)
        → kf.is_failed st ≡ true
        → get_base_job_condition st kf.failed_type ≡ some c
        → ((reconcile_body C options kf s).0 ≡ ok finished)
          × (is_failed (reconcile_body C options kf s).1.job.status ≡ true)
    unfolding reconcile_body watch_base_job get_base_job fetched is_finished
    reconcile_body_of_failed c h k = ground (arith, update_status_of_failed C kf s st c)

    -- For a CPodJob that has not ended, asks for no upload, and whose base job is read with a status:
    -- if that status is succeeded and not failed and has a condition of the succeeded type, the body
    -- of `Reconcile` ends well, the CPodJob is succeeded, and it has the base job's completion time.
    pub reconcile_body_of_succeeded :
        (c : BaseCondition)
        → kf.is_failed st ≡ false
        → kf.is_succeeded st ≡ true
        → get_base_job_condition st kf.succeeded_type ≡ some c
        → s.job.spec.upload_model ≡ false
        → let (r, t) = reconcile_body C options kf s in
          (r ≡ ok finished)
          × (is_succeeded t.job.status ≡ true)
          × (t.job.status.completion_time ≡ st.completion_time)
    unfolding reconcile_body watch_base_job get_base_job fetched is_finished
    reconcile_body_of_succeeded c h k e quiet =
        ground (arith, update_status_of_succeeded C kf s st c, spec-update_status C kf s (some st))

  -- For a CPodJob that has not ended and has a checkpoint path, where neither its base job nor the
  -- claim of its checkpoints is there and the claim's creation succeeds, the body of `Reconcile`
  -- panics, on the nil claim that `GetCKPTPVC` returned.
  pub reconcile_body_of_new_ckpt :
      is_finished s.job.status ≡ false
      → C.get_base_job s.world (key_of s.job) (base_kind s.job.spec.job_type) ≡ err not_found
      → s.job.spec.ckpt_path ≢ ""
      → C.get_pvc s.world (ckpt_key C options s) ≡ err not_found
      → (C.create_pvc s.world
          (new_claim options s.job (ckpt_pvc_name s.job) s.job.spec.ckpt_volume_size)).1
        ≡ ok tt
      → (reconcile_body C options kf s).0 ≡ panic
  unfolding reconcile_body watch_base_job get_base_job create_base_job add_ckpt get_ckpt_pvc fetched
  reconcile_body_of_new_ckpt live absent path h k = ground arith

base_kind-empty : base_kind "" ≡ none
unfolding base_kind string_eq
base_kind-empty = refl

get_base_job_of_zero :
    (C : Client) (w : C.World) (e : Error)
    → C.get_base_job w (record { namespace = ""; name = "" }) none ≡ err e
    → get_base_job C (record { world = w; job = zero_job })
      ≡ (ok (fetched (err e)), record { world = w; job = zero_job })
unfolding get_base_job
get_base_job_of_zero C w e h = ground (arith, base_kind-empty)

fetched-err : (e : Error) → e ≢ not_found → fetched {A = BaseJob} (err e) ≡ refused e
unfolding fetched
fetched-err e other = ground arith

reconcile_body_of_zero :
    (C : Client) (options : Options) (kf : Kubeflow) (w : C.World) (e : Error)
    → C.get_base_job w (record { namespace = ""; name = "" }) none ≡ err e
    → e ≢ not_found
    → reconcile_body C options kf (record { world = w; job = zero_job })
      ≡ (err e, record { world = w; job = zero_job })
unfolding reconcile_body watch_base_job is_failed is_succeeded is_finished is_status_condition_true
reconcile_body_of_zero C options kf w e h other =
    ground (arith, get_base_job_of_zero C w e h, fetched-err e other)

-- A CPodJob that is not there is reconciled as the zero value: where the read of a base job of no
-- kind and of the empty name gives an error other than that it is not there, that error is the
-- outcome of `Reconcile`, and the cluster is unchanged.
pub reconcile_of_deleted :
    (C : Client) (options : Options) (kf : Kubeflow) (w : C.World) (key : Key) (e : Error)
    → C.get_cpodjob w key ≡ err not_found
    → C.get_base_job w (record { namespace = ""; name = "" }) none ≡ err e
    → e ≢ not_found
    → reconcile C options kf w key ≡ (w, err e)
unfolding reconcile reconcile_job write_back need_reconcile fetched is_failed is_succeeded
    is_status_condition_true
reconcile_of_deleted C options kf w key e gone h other =
    rw (gone, reconcile_body_of_zero C options kf w e h other) (ground arith)
