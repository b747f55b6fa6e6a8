-- ===== src/Models/Storage/Progress.antt =====
-- `Reconcile` of internal/controller/modelstorage_controller.go takes a finished download as done.
use cpodoperator.Base.{String, ◌≡◌, ◌≢◌, refl, ◌∙◌, ap, true, arith, ◌==◌, string_eq}
use mathlib.Core.Path.{subst}
use cpodoperator.Base.Int.{pos, int_eq}
use cpodoperator.Api.Storage.{ModelStorage, phase_done, model_type_modelscope}
use cpodoperator.Kube.Objects.{Key, BatchJob}
use cpodoperator.Kube.Outcome.{ok, found, fetched}
use cpodoperator.Models.Hub.{model_hub_client}
use cpodoperator.Models.Storage.{
  Options, Client, finished, next, done_storage, write, and_then, finish, claim_stage, job_stage,
  follow, follow_stage, job_key, reconcile_storage, with_hub, with_storage, reconcile,
}
use cpodoperator.Models.Storage.Steps.{key_of, IsStore}
use cpodoperator.Models.Storage.Holds.{HasJob, other_text, one_true}

scope_true : (type : String) → type ≡ model_type_modelscope → (type == model_type_modelscope) ≡ true
scope_true type e = ground arith

module _ (C : Client) (options : Options) (w : C.World) (s : ModelStorage) where
  stages_of_named :
      HasJob s → and_then C (claim_stage C options w s) (job_stage C options) ≡ (w, next s)
  unfolding and_then claim_stage job_stage
  stages_of_named (claimed, named) =
      rw
        (
          other_text s.status.target_pvc_name claimed,
          other_text s.status.target_download_job_name named,
        )
        refl

  follow_done :
      (job : BatchJob)
      → job.succeeded ≡ pos 1
      → (C.update_status w (done_storage s)).1 ≡ ok tt
      → follow C options w s (found job) ≡ ((C.update_status w (done_storage s)).0, ok finished)
  unfolding follow finish write
  follow_done job one written = rw (one_true job.succeeded one, written) refl

  -- Over a store as the API server documents it, let a stored ModelStorage of ModelScope name its
  -- claim and its download job, let that job be read in the storage's namespace as succeeded once, and
  -- let the update of this storage's status to the phase `done` succeed. Then `Reconcile` ends well,
  -- without a requeue, that update is the only change it makes, and the storage is stored as it was but
  -- for its phase, which is `done`.
  pub reconcile_completes :
      (key : Key) (job : BatchJob)
      → IsStore C
      → C.get_storage w key ≡ ok s
      → s.spec.type ≡ model_type_modelscope
      → s.status.target_pvc_name ≢ ""
      → s.status.target_download_job_name ≢ ""
      → C.get_job w (record { namespace = key.namespace; name = s.status.target_download_job_name })
        ≡ ok job
      → job.succeeded ≡ pos 1
      → let t = record s { status = record s.status { phase = phase_done } } in
        (C.update_status w t).1 ≡ ok tt
        → (reconcile C options w key ≡ ((C.update_status w t).0, ok finished))
          × (C.get_storage (C.update_status w t).0 key ≡ ok t)
  unfolding reconcile with_storage with_hub model_hub_client reconcile_storage fetched done_storage
  reconcile_completes key job store got_s scope claimed named read one written =
      let t : ModelStorage = record s { status = record s.status { phase = phase_done } } in
      let same_key : key_of s ≡ key = store.named w key s got_s in
      let own : C.get_job w (job_key s) ≡ ok job =
        ap
          (λ k.
            C.get_job w
              (record { namespace = k.namespace; name = s.status.target_download_job_name }))
          same_key
        ∙ read in
      let ended : follow_stage C options
            (and_then C (claim_stage C options w s) (job_stage C options))
          ≡ ((C.update_status w t).0, ok finished) =
        ap (follow_stage C options) (stages_of_named (claimed, named))
        ∙ (unfold follow_stage in (rw own (follow_done job one written))) in
      (
        rw (got_s, scope_true s.spec.type scope) ended,
        subst (λ k. C.get_storage (C.update_status w t).0 k ≡ ok t) same_key
            (store.written w t written),
      )
