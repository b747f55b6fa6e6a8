-- ===== src/Models/Storage/Reached.antt =====
-- `Reconcile` of internal/controller/modelstorage_controller.go moves the stored ModelStorage along
-- the steps only.
use cpodoperator.Base.{◌≡◌, inl, inr, refl, ◌∙◌, Option, none, some, string_eq, String-discrete}
use cpodoperator.Base.Int.{ℤ, pos, int_eq, ℤ-discrete}
use cpodoperator.Api.Storage.{ModelStorage}
use cpodoperator.Kube.Objects.{Key, BatchJob}
use cpodoperator.Kube.Outcome.{
  Outcome, ok, err, panic, not_found, Fetched, found, missing, refused, crashed, fetched,
  ignore_already_exists,
}
use cpodoperator.Models.Hub.{
  Answer, got, no_model, trouble, broken, Hub, modelscope_hub, model_hub_client, model_size,
}
use cpodoperator.Models.Storage.{
  Options, Client, finished, requeue_after, Stage, next, stop, failed_storage, claimed_storage,
  syncing_storage, lost_storage, done_storage, and_then, create_claim, after_claim, after_download,
  claim_by_size, claim_stage, create_download, job_stage, follow, follow_stage, job_key,
  reconcile_storage, with_hub, with_storage, reconcile, claim_of, download_job,
}
use cpodoperator.Models.Storage.Steps.{
  IsStore, fail_size, claim_volume, begin_sync, lose_job, complete, Steps, here, more,
}
use cpodoperator.Models.Storage.Holds.{
  Outcome-cases, HasClaim, HasJob, claimed_HasClaim, syncing_HasJob, same_text, other_text,
  one_true, one_false, found_of, missing_of, Reached, Holds, written_stored, unwritten_stored,
  write-Holds, and_then-Holds, finish-Reached,
}

module _ (C : Client) (key : Key) (s : ModelStorage) (store : IsStore C) where
  after_claim-Holds :
      (options : Options) (r : C.World × Outcome (Unit {0})) (t : ModelStorage)
      → C.get_storage r.0 key ≡ ok t
      → Steps C s t
      → t.status.target_pvc_name ≡ ""
      → Holds C key s HasClaim (after_claim C options r t)
  unfolding after_claim
  after_claim-Holds options (w, ok u) t got_t before unset =
      write-Holds C key s store HasClaim w t (claimed_storage t) (λ e. ok finished) got_t before
        (claim_volume unset) (claimed_HasClaim t)
  after_claim-Holds options (w, err e) t got_t before unset =
      write-Holds C key s store HasClaim w t (claimed_storage t) (λ e. ok finished) got_t before
        (claim_volume unset) (claimed_HasClaim t)
  after_claim-Holds options (w, panic) t got_t before unset = (t, got_t, before)

  create_claim-Holds :
      (options : Options) (w : C.World) (t : ModelStorage) (size : ℤ)
      → C.get_storage w key ≡ ok t
      → Steps C s t
      → t.status.target_pvc_name ≡ ""
      → Holds C key s HasClaim (create_claim C options w t size)
  unfolding create_claim
  create_claim-Holds options w t size got_t before unset =
      after_claim-Holds options (C.create_pvc w (claim_of options t size)) t
        (store.claims_apart w (claim_of options t size) key ∙ got_t) before unset

  failed_Reached :
      (w : C.World) (t : ModelStorage)
      → C.get_storage w key ≡ ok t
      → Steps C s t
      → t.status.target_pvc_name ≡ ""
      → Reached C key s (C.update_status w (failed_storage t)).0
  failed_Reached w t got_t before unset =
      elim (Outcome-cases (C.update_status w (failed_storage t)).1) [
        | inl e ↦ (
          failed_storage t,
          written_stored C key s store w t (failed_storage t) got_t (fail_size unset) e,
          more before (fail_size unset),
        )
        | inr (inl (x, e)) ↦
            (t, unwritten_stored C key s store w t (failed_storage t) got_t (λ h. cc), before)
        | inr (inr e) ↦
            (t, unwritten_stored C key s store w t (failed_storage t) got_t (λ h. cc), before)
      ]

  claim_by_size-Holds :
      (options : Options) (w : C.World) (t : ModelStorage) (answer : Answer ℤ)
      → C.get_storage w key ≡ ok t
      → Steps C s t
      → t.status.target_pvc_name ≡ ""
      → Holds C key s HasClaim (claim_by_size C options w t answer)
  unfolding claim_by_size
  claim_by_size-Holds options w t (got size) got_t before unset =
      create_claim-Holds options w t size got_t before unset
  claim_by_size-Holds options w t no_model got_t before unset =
      failed_Reached w t got_t before unset
  claim_by_size-Holds options w t trouble got_t before unset = (t, got_t, before)
  claim_by_size-Holds options w t broken got_t before unset = (t, got_t, before)

  pub claim_stage-Holds :
      (options : Options) (w : C.World) (t : ModelStorage)
      → C.get_storage w key ≡ ok t
      → Steps C s t
      → Holds C key s HasClaim (claim_stage C options w t)
  unfolding claim_stage
  claim_stage-Holds options w t got_t before = elim (String-discrete t.status.target_pvc_name "") [
    | yes e ↦
        rw (same_text t.status.target_pvc_name e)
          (claim_by_size-Holds options w t (model_size C.net w t.spec.name "") got_t before e)
    | no ne ↦ rw (other_text t.status.target_pvc_name ne) (got_t, before, ne)
  ]

  after_download-Holds :
      (options : Options) (w : C.World) (r : Outcome (Unit {0})) (t : ModelStorage)
      → C.get_storage w key ≡ ok t
      → Steps C s t
      → HasClaim t
      → t.status.target_download_job_name ≡ ""
      → Holds C key s HasJob (after_download C options w r t)
  unfolding after_download
  after_download-Holds options w (ok u) t got_t before claimed unset =
      write-Holds C key s store HasJob w t (syncing_storage t) (λ e. ok (requeue_after 10)) got_t
        before (begin_sync claimed unset) (syncing_HasJob t claimed)
  after_download-Holds options w (err e) t got_t before claimed unset = (t, got_t, before)
  after_download-Holds options w panic t got_t before claimed unset = (t, got_t, before)

  create_download-Holds :
      (options : Options) (w : C.World) (t : ModelStorage)
      → C.get_storage w key ≡ ok t
      → Steps C s t
      → HasClaim t
      → t.status.target_download_job_name ≡ ""
      → Holds C key s HasJob (create_download C options w t)
  unfolding create_download
  create_download-Holds options w t got_t before claimed unset =
      after_download-Holds options (C.create_job w (download_job options t)).0
        (ignore_already_exists (C.create_job w (download_job options t)).1) t
        (store.jobs_apart w (download_job options t) key ∙ got_t) before claimed unset

  pub job_stage-Holds :
      (options : Options) (w : C.World) (t : ModelStorage)
      → C.get_storage w key ≡ ok t
      → Steps C s t
      → HasClaim t
      → Holds C key s HasJob (job_stage C options w t)
  unfolding job_stage
  job_stage-Holds options w t got_t before claimed =
      elim (String-discrete t.status.target_download_job_name "") [
        | yes e ↦
            rw (same_text t.status.target_download_job_name e)
              (create_download-Holds options w t got_t before claimed e)
        | no ne ↦
            rw (other_text t.status.target_download_job_name ne) (got_t, before, (claimed, ne))
      ]

  pub follow-Reached :
      (options : Options) (w : C.World) (t : ModelStorage) (answer : Fetched BatchJob)
      → answer ≡ fetched (C.get_job w (job_key t))
      → C.get_storage w key ≡ ok t
      → Steps C s t
      → HasJob t
      → Reached C key s (follow C options w t answer).0
  unfolding follow
  follow-Reached options w t (found job) e got_t before has =
      elim (ℤ-discrete job.succeeded (pos 1)) [
        | yes one ↦ rw (one_true job.succeeded one) (
            finish-Reached C key s store (λ u. Unit {0}) _ (ok finished)
              (write-Holds C key s store (λ u. Unit {0}) w t (done_storage t) (λ x. ok finished)
                got_t before
                (complete w job (found_of (C.get_job w (job_key t)) job e) one has.0 has.1) tt))
        | no other ↦ rw (one_false job.succeeded other) (t, got_t, before)
      ]
  follow-Reached options w t missing e got_t before has =
      finish-Reached C key s store (λ u. Unit {0}) _ (err not_found)
        (write-Holds C key s store (λ u. Unit {0}) w t (lost_storage t) (λ x. ok finished) got_t
          before (lose_job w (missing_of (C.get_job w (job_key t)) e)) tt)
  follow-Reached options w t (refused x) e got_t before has = (t, got_t, before)
  follow-Reached options w t crashed e got_t before has = (t, got_t, before)

  follow_stage-Reached :
      (options : Options) (r : C.World × Stage ModelStorage)
      → Holds C key s HasJob r
      → Reached C key s (follow_stage C options r).0
  unfolding follow_stage
  follow_stage-Reached options (w, next t) (got_t, before, has) =
      follow-Reached options w t (fetched (C.get_job w (job_key t))) refl got_t before has
  follow_stage-Reached options (w, stop o) h = h

  reconcile_storage-Reached :
      (options : Options) (w : C.World)
      → C.get_storage w key ≡ ok s
      → Reached C key s (reconcile_storage C options w s).0
  unfolding reconcile_storage
  reconcile_storage-Reached options w got_s =
      follow_stage-Reached options (and_then C (claim_stage C options w s) (job_stage C options)) (
        and_then-Holds C key s store HasClaim HasJob (claim_stage C options w s)
          (job_stage C options) (claim_stage-Holds options w s got_s here)
          (λ v t got_t before has. job_stage-Holds options v t got_t before has))

  with_hub-Reached :
      (options : Options) (w : C.World) (hub : Option Hub)
      → C.get_storage w key ≡ ok s
      → Reached C key s (with_hub C options w s hub).0
  unfolding with_hub
  with_hub-Reached options w none got_s = (s, got_s, here)
  with_hub-Reached options w (some modelscope_hub) got_s = reconcile_storage-Reached options w got_s

  -- Over a store as the API server documents it: whatever the hub and the cluster answer, and
  -- however `Reconcile` of a stored ModelStorage ends, the one that is stored afterwards was
  -- reached from it by the steps of `Step` only.
  pub reconcile-Reached :
      (options : Options) (w : C.World)
      → C.get_storage w key ≡ ok s
      → (t : ModelStorage) × (C.get_storage (reconcile C options w key).0 key ≡ ok t) × Steps C s t
  unfolding reconcile with_storage fetched
  reconcile-Reached options w got_s =
      rw got_s (with_hub-Reached options w (model_hub_client s.spec.type) got_s)
