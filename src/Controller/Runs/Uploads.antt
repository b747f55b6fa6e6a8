-- ===== src/Controller/Runs/Uploads.antt =====
-- An upload that has an outcome ends the work of internal/controller/cpodjob_controller.go on its
-- CPodJob.
use mathlib.Core.Path.{subst}
use cpodoperator.Base.{
  ◌≡◌, refl, sym, ap, ◌∙◌, ◌⊎◌, inl, inr, Bool, true, false, none, Bool-cases, arith, ◌==◌,
  string_eq,
}
use cpodoperator.Base.Int.{pos, ltb_ℤ, int_eq}
use cpodoperator.Api.Job.{CPodJob, CPodJobStatus, model_uploaded, cpodjob_status_eq}
use cpodoperator.Status.{
  is_succeeded, is_failed, is_finished, is_status_condition_true, get_condition,
}
use cpodoperator.Kube.Objects.{Key, BatchJob}
use cpodoperator.Kube.Outcome.{Outcome, ok, fetched}
use cpodoperator.Kube.Client.{Client, Kubeflow}
use cpodoperator.Controller.Program.{Options, State}
use cpodoperator.Controller.Upload.{upload_saved_model}
use cpodoperator.Controller.Upload.Endings.{upload_key, upload_saved_model_of_ended}
use cpodoperator.Controller.Reconcile.{
  Result, finished, is_present, wants_upload, need_reconcile, reconcile_body, write_back,
  reconcile_job, reconcile,
}
use cpodoperator.Controller.Reconcile.Outcomes.{need_reconcile_iff, reconcile_body_of_finished}
use cpodoperator.Controller.Advance.Whole.{reconcile_body-Advances}
use cpodoperator.Controller.Runs.{key_of, IsStore, Run}
use cpodoperator.Controller.Runs.Stored.{Advances-key_of}
use cpodoperator.Controller.Runs.Quiet.{reconcile_in_run}

pub need_reconcile_of_same :
    (a b : CPodJob) → b.spec ≡ a.spec → a.status ≡ b.status → need_reconcile a ≡ need_reconcile b
unfolding need_reconcile
need_reconcile_of_same a b same_spec same_status = rw (same_spec, same_status) refl

pub same_statuses : (a b : CPodJobStatus) → (a == b) ≡ true → a ≡ b
same_statuses a b h = ground arith

true_of_false : (b : Bool) → b ≡ true → b ≡ false → ⊥
true_of_false b h k = cc

finished_of_succeeded : (s : CPodJobStatus) → is_succeeded s ≡ true → is_finished s ≡ true
unfolding is_finished
finished_of_succeeded s h = ground arith

module _ (C : Client) (options : Options) (kf : Kubeflow) (w : C.World) (key : Key) (job : CPodJob)
    (store : IsStore C) (got_job : C.get_cpodjob w key ≡ ok job) where
  abbrev pub before : State C.World
  before = record { world = w; job = job }

  write_back-changed :
      (old : CPodJobStatus) (r : Outcome Result × State C.World)
      → (old == r.1.job.status) ≡ false
      → (write_back C old r).0 ≡ (C.update_status r.1.world r.1.job).0
  unfolding write_back
  write_back-changed old (o, s) h = rw h refl

  reconcile-world :
      need_reconcile job ≡ true
      → (reconcile C options kf w key).0
        ≡ (write_back C job.status (reconcile_body C options kf before)).0
  unfolding reconcile reconcile_job fetched
  reconcile-world needed = rw (got_job, needed) refl

  -- Where the body of `Reconcile` leaves a CPodJob that needs no more reconciliation, that one is
  -- stored.
  stored_in_the_end :
      (t : State C.World)
      → t ≡ (reconcile_body C options kf before).1
      → need_reconcile job ≡ true
      → need_reconcile t.job ≡ false
      → (C.update_status t.world t.job).1 ≡ ok tt
      → C.get_cpodjob (reconcile C options kf w key).0 key ≡ ok t.job
  stored_in_the_end t left needed over written =
      let up = reconcile_body-Advances C options kf before in
      let body : Outcome Result × State C.World = reconcile_body C options kf before in
      elim (Bool-cases (job.status == body.1.job.status)) [
        | inl same ↦ absurd (
            true_of_false (need_reconcile job) needed (
              need_reconcile_of_same job body.1.job up.same_spec
                (same_statuses job.status body.1.job.status same)
              ∙ ap (λ s. need_reconcile s.job) (sym left)
              ∙ over))
        | inr other ↦
            subst (λ v. C.get_cpodjob v key ≡ ok t.job)
              (ap (λ s. (C.update_status s.world s.job).0) left
                ∙ sym (reconcile-world needed ∙ write_back-changed job.status body other))
              (subst (λ k. C.get_cpodjob (C.update_status t.world t.job).0 k ≡ ok t.job)
                (ap (λ s. key_of s.job) left
                  ∙ Advances-key_of job body.1.job up
                  ∙ store.named w key job got_job)
                (store.written t.world t.job written))
      ]

  -- The state in which `uploadSavedModel` leaves the CPodJob.
  abbrev pub uploaded : State C.World
  uploaded = (upload_saved_model C options before).1

  body-uploaded :
      is_succeeded job.status ≡ true
      → wants_upload job ≡ true
      → uploaded ≡ (reconcile_body C options kf before).1
  body-uploaded done wanted = sym (
      ap (λ r. r.1)
        (reconcile_body_of_finished C options kf before (finished_of_succeeded job.status done))
      ∙ rw (done, wanted) refl)

  -- Over a store as the API server documents it, let a stored CPodJob that has succeeded and not
  -- failed be one whose model is to be uploaded and has no outcome yet, let its upload job be read as
  -- either succeeded once or failed at least as often as the backoff limit, and let the update of the
  -- CPodJob's status succeed. Then after one reconciliation, and after any run of reconciliations and
  -- of changes that leave the CPodJob alone from there, one more reconciliation ends well, without a
  -- requeue, and leaves the whole cluster as it finds it, and the stored CPodJob has a condition
  -- `ModelUploaded`, which is true exactly if the upload job has succeeded.
  pub reconcile_after_upload :
      (upload : BatchJob)
      → is_failed job.status ≡ false
      → is_succeeded job.status ≡ true
      → wants_upload job ≡ true
      → get_condition job.status model_uploaded ≡ none
      → C.get_batch_job w (upload_key C options before) ≡ ok upload
      → (upload.succeeded ≡ pos 1)
        ⊎ (ltb_ℤ upload.failed options.model_upload_job_backoff_limit ≡ false)
      → (C.update_status uploaded.world uploaded.job).1 ≡ ok tt
      → (v : C.World) → Run C options kf key (reconcile C options kf w key).0 v
      → (reconcile C options kf v key ≡ (v, ok finished))
        × ((t : CPodJob) × (C.get_cpodjob v key ≡ ok t)
            × (is_present (get_condition t.status model_uploaded) ≡ true)
            × (is_status_condition_true t.status model_uploaded ≡ (upload.succeeded == pos 1)))
  reconcile_after_upload upload live done wanted fresh read ended written v run =
      let (well, over, present, condition) =
        upload_saved_model_of_ended C options before upload live done read ended in
      let needed : need_reconcile job ≡ true =
        let iff = need_reconcile_iff job in iff.1 (live, inr (wanted, fresh)) in
      let stored = stored_in_the_end uploaded (body-uploaded done wanted) needed over written in
      let (quiet, got_t) =
        reconcile_in_run C key options kf (reconcile C options kf w key).0 v uploaded.job stored
          over run in
      (quiet, (uploaded.job, got_t, present, condition))
