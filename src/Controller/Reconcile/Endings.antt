-- ===== src/Controller/Reconcile/Endings.antt =====
-- With what CPodJob in memory the body of `Reconcile` of internal/controller/cpodjob_controller.go
-- ends well.
use mathlib.Core.Path.{subst}
use cpodoperator.Base.{
  ◌≡◌, refl, Bool, true, false, ◌&&◌, Bool-cases, Option, none, some, inl, inr, arith, string_eq,
}
use cpodoperator.Base.Int.{int_eq}
use cpodoperator.Api.Job.{CPodJob, CPodJobStatus}
use cpodoperator.Status.{is_succeeded, is_failed, is_finished}
use cpodoperator.Kube.Objects.{BaseStatus, BaseJob}
use cpodoperator.Kube.Outcome.{Outcome, ok, err, panic, Fetched, found, missing, refused, crashed}
use cpodoperator.Kube.Client.{Client, Kubeflow}
use cpodoperator.Controller.Program.{Options, State, pure}
use cpodoperator.Controller.Report.{get_base_job_status, update_status}
use cpodoperator.Controller.Create.{get_base_job, create_base_job}
use cpodoperator.Controller.Upload.{upload_saved_model}
use cpodoperator.Controller.Reconcile.{
  Result, finished, requeue, Phase, returned, goes_on, wants_upload, need_reconcile, create_missing,
  take_status, follow_base_job, watch_base_job, upload_if_asked, after_base_job, reconcile_body,
}
use cpodoperator.Controller.Program.Post.{Post, Post-bind, Any, Any-Post}
use cpodoperator.Controller.Report.Ended.{Ended, update_status-Ended}
use cpodoperator.Controller.Upload.Over.{Over, upload_saved_model-Over}

-- The first part either returns for another run, or goes on with a job that has ended.
WatchEnds : {W : Type 0} → Phase → State W → Type 0
WatchEnds (returned r) t = r ≡ requeue
WatchEnds goes_on t = is_finished t.job.status ≡ true

BodyEnds : {W : Type 0} → Result → State W → Type 0
BodyEnds finished t = need_reconcile t.job ≡ false
BodyEnds requeue t = Unit

live_not_failed : (s : CPodJobStatus) → is_finished s ≡ false → is_failed s ≡ false
unfolding is_finished
live_not_failed s h = ground arith

over_of_finished :
    (job : CPodJob)
    → is_finished job.status ≡ true
    → (is_succeeded job.status && wants_upload job) ≡ false
    → need_reconcile job ≡ false
unfolding need_reconcile is_finished
over_of_finished job ended h = ground arith

first_true : (a b : Bool) → (a && b) ≡ true → a ≡ true
first_true a b h = ground arith

finished_ne_requeue : ¬ (finished ≡ requeue)
finished_ne_requeue h = cc

module _ (C : Client) (options : Options) (kf : Kubeflow) where
  take_status-WatchEnds :
      (r : Outcome (Option BaseStatus)) (s : State C.World)
      → is_failed s.job.status ≡ false
      → Post WatchEnds (take_status C options kf r s)
  unfolding take_status WatchEnds
  take_status-WatchEnds (ok none) s live = refl
  take_status-WatchEnds (ok (some base)) s live =
      Post-bind Ended WatchEnds (update_status C kf (some base)) (λ u. pure goes_on) s
        (update_status-Ended C kf base s live) (λ u t h. h)
  take_status-WatchEnds (err e) s live = tt
  take_status-WatchEnds panic s live = tt

  follow_base_job-WatchEnds :
      (answer : Fetched BaseJob) (s : State C.World)
      → is_failed s.job.status ≡ false
      → Post WatchEnds (follow_base_job C options kf answer s)
  unfolding follow_base_job create_missing WatchEnds
  follow_base_job-WatchEnds (found base) s live =
      take_status-WatchEnds (get_base_job_status s.job.spec.job_type base) s live
  follow_base_job-WatchEnds missing s live =
      Post-bind Any WatchEnds (create_base_job C options kf) (λ u. pure (returned requeue)) s
        (Any-Post (create_base_job C options kf s)) (λ u t h. refl)
  follow_base_job-WatchEnds (refused e) s live = tt
  follow_base_job-WatchEnds crashed s live = tt

  watch_base_job-WatchEnds : (s : State C.World) → Post WatchEnds (watch_base_job C options kf s)
  unfolding watch_base_job get_base_job WatchEnds
  watch_base_job-WatchEnds s = elim (Bool-cases (is_finished s.job.status)) [
    | inl e ↦ rw e e
    | inr e ↦ rw e (follow_base_job-WatchEnds _ s (live_not_failed s.job.status e))
  ]

  upload_if_asked-BodyEnds :
      (s : State C.World)
      → is_finished s.job.status ≡ true
      → Post BodyEnds (upload_if_asked C options kf s.job s)
  unfolding upload_if_asked BodyEnds
  upload_if_asked-BodyEnds s ended =
      elim (Bool-cases (is_succeeded s.job.status && wants_upload s.job)) [
        | inl e ↦ rw e (
            Post-bind Over BodyEnds (upload_saved_model C options) (λ u. pure finished) s
              (upload_saved_model-Over C options s (first_true _ _ e)) (λ u t h. h))
        | inr e ↦ rw e (over_of_finished s.job ended e)
      ]

  after_base_job-BodyEnds :
      (phase : Phase) (s : State C.World)
      → WatchEnds phase s
      → Post BodyEnds (after_base_job C options kf phase s)
  unfolding after_base_job WatchEnds BodyEnds
  after_base_job-BodyEnds (returned finished) s h = absurd (finished_ne_requeue h)
  after_base_job-BodyEnds (returned requeue) s h = tt
  after_base_job-BodyEnds goes_on s h = upload_if_asked-BodyEnds s h

  reconcile_body-BodyEnds : (s : State C.World) → Post BodyEnds (reconcile_body C options kf s)
  unfolding reconcile_body
  reconcile_body-BodyEnds s =
      Post-bind WatchEnds BodyEnds (watch_base_job C options kf) (after_base_job C options kf) s
        (watch_base_job-WatchEnds s) after_base_job-BodyEnds

  -- A body that ends well without asking for another run leaves a job that needs none.
  pub reconcile_body-over :
      (o : Outcome Result) (t : State C.World) (s : State C.World)
      → reconcile_body C options kf s ≡ (o, t)
      → o ≡ ok finished
      → need_reconcile t.job ≡ false
  unfolding BodyEnds
  reconcile_body-over (ok finished) t s e h =
      subst (λ r. Post BodyEnds r) e (reconcile_body-BodyEnds s)
  reconcile_body-over (ok requeue) t s e h = cc
  reconcile_body-over (err x) t s e h = cc
  reconcile_body-over panic t s e h = cc
