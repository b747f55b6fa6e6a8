-- ===== src/Controller/Effects/Bodies.antt =====
-- The body of `Reconcile` in internal/controller/cpodjob_controller.go: what it does to the cluster.
use cpodoperator.Base.{refl, ◌&&◌, if◌then◌else◌, Option, none, some, string_eq}
use cpodoperator.Base.Int.{int_eq}
use cpodoperator.Api.Job.{CPodJob}
use cpodoperator.Status.{is_succeeded, is_finished}
use cpodoperator.Kube.Objects.{BaseJob, BaseStatus}
use cpodoperator.Kube.Outcome.{Outcome, ok, err, panic, Fetched, found, missing, refused, crashed}
use cpodoperator.Kube.Client.{Client, Kubeflow}
use cpodoperator.Controller.Program.{Options, State, pure, ◌>>=◌}
use cpodoperator.Controller.Create.{get_base_job}
use cpodoperator.Controller.Report.{get_base_job_status}
use cpodoperator.Controller.Reconcile.{
  wants_upload, returned, goes_on, create_missing, take_status, follow_base_job, watch_base_job,
  upload_if_asked, after_base_job, reconcile_body, Phase,
}
use cpodoperator.Controller.Effects.{Identity, identity, Calls, none_made}
use cpodoperator.Controller.Effects.Rules.{
  Anything, anything, Does, Does-pure, Does-throw, Does-crash, Does-if, Does-step, Does-with_job,
}
use cpodoperator.Controller.Effects.Updates.{Does-update_status}
use cpodoperator.Controller.Effects.Creation.{Does-create_base_job}
use cpodoperator.Controller.Effects.Uploads.{Does-upload_saved_model}

module _ (C : Client) (id : Identity) (options : Options) (kf : Kubeflow) where
  Does-take_status :
      (r : Outcome (Option BaseStatus)) → Does C id Anything (take_status C options kf r)
  unfolding take_status
  Does-take_status (ok none) = Does-pure C id Anything _ tt
  Does-take_status (ok (some base)) =
      Does-step C id Anything _ _ (Does-update_status C id kf (some base))
        λ u. Does-pure C id Anything goes_on tt
  Does-take_status (err e) = Does-throw C id Anything e
  Does-take_status panic = Does-crash C id Anything

  Does-follow_base_job :
      (answer : Fetched BaseJob) → Does C id Anything (follow_base_job C options kf answer)
  unfolding follow_base_job create_missing
  Does-follow_base_job (found base) =
      Does-with_job C id Anything
        (λ job. take_status C options kf (get_base_job_status job.spec.job_type base))
        λ job e. Does-take_status (get_base_job_status job.spec.job_type base)
  Does-follow_base_job missing =
      Does-step C id Anything _ _ (Does-create_base_job C id options kf)
        λ u. Does-pure C id Anything _ tt
  Does-follow_base_job (refused e) = Does-throw C id Anything e
  Does-follow_base_job crashed = Does-crash C id Anything

  Does-get_base_job : Does C id Anything (get_base_job C)
  unfolding get_base_job
  Does-get_base_job = record {
    at = λ s e. record { calls = none_made; same = e; value = anything (get_base_job C s).0 };
  }

  Does-watch_base_job : Does C id Anything (watch_base_job C options kf)
  unfolding watch_base_job
  Does-watch_base_job =
      Does-with_job C id Anything
        (λ job.
          if is_finished job.status
          then pure goes_on
          else get_base_job C >>= follow_base_job C options kf)
        λ job e.
          Does-if C id Anything (is_finished job.status) _ _ (Does-pure C id Anything goes_on tt) (
            Does-step C id Anything (get_base_job C) (follow_base_job C options kf)
              Does-get_base_job Does-follow_base_job)

  Does-upload_if_asked : (job : CPodJob) → Does C id Anything (upload_if_asked C options kf job)
  unfolding upload_if_asked
  Does-upload_if_asked job =
      Does-if C id Anything (is_succeeded job.status && wants_upload job) _ _
        (Does-step C id Anything _ _ (Does-upload_saved_model C id options)
          λ u. Does-pure C id Anything _ tt)
        (Does-pure C id Anything _ tt)

  Does-after_base_job : (phase : Phase) → Does C id Anything (after_base_job C options kf phase)
  unfolding after_base_job
  Does-after_base_job (returned r) = Does-pure C id Anything r tt
  Does-after_base_job goes_on =
      Does-with_job C id Anything (upload_if_asked C options kf) λ job e. Does-upload_if_asked job

  Does-reconcile_body : Does C id Anything (reconcile_body C options kf)
  unfolding reconcile_body
  Does-reconcile_body =
      Does-step C id Anything (watch_base_job C options kf) (after_base_job C options kf)
        Does-watch_base_job Does-after_base_job

module _ (C : Client) (options : Options) (kf : Kubeflow) where
  -- Whatever the cluster answers and however the reconciliation ends, its body does no more to the
  -- cluster than read the clock, record events for the CPodJob, and create volume claims, base jobs,
  -- the nil object as a base job, and upload jobs. Each claim, base job and upload job has the
  -- CPodJob's namespace, a name that belongs to it, and the CPodJob as its one owner; in a base job
  -- each mount of a pod's containers names a volume of the pod, unless it is a PyTorchJob with an
  -- elastic policy.
  pub reconcile_body-Calls :
      (s : State C.World) → Calls C (identity s.job) s.world (reconcile_body C options kf s).1.world
  reconcile_body-Calls s =
      let ends = (Does-reconcile_body C (identity s.job) options kf).at s refl in ends.calls
