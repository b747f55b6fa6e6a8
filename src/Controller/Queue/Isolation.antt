-- ===== src/Controller/Queue/Isolation.antt =====
-- A run of `Reconcile` of internal/controller/cpodjob_controller.go and the CPodJobs of other keys.
use cpodoperator.Base.{◌≡◌, ◌≢◌, refl, ◌∙◌, sym, ◌==◌, inl, inr, Bool-cases}
use cpodoperator.Api.Job.{CPodJob, CPodJobStatus, zero_job, cpodjob_status_eq}
use cpodoperator.Kube.Objects.{Key}
use cpodoperator.Kube.Outcome.{
  Outcome, ok, err, panic, not_found, already_exists, api_error, message, fetched,
}
use cpodoperator.Kube.Client.{Client, Kubeflow}
use cpodoperator.Controller.Program.{Options, State}
use cpodoperator.Controller.Effects.{identity}
use cpodoperator.Controller.Effects.Bodies.{reconcile_body-Calls}
use cpodoperator.Controller.Advance.Whole.{reconcile_body-Advances}
use cpodoperator.Controller.Reconcile.{
  Result, need_reconcile, reconcile_body, write_back, reconcile_job, reconcile,
}
use cpodoperator.Controller.Runs.{key_of, IsStore}
use cpodoperator.Controller.Runs.Stored.{Advances-key_of, Calls-get_cpodjob}

module _ (C : Client) (store : IsStore C) where
  write_back-apart :
      (old : CPodJobStatus) (o : Outcome Result) (s : State C.World) (k : Key)
      → key_of s.job ≢ k
      → C.get_cpodjob (write_back C old (o, s)).0 k ≡ C.get_cpodjob s.world k
  unfolding write_back
  write_back-apart old o s k h = elim (Bool-cases (old == s.job.status)) [
    | inl same ↦ rw same refl
    | inr other ↦ rw other (store.names_apart s.world s.job k h)
  ]

  module _ (options : Options) (kf : Kubeflow) where
    pub reconcile_job-apart :
        (w : C.World) (job : CPodJob) (k : Key)
        → key_of job ≢ k
        → C.get_cpodjob (reconcile_job C options kf w job).0 k ≡ C.get_cpodjob w k
    unfolding reconcile_job
    reconcile_job-apart w job k h =
        let s : State C.World = record { world = w; job = job } in
        let t : State C.World = (reconcile_body C options kf s).1 in
        let named = Advances-key_of job t.job (reconcile_body-Advances C options kf s) in
        elim (Bool-cases (need_reconcile job)) [
          | inl needed ↦ rw needed (
              write_back-apart job.status (reconcile_body C options kf s).0 t k
                (λ e. h (sym named ∙ e))
              ∙ Calls-get_cpodjob C (identity job) w t.world k store
                  (reconcile_body-Calls C options kf s))
          | inr idle ↦ rw idle refl
        ]

    of_answer :
        (w : C.World) (key k : Key) (r : Outcome CPodJob)
        → C.get_cpodjob w key ≡ r
        → k ≢ key
        → k ≢ key_of zero_job
        → C.get_cpodjob (reconcile C options kf w key).0 k ≡ C.get_cpodjob w k
    unfolding reconcile fetched
    of_answer w key k (ok job) e other named =
        rw e (reconcile_job-apart w job k (λ same. other (sym same ∙ store.named w key job e)))
    of_answer w key k (err not_found) e other named =
        rw e (reconcile_job-apart w zero_job k (λ same. named (sym same)))
    of_answer w key k (err already_exists) e other named = rw e refl
    of_answer w key k (err (api_error x)) e other named = rw e refl
    of_answer w key k (err (message x)) e other named = rw e refl
    of_answer w key k panic e other named = rw e refl

    -- Over a store as the API server documents it, a run of `Reconcile` on one key leaves what is
    -- read under every other key but the empty one as it was, however the run ends, also where no
    -- CPodJob is stored under the key.
    pub reconcile-apart :
        (w : C.World) (key k : Key)
        → k ≢ key
        → k ≢ key_of zero_job
        → C.get_cpodjob (reconcile C options kf w key).0 k ≡ C.get_cpodjob w k
    reconcile-apart w key k other named = of_answer w key k (C.get_cpodjob w key) refl other named
