-- ===== src/Controller/Runs/Stored.antt =====
-- How the stored CPodJob moves over a run of `Reconcile` of
-- internal/controller/cpodjob_controller.go.
use mathlib.Core.Path.{subst}
use cpodoperator.Base.{◌≡◌, ◌≢◌, refl, ◌∙◌, ◌⊎◌, inl, inr, ◌==◌, Bool-cases, some, none}
use cpodoperator.Api.Job.{CPodJob, CPodJobStatus, cpodjob_status_eq}
use cpodoperator.Kube.Objects.{Key}
use cpodoperator.Kube.Outcome.{Outcome, ok, err, panic, fetched}
use cpodoperator.Kube.Client.{Client, Kubeflow}
use cpodoperator.Controller.Program.{Options, State}
use cpodoperator.Controller.Effects.{
  Identity, identity, Calls, none_made, read_clock, record_event, create_claim, create_base,
  create_nil, create_upload,
}
use cpodoperator.Controller.Effects.Bodies.{reconcile_body-Calls}
use cpodoperator.Controller.Advance.{Advances, Advances-refl, Advances-trans}
use cpodoperator.Controller.Advance.Whole.{reconcile_body-Advances}
use cpodoperator.Controller.Reconcile.{
  Result, need_reconcile, reconcile_body, write_back, reconcile_job, reconcile,
}
use cpodoperator.Controller.Runs.{key_of, IsStore, Run, start, reconciled, elsewhere}

pub Advances-key_of : (a b : CPodJob) → Advances a b → key_of b ≡ key_of a
Advances-key_of a b h = rw (h.same_name, h.same_namespace) refl

pub Calls-get_cpodjob :
    (C : Client) (id : Identity) (w v : C.World) (key : Key)
    → IsStore C
    → Calls C id w v
    → C.get_cpodjob v key ≡ C.get_cpodjob w key
Calls-get_cpodjob C id w _ key store none_made = refl
Calls-get_cpodjob C id w _ key store (read_clock {v = x} before) =
    store.clock_apart x key ∙ Calls-get_cpodjob C id w x key store before
Calls-get_cpodjob C id w _ key store (record_event {v = x} job reason text before e) =
    store.events_apart x job reason text key ∙ Calls-get_cpodjob C id w x key store before
Calls-get_cpodjob C id w _ key store (create_claim {v = x} c before own) =
    store.claims_apart x c key ∙ Calls-get_cpodjob C id w x key store before
Calls-get_cpodjob C id w _ key store (create_base {v = x} b before own) =
    store.bases_apart x (some b) key ∙ Calls-get_cpodjob C id w x key store before
Calls-get_cpodjob C id w _ key store (create_nil {v = x} before) =
    store.bases_apart x none key ∙ Calls-get_cpodjob C id w x key store before
Calls-get_cpodjob C id w _ key store (create_upload {v = x} j before own) =
    store.uploads_apart x j key ∙ Calls-get_cpodjob C id w x key store before

pub Outcome-split : (r : Outcome (Unit {0})) → (r ≡ ok tt) ⊎ (r ≢ ok tt)
Outcome-split (ok tt) = inl refl
Outcome-split (err e) = inr (λ h. cc)
Outcome-split panic = inr (λ h. cc)

module _ (C : Client) (key : Key) (store : IsStore C) where
  -- What is stored is a later state of `job`.
  abbrev pub Later : CPodJob → C.World → Type 0
  Later job w = (t : CPodJob) × (C.get_cpodjob w key ≡ ok t) × Advances job t

  update-Later :
      (w : C.World) (job t : CPodJob)
      → C.get_cpodjob w key ≡ ok job
      → Advances job t
      → Later job (C.update_status w t).0
  update-Later w job t got_job up = elim (Outcome-split (C.update_status w t).1) [
    | inl well ↦ (
      t,
      subst (λ k. C.get_cpodjob (C.update_status w t).0 k ≡ ok t)
          (Advances-key_of job t up ∙ store.named w key job got_job) (store.written w t well),
      up,
    )
    | inr ill ↦ (job, store.unwritten w t key ill ∙ got_job, Advances-refl job)
  ]

  write_back-Later :
      (job : CPodJob) (old : CPodJobStatus) (o : Outcome Result) (s : State C.World)
      → C.get_cpodjob s.world key ≡ ok job
      → Advances job s.job
      → Later job (write_back C old (o, s)).0
  unfolding write_back
  write_back-Later job old o s got_job up = elim (Bool-cases (old == s.job.status)) [
    | inl same ↦ rw same (job, got_job, Advances-refl job)
    | inr other ↦ rw other (update-Later s.world job s.job got_job up)
  ]

  module _ (options : Options) (kf : Kubeflow) where
    reconcile_job-Later :
        (w : C.World) (job : CPodJob)
        → C.get_cpodjob w key ≡ ok job
        → Later job (reconcile_job C options kf w job).0
    unfolding reconcile_job
    reconcile_job-Later w job got_job =
        let s : State C.World = record { world = w; job = job } in
        elim (Bool-cases (need_reconcile job)) [
          | inl needed ↦ rw needed (
              write_back-Later job job.status (reconcile_body C options kf s).0
                (reconcile_body C options kf s).1
                (Calls-get_cpodjob C (identity job) w (reconcile_body C options kf s).1.world key
                    store (reconcile_body-Calls C options kf s)
                  ∙ got_job)
                (reconcile_body-Advances C options kf s))
          | inr idle ↦ rw idle (job, got_job, Advances-refl job)
        ]

    reconcile-Later :
        (w : C.World) (job : CPodJob)
        → C.get_cpodjob w key ≡ ok job
        → Later job (reconcile C options kf w key).0
    unfolding reconcile fetched
    reconcile-Later w job got_job = rw got_job (reconcile_job-Later w job got_job)

    -- Over a store as the API server documents it, let reconciliations of one stored CPodJob and
    -- changes that leave it alone follow each other in any order, whatever the calls answer and
    -- however each reconciliation ends. Then the CPodJob is still stored, with its specification and
    -- names; its conditions are keyed by type if they were; if it was failed its conditions are the
    -- same, and if it was succeeded it still is.
    pub Run-Advances :
        (w v : C.World) (job : CPodJob)
        → C.get_cpodjob w key ≡ ok job
        → Run C options kf key w v
        → (t : CPodJob) × (C.get_cpodjob v key ≡ ok t) × Advances job t
    Run-Advances w _ job got_job start = (job, got_job, Advances-refl job)
    Run-Advances w _ job got_job (reconciled {v = x} before) =
        let (t, got_t, up) = Run-Advances w x job got_job before in
        let (u, got_u, further) = reconcile-Later x t got_t in
        (u, got_u, Advances-trans job t u up further)
    Run-Advances w _ job got_job (elsewhere {v = x} {u = y} before same) =
        let (t, got_t, up) = Run-Advances w x job got_job before in (t, same ∙ got_t, up)
