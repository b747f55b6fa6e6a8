-- ===== src/Controller/Queue/Kept.antt =====
-- No CPodJob that internal/controller/cpodjob_controller.go has work on is lost from its queue.
use mathlib.Core.Path.{subst}
use cpodoperator.Base.{
  ◌≡◌, ◌≢◌, refl, ◌∙◌, sym, ◌==◌, inl, inr, true, false, Bool-cases, arith, string_eq,
}
use cpodoperator.Api.Job.{CPodJob, zero_job, cpodjob_status_eq}
use cpodoperator.Kube.Objects.{Key}
use cpodoperator.Kube.Outcome.{
  Outcome, ok, err, panic, fetched, not_found, already_exists, api_error, message,
}
use cpodoperator.Kube.Client.{Client, Kubeflow}
use cpodoperator.Controller.Program.{Options, State}
use cpodoperator.Controller.Advance.{Advances}
use cpodoperator.Controller.Advance.Whole.{reconcile_body-Advances}
use cpodoperator.Controller.Reconcile.{
  Result, finished, need_reconcile, reconcile_body, write_back, override, reconcile_job, reconcile,
}
use cpodoperator.Controller.Reconcile.Endings.{reconcile_body-over}
use cpodoperator.Controller.Runs.{key_of, IsStore}
use cpodoperator.Controller.Runs.Stored.{Advances-key_of}
use cpodoperator.Controller.Runs.Uploads.{need_reconcile_of_same, same_statuses}
use cpodoperator.Controller.Queue.Isolation.{reconcile_job-apart}

override-finished :
    (r : Outcome (Unit {0})) (o : Outcome Result)
    → override r o ≡ ok finished
    → (r ≡ ok tt) × (o ≡ ok finished)
unfolding override
override-finished (ok tt) (ok x) h = (refl, h)
override-finished (ok tt) (err e) h = cc
override-finished (ok tt) panic h = cc
override-finished (err e) (ok x) h = cc
override-finished (err e) (err x) h = cc
override-finished (err e) panic h = cc
override-finished panic (ok x) h = cc
override-finished panic (err e) h = cc
override-finished panic panic h = cc

module _ (C : Client) (options : Options) (kf : Kubeflow) (store : IsStore C) where
  -- What is stored under a key needs no reconciliation.
  abbrev Idle : C.World → Key → Type 0
  Idle w key = (job : CPodJob) → C.get_cpodjob w key ≡ ok job → need_reconcile job ≡ false

  stored-Idle :
      (v : C.World) (key : Key) (job : CPodJob)
      → C.get_cpodjob v key ≡ ok job
      → need_reconcile job ≡ false
      → Idle v key
  stored-Idle v key job got over other got_other = ground (arith, sym got ∙ got_other)

  same_answer-Idle :
      (v w : C.World) (key : Key)
      → C.get_cpodjob v key ≡ C.get_cpodjob w key
      → Idle w key
      → Idle v key
  same_answer-Idle v w key same idle job got = idle job (sym same ∙ got)

  -- A write that ends well leaves a CPodJob that needs no reconciliation.
  write_back-Idle :
      (w : C.World) (key : Key) (job : CPodJob) (o : Outcome Result) (t : State C.World)
      → C.get_cpodjob w key ≡ ok job
      → need_reconcile job ≡ true
      → (o ≡ ok finished → need_reconcile t.job ≡ false)
      → Advances job t.job
      → (write_back C job.status (o, t)).1 ≡ ok finished
      → Idle (write_back C job.status (o, t)).0 key
  unfolding write_back
  write_back-Idle w key job o t got needed over up =
      elim (Bool-cases (job.status == t.job.status)) [
        | inl same ↦ rw same (λ well. absurd (
            ground (
              arith,
              over well,
              need_reconcile_of_same job t.job up.same_spec
                  (same_statuses job.status t.job.status same),
            )))
        | inr other ↦ rw other (λ well.
            let (written, fine) = override-finished (C.update_status t.world t.job).1 o well in
            stored-Idle (C.update_status t.world t.job).0 key t.job
              (subst (λ k. C.get_cpodjob (C.update_status t.world t.job).0 k ≡ ok t.job)
                (Advances-key_of job t.job up ∙ store.named w key job got)
                (store.written t.world t.job written))
              (over fine))
      ]

  reconcile_job-Idle :
      (w : C.World) (key : Key) (job : CPodJob)
      → C.get_cpodjob w key ≡ ok job
      → (reconcile_job C options kf w job).1 ≡ ok finished
      → Idle (reconcile_job C options kf w job).0 key
  unfolding reconcile_job
  reconcile_job-Idle w key job got =
      let s : State C.World = record { world = w; job = job } in
      let r : Outcome Result × State C.World = reconcile_body C options kf s in
      elim (Bool-cases (need_reconcile job)) [
        | inl needed ↦ rw needed (
            write_back-Idle w key job r.0 r.1 got needed
              (reconcile_body-over C options kf r.0 r.1 s refl)
              (reconcile_body-Advances C options kf s))
        | inr idle ↦ rw idle (λ well. stored-Idle w key job got idle)
      ]

  of_answer :
      (w : C.World) (key : Key) (r : Outcome CPodJob)
      → C.get_cpodjob w key ≡ r
      → key ≢ key_of zero_job
      → (reconcile C options kf w key).1 ≡ ok finished
      → Idle (reconcile C options kf w key).0 key
  unfolding reconcile fetched
  of_answer w key (ok job) e named = rw e (reconcile_job-Idle w key job e)
  of_answer w key (err not_found) e named = rw e (λ well job got. absurd (
      ground (
        arith,
        sym e
            ∙ sym (reconcile_job-apart C store options kf w zero_job key (λ same. named (sym same)))
            ∙ got,
      )))
  of_answer w key (err already_exists) e named = rw e (λ well. absurd (cc))
  of_answer w key (err (api_error x)) e named = rw e (λ well. absurd (cc))
  of_answer w key (err (message x)) e named = rw e (λ well. absurd (cc))
  of_answer w key panic e named = rw e (λ well. absurd (cc))

  -- Over a store as the API server documents it, where a run of `Reconcile` on a key that is not
  -- empty ends well and asks for no further run, a CPodJob that is stored under the key afterwards
  -- needs no reconciliation.
  pub reconcile-Idle :
      (w : C.World) (key : Key)
      → key ≢ key_of zero_job
      → (reconcile C options kf w key).1 ≡ ok finished
      → (job : CPodJob) → C.get_cpodjob (reconcile C options kf w key).0 key ≡ ok job
      → need_reconcile job ≡ false
  reconcile-Idle w key = of_answer w key (C.get_cpodjob w key) refl
