-- ===== src/Controller/Queue/Watched.antt =====
-- Every state of the queue of internal/controller/cpodjob_controller.go that is reached.
use mathlib.Core.Path.{subst}
use cpodoperator.Base.{
  ◌≡◌, ◌≢◌, refl, ◌∙◌, sym, ap, ◌||◌, ◌⊎◌, inl, inr, true, false, Bool-cases, arith, string_eq,
}
use cpodoperator.Api.Job.{CPodJob, Time, model_uploaded, zero_job}
use cpodoperator.Status.{is_failed, is_succeeded, get_condition}
use cpodoperator.Kube.Objects.{Key}
use cpodoperator.Kube.Outcome.{ok}
use cpodoperator.Kube.Client.{Client, Kubeflow}
use cpodoperator.Controller.Program.{Options}
use cpodoperator.Controller.Reconcile.{
  Created, wants_upload, is_present, need_reconcile, reconcile, on_owner_create,
}
use cpodoperator.Controller.Runs.{key_of, IsStore}
use cpodoperator.Controller.Queue.{
  Event, appeared, altered, Owned, Rules, IsDocumented, wakes, same_key, System, work, change,
  notice, notice_owned, Step, worked, changed, elsewhere, told_created, told_altered, told_owned,
  Reached, begun, after,
}
use cpodoperator.Controller.Queue.Isolation.{reconcile-apart}
use cpodoperator.Controller.Queue.Kept.{reconcile-Idle}

same_key-true : (a b : Key) → same_key a b ≡ true → a ≡ b
unfolding same_key
same_key-true a b h = ground arith

same_key_refl : (a : Key) → same_key a a ≡ true
unfolding same_key
same_key_refl a = ground arith

same_key-false : (a b : Key) → same_key a b ≡ false → a ≢ b
same_key-false a b h e = ground (arith, same_key_refl a, ap (λ k. same_key a k) e)

appeared-wakes : (rules : Rules) (now : Time) (o : Created) → wakes rules now (appeared o) ≡ true
unfolding wakes on_owner_create
appeared-wakes rules now Created.of_other = refl
appeared-wakes rules now (Created.of_job job) = refl

altered-wakes : (rules : Rules) (now : Time) → IsDocumented rules → wakes rules now altered ≡ true
unfolding wakes
altered-wakes rules now documented = documented.passes

module _ (C : Client) (options : Options) (kf : Kubeflow) (rules : Rules) (store : IsStore C)
    (documented : IsDocumented rules) where
  -- A CPodJob that needs a reconciliation is in the queue, or the controller is still to be told of
  -- it.
  unfoldable pub IsWatched : System C.World → Type 0
  IsWatched s =
      (k : Key)
      → k ≢ key_of zero_job
      → (job : CPodJob) → C.get_cpodjob s.world k ≡ ok job
      → need_reconcile job ≡ true
      → (s.queued k || s.untold k) ≡ true

  work-IsWatched :
      (key : Key) (s : System C.World) → IsWatched s → IsWatched (work C options kf rules key s)
  unfolding IsWatched work
  work-IsWatched key s watched k named job got needed = elim (Bool-cases (same_key k key)) [
    | inl e ↦ elim (Bool-cases (rules.asks_again (reconcile C options kf s.world key).1)) [
      | inl again ↦ ground arith
      | inr over ↦
          let same = same_key-true k key e in
          absurd (
            ground (
              arith,
              reconcile-Idle C options kf store s.world key (λ h. named (same ∙ h))
                  (documented.done_only (reconcile C options kf s.world key).1 over) job
                  (subst (λ j. C.get_cpodjob (reconcile C options kf s.world key).0 j ≡ ok job) same
                    got),
            ))
    ]
    | inr e ↦ rw e (
        watched k named job
          (sym (reconcile-apart C store options kf s.world key k (same_key-false k key e) named)
            ∙ got)
          needed)
  ]

  change-IsWatched :
      (key : Key) (w : C.World) (s : System C.World)
      → ((k : Key) → k ≢ key → C.get_cpodjob w k ≡ C.get_cpodjob s.world k)
      → IsWatched s
      → IsWatched (change key w s)
  unfolding IsWatched change
  change-IsWatched key w s apart watched k named job got needed =
      elim (Bool-cases (same_key k key)) [
        | inl e ↦ ground arith
        | inr e ↦ rw e (watched k named job (sym (apart k (same_key-false k key e)) ∙ got) needed)
      ]

  notice-IsWatched :
      (now : Time) (event : Event) (key : Key) (s : System C.World)
      → wakes rules now event ≡ true
      → IsWatched s
      → IsWatched (notice rules now event key s)
  unfolding IsWatched notice
  notice-IsWatched now event key s wake watched k named job got needed =
      ground (arith, watched k named job got needed)

  notice_owned-IsWatched :
      (now : Time) (o : Owned) (key : Key) (s : System C.World)
      → IsWatched s
      → IsWatched (notice_owned rules now o key s)
  unfolding IsWatched notice_owned
  notice_owned-IsWatched now o key s watched k named job got needed =
      ground (arith, watched k named job got needed)

  elsewhere-IsWatched :
      (w : C.World) (s : System C.World)
      → ((k : Key) → C.get_cpodjob w k ≡ C.get_cpodjob s.world k)
      → IsWatched s
      → IsWatched (record s { world = w })
  unfolding IsWatched
  elsewhere-IsWatched w s same h k named job got needed = h k named job (sym (same k) ∙ got) needed

  begun-IsWatched :
      (s : System C.World)
      → ((k : Key) (job : CPodJob) → C.get_cpodjob s.world k ≡ ok job → s.untold k ≡ true)
      → IsWatched s
  unfolding IsWatched
  begun-IsWatched s listed k named job got needed = ground (arith, listed k job got)

  Step-IsWatched : (s t : System C.World) → IsWatched s → Step C options kf rules s t → IsWatched t
  Step-IsWatched s t h (worked key queued) = work-IsWatched key s h
  Step-IsWatched s t h (changed key w apart) = change-IsWatched key w s apart h
  Step-IsWatched s t h (elsewhere w same) = elsewhere-IsWatched w s same h
  Step-IsWatched s t h (told_created now o key) =
      notice-IsWatched now (appeared o) key s (appeared-wakes rules now o) h
  Step-IsWatched s t h (told_altered now key) =
      notice-IsWatched now altered key s (altered-wakes rules now documented) h
  Step-IsWatched s t h (told_owned now o key) = notice_owned-IsWatched now o key s h

  Reached-IsWatched : (s : System C.World) → Reached C options kf rules s → IsWatched s
  Reached-IsWatched s (begun listed) = begun-IsWatched s listed
  Reached-IsWatched t (after {s = s} earlier step) =
      Step-IsWatched s t (Reached-IsWatched s earlier) step

  watched-at_rest :
      (s : System C.World) (k : Key) (job : CPodJob)
      → IsWatched s
      → k ≢ key_of zero_job
      → C.get_cpodjob s.world k ≡ ok job
      → s.queued k ≡ false
      → s.untold k ≡ false
      → need_reconcile job ≡ false
  unfolding IsWatched
  watched-at_rest s k job watched named got unqueued told = elim (Bool-cases (need_reconcile job)) [
    | inl needed ↦ absurd (ground (arith, watched k named job got needed))
    | inr over ↦ over
  ]

  -- Over a store as the API server documents it, and with controller-runtime's rules as documented, let
  -- the controller start with every stored CPodJob about to be listed, and then let runs of `Reconcile` on keys of its queue, changes of CPodJobs
  -- and of anything else, and the word of them follow each other in any order, whatever the calls
  -- answer. Whenever a CPodJob with a name is stored, its key is not in the queue and the controller
  -- has been told of its changes, the job has failed, or it has succeeded and either wants no upload
  -- of its model or has a condition `ModelUploaded`.
  pub at_rest-IsSettled :
      (s : System C.World) (k : Key) (job : CPodJob)
      → Reached C options kf rules s
      → k ≢ key_of zero_job
      → C.get_cpodjob s.world k ≡ ok job
      → s.queued k ≡ false
      → s.untold k ≡ false
      → (is_failed job.status ≡ true)
        ⊎ ((is_succeeded job.status ≡ true)
            × ((wants_upload job ≡ false)
                ⊎ (is_present (get_condition job.status model_uploaded) ≡ true)))
  unfolding need_reconcile
  at_rest-IsSettled s k job reached named got unqueued told =
      ground (arith, watched-at_rest s k job (Reached-IsWatched s reached) named got unqueued told)
