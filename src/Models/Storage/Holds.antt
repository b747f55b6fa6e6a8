-- ===== src/Models/Storage/Holds.antt =====
-- The parts of `Reconcile` in internal/controller/modelstorage_controller.go keep the stored
-- ModelStorage the one in memory, and reached by the steps.
use cpodoperator.Base.{
  prefix_ne_empty, String, ◌≡◌, ◌≢◌, ◌⊎◌, inl, inr, refl, ◌∙◌, true, false, arith, ◌==◌, string_eq,
}
use mathlib.Core.Path.{subst}
use cpodoperator.Base.Int.{ℤ, pos, int_eq}
use cpodoperator.Api.Storage.{ModelStorage}
use cpodoperator.Kube.Objects.{Key, BatchJob}
use cpodoperator.Kube.Outcome.{Error, Outcome, ok, err, panic, not_found, found, missing, fetched}
use cpodoperator.Models.Storage.{
  Client, Result, Stage, next, stop, claimed_storage, syncing_storage, write, and_then, finish,
}
use cpodoperator.Models.Storage.Steps.{IsStore, Step, Steps, more, Step-key_of}

pub Outcome-cases :
    (r : Outcome (Unit {0})) → (r ≡ ok tt) ⊎ (((e : Error) × (r ≡ err e)) ⊎ (r ≡ panic))
Outcome-cases (ok tt) = inl refl
Outcome-cases (err e) = inr (inl (e, refl))
Outcome-cases panic = inr (inr refl)

abbrev pub HasClaim : ModelStorage → Type 0
HasClaim s = s.status.target_pvc_name ≢ ""

abbrev pub HasJob : ModelStorage → Type 0
HasJob s = HasClaim s × (s.status.target_download_job_name ≢ "")

pub claimed_HasClaim : (t : ModelStorage) → HasClaim (claimed_storage t)
unfolding claimed_storage
claimed_HasClaim t = prefix_ne_empty "pvc-" t.name (omega arith)

pub syncing_HasJob : (t : ModelStorage) → HasClaim t → HasJob (syncing_storage t)
unfolding syncing_storage
syncing_HasJob t claimed = (claimed, prefix_ne_empty "job-" t.name (omega arith))

pub same_text : (name : String) → name ≡ "" → (name == "") ≡ true
same_text name e = ground arith

pub other_text : (name : String) → name ≢ "" → (name == "") ≡ false
other_text name e = ground arith

pub one_true : (n : ℤ) → n ≡ pos 1 → (n == pos 1) ≡ true
one_true n e = ground arith

pub one_false : (n : ℤ) → n ≢ pos 1 → (n == pos 1) ≡ false
one_false n e = ground arith

pub found_of : (r : Outcome BatchJob) (job : BatchJob) → found job ≡ fetched r → r ≡ ok job
unfolding fetched
found_of r job e = ground arith

pub missing_of : (r : Outcome BatchJob) → missing ≡ fetched r → r ≡ err not_found
unfolding fetched
missing_of r e = ground arith

module _ (C : Client) (key : Key) (s : ModelStorage) where
  -- What is stored was reached from `s`.
  abbrev pub Reached : C.World → Type 0
  Reached w = (t : ModelStorage) × (C.get_storage w key ≡ ok t) × Steps C s t

  -- The storage in memory is the stored one, was reached from `s`, and has `P`.
  abbrev pub Holds : (ModelStorage → Type 0) → C.World × Stage ModelStorage → Type 0
  Holds P (w, next t) = (C.get_storage w key ≡ ok t) × Steps C s t × P t
  Holds P (w, stop o) = Reached w

  module _ (store : IsStore C) where
    pub written_stored :
        (w : C.World) (t u : ModelStorage)
        → C.get_storage w key ≡ ok t
        → Step C t u
        → (C.update_status w u).1 ≡ ok tt
        → C.get_storage (C.update_status w u).0 key ≡ ok u
    written_stored w t u got_t one well =
        subst (λ k. C.get_storage (C.update_status w u).0 k ≡ ok u)
          (Step-key_of one ∙ store.named w key t got_t) (store.written w u well)

    pub unwritten_stored :
        (w : C.World) (t u : ModelStorage)
        → C.get_storage w key ≡ ok t
        → (C.update_status w u).1 ≢ ok tt
        → C.get_storage (C.update_status w u).0 key ≡ ok t
    unwritten_stored w t u got_t ill = store.unwritten w u key ill ∙ got_t

    pub write-Holds :
        (P : ModelStorage → Type 0) (w : C.World) (t u : ModelStorage) (f : Error → Outcome Result)
        → C.get_storage w key ≡ ok t
        → Steps C s t
        → Step C t u
        → P u
        → Holds P (write C w u f)
    unfolding write
    write-Holds P w t u f got_t before one p = elim (Outcome-cases (C.update_status w u).1) [
      | inl well ↦ rw well (written_stored w t u got_t one well, more before one, p)
      | inr (inl (e, ill)) ↦ rw ill (t, unwritten_stored w t u got_t (λ h. cc), before)
      | inr (inr ill) ↦ rw ill (t, unwritten_stored w t u got_t (λ h. cc), before)
    ]

    pub and_then-Holds :
        (P Q : ModelStorage → Type 0) (r : C.World × Stage ModelStorage)
        (f : C.World → ModelStorage → C.World × Stage ModelStorage)
        → Holds P r
        → ((w : C.World) (t : ModelStorage)
            → C.get_storage w key ≡ ok t
            → Steps C s t
            → P t
            → Holds Q (f w t))
        → Holds Q (and_then C r f)
    unfolding and_then
    and_then-Holds P Q (w, next t) f (got_t, before, p) k = k w t got_t before p
    and_then-Holds P Q (w, stop o) f h k = h

    pub finish-Reached :
        (P : ModelStorage → Type 0) (r : C.World × Stage ModelStorage) (o : Outcome Result)
        → Holds P r
        → Reached (finish C r o).0
    unfolding finish
    finish-Reached P (w, next t) o (got_t, before, p) = (t, got_t, before)
    finish-Reached P (w, stop o') o h = h
