-- ===== src/Sync/Converge/Deleted.antt =====
-- The second loop of internal/synchronizer/syncjob.go in a cluster where deletions succeed.
use mathlib.Core.List.{Memᴰ}
use mathlib.Core.List.Memᴰ.{head, tail}
use cpodoperator.Base.{
  ◌≡◌, ◌≢◌, refl, sym, ap, ◌∙◌, inl, inr, true, Bool-cases, some, List, [], ◌∷◌, All, arith,
}
use cpodoperator.Api.Job.{CPodJob}
use cpodoperator.Sync.Portal.{PortalJob, Cluster}
use cpodoperator.Sync.Jobs.{source_label}
use cpodoperator.Sync.Jobs.Deletion.{is_doomed, doomed, delete_each}
use cpodoperator.Sync.Converge.{key_of, Distinct, Loses, IsApiServer}

-- None of the jobs has the key of `j`.
abbrev pub Spared : CPodJob → List CPodJob → Type 0
Spared j jobs = All (λ d. key_of j ≢ key_of d) jobs

pub All-doomed {κ} :
    {P : CPodJob → Type κ} (portal_jobs : List PortalJob) (jobs : List CPodJob)
    → ((j : CPodJob) → Memᴰ j jobs → is_doomed portal_jobs j ≡ true → P j)
    → All P (doomed portal_jobs jobs)
unfolding doomed
All-doomed portal_jobs [] h = tt
All-doomed portal_jobs (job ∷ jobs) h = elim (Bool-cases (is_doomed portal_jobs job)) [
  | inl yes_doomed ↦
      rw yes_doomed
        (h job (head refl) yes_doomed, All-doomed portal_jobs jobs (λ j m k. h j (tail m) k))
  | inr spared ↦ rw spared (All-doomed portal_jobs jobs (λ j m k. h j (tail m) k))
]

pub All-at {κ} :
    (P : CPodJob → Type κ) (jobs : List CPodJob) (j : CPodJob) → All P jobs → Memᴰ j jobs → P j
All-at P [] j all m = elim m [ ]
All-at P (job ∷ jobs) j (p, all) (head e) = rw e p
All-at P (job ∷ jobs) j (p, all) (tail m) = All-at P jobs j all m

pub mem-doomed :
    (portal_jobs : List PortalJob) (jobs : List CPodJob) (j : CPodJob)
    → Memᴰ j jobs
    → is_doomed portal_jobs j ≡ true
    → Memᴰ j (doomed portal_jobs jobs)
unfolding doomed
mem-doomed portal_jobs [] j m h = elim m [ ]
mem-doomed portal_jobs (job ∷ jobs) j (head e) h =
    let same : is_doomed portal_jobs job ≡ true = ap (is_doomed portal_jobs) (sym e) ∙ h in
    rw same (head e)
mem-doomed portal_jobs (job ∷ jobs) j (tail m) h = elim (Bool-cases (is_doomed portal_jobs job)) [
  | inl yes_doomed ↦ rw yes_doomed (tail (mem-doomed portal_jobs jobs j m h))
  | inr spared ↦ rw spared (mem-doomed portal_jobs jobs j m h)
]

pub doomed-Distinct :
    (portal_jobs : List PortalJob) (jobs : List CPodJob)
    → Distinct jobs
    → Distinct (doomed portal_jobs jobs)
unfolding doomed
doomed-Distinct portal_jobs [] h = tt
doomed-Distinct portal_jobs (job ∷ jobs) (other, h) =
    elim (Bool-cases (is_doomed portal_jobs job)) [
      | inl yes_doomed ↦ rw yes_doomed (
        All-doomed portal_jobs jobs (λ j m k. All-at (λ i. key_of i ≢ key_of job) jobs j other m),
        doomed-Distinct portal_jobs jobs h,
      )
      | inr spared ↦ rw spared (doomed-Distinct portal_jobs jobs h)
    ]

-- What the deletion of `gone` leaves of the jobs that are listed.
pub record Shrinks (gone before after : List CPodJob) : Type 0 where
  pub kept : (j : CPodJob) → Memᴰ j before → Spared j gone → Memᴰ j after
  pub only : (j : CPodJob) → Memᴰ j after → Memᴰ j before × Spared j gone

module _ (C : Cluster) (server : IsApiServer C) where
  still_there :
      (job : CPodJob) (gone before after : List CPodJob)
      → Loses job before after
      → All (λ d. Memᴰ d before) gone
      → All (λ d. key_of d ≢ key_of job) gone
      → All (λ d. Memᴰ d after) gone
  still_there job [] before after loses there other = tt
  still_there job (d ∷ gone) before after loses (m, there) (ne, other) =
      (loses.kept d m ne, still_there job gone before after loses there other)

  delete_each_of_success :
      (d : CPodJob) (gone : List CPodJob) (w : C.World)
      → (C.delete_cpodjob w d).1 ≡ true
      → delete_each C (d ∷ gone) w ≡ delete_each C gone (C.delete_cpodjob w d).0
  unfolding delete_each
  delete_each_of_success d gone w well = ground arith

  pub delete_each-Shrinks :
      (gone : List CPodJob) (w : C.World) (jobs : List CPodJob)
      → C.list_cpodjobs w source_label ≡ some jobs
      → All (λ d. Memᴰ d jobs) gone
      → Distinct gone
      → (after : List CPodJob) × (C.list_cpodjobs (delete_each C gone w) source_label ≡ some after)
        × Shrinks gone jobs after
  delete_each-Shrinks [] w jobs listed there distinct =
      (jobs, (unfold delete_each in listed), record { kept = λ j m s. m; only = λ j m. (m, tt) })
  delete_each-Shrinks (d ∷ gone) w jobs listed (m, there) (other, distinct) =
      let (well, (mid, listed', loses)) = server.deletes w d jobs listed m in
      let (after, listed'', rest) =
        delete_each-Shrinks gone (C.delete_cpodjob w d).0 mid listed'
          (still_there d gone jobs mid loses there other) distinct in
      rw (delete_each_of_success d gone w well) (
        after,
        listed'',
        record {
          kept = λ j n (ne, s). rest.kept j (loses.kept j n ne) s;
          only = λ j n.
              let (n', s) = rest.only j n in let (n'', ne) = loses.only j n' in (n'', (ne, s));
        },
      )
