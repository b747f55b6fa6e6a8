-- ===== src/Sync/Jobs/Creation.antt =====
-- What the loop of internal/synchronizer/syncjob.go over the portal's jobs creates, and which jobs it
-- keeps as not created.
use cpodoperator.Base.{
  String, ◌≡◌, ◌∙◌, ◌≢◌, refl, Option, none, some, List, [], ◌∷◌, ◌++◌, arith, if◌then◌else◌,
  string_eq, All,
}
use cpodoperator.Api.Job.{CPodJob}
use cpodoperator.Sync.Portal.{PortalJob, Cluster}
use cpodoperator.Sync.Buffer.{
  Buffer, lookup, or_job, lookup-add_create_failed_job, lookup-delete_create_failed_job,
  UniqueNames, add_create_failed_job-UniqueNames, delete_create_failed_job-UniqueNames,
}
use cpodoperator.Sync.Jobs.{job_type_check, new_cpodjob, has_cpodjob, create_one, create_all}

module _ (C : Cluster) (cpodjobs : List CPodJob) where
  -- What the buffer has for the job's name once the job was treated.
  abbrev pub treated : PortalJob → C.World × Buffer → Option PortalJob
  treated job (w, b) =
      if has_cpodjob cpodjobs job.job_name
      then lookup job.job_name b
      else elim (job_type_check job.job_type) [
        | none ↦ some (or_job (lookup job.job_name b) job)
        | some t ↦
            if (C.create_cpodjob w (new_cpodjob job t)).1
            then none
            else some (or_job (lookup job.job_name b) job)
      ]

  lookup-create_one_self :
      (job : PortalJob) (s : C.World × Buffer)
      → lookup job.job_name (create_one C cpodjobs job s).1 ≡ treated job s
  unfolding create_one
  lookup-create_one_self job (w, b) = ground (
    arith,
    lookup-add_create_failed_job b job job.job_name,
    lookup-delete_create_failed_job b job.job_name job.job_name,
  )

  lookup-create_one_ne :
      (job : PortalJob) (s : C.World × Buffer) (name : String)
      → job.job_name ≢ name
      → lookup name (create_one C cpodjobs job s).1 ≡ lookup name s.1
  unfolding create_one
  lookup-create_one_ne job (w, b) name h = ground (
    arith,
    lookup-add_create_failed_job b job name,
    lookup-delete_create_failed_job b job.job_name name,
  )

  abbrev pub NoneNamed : String → List PortalJob → Type 0
  NoneNamed name = All (λ j. j.job_name ≢ name)

  -- Jobs of other names do not touch what the buffer has for a name.
  lookup-create_all_ne :
      (jobs : List PortalJob) (s : C.World × Buffer) (name : String)
      → NoneNamed name jobs
      → lookup name (create_all C cpodjobs jobs s).1 ≡ lookup name s.1
  unfolding create_all
  lookup-create_all_ne [] s name h = refl
  lookup-create_all_ne (job ∷ jobs) s name (other, h) =
      lookup-create_all_ne jobs (create_one C cpodjobs job s) name h
      ∙ lookup-create_one_ne job s name other

  create_all-append :
      (before after : List PortalJob) (s : C.World × Buffer)
      → create_all C cpodjobs (before ++ after) s
        ≡ create_all C cpodjobs after (create_all C cpodjobs before s)
  unfolding create_all
  create_all-append [] after s = refl
  create_all-append (job ∷ before) after s =
      create_all-append before after (create_one C cpodjobs job s)

  -- For a job whose name no later job of the portal has, the buffer has for that name, after the
  -- whole loop, what `treated` says: what it had before the job's turn if a CPodJob of the name was
  -- listed; nothing if the creation succeeded; and, if the type is invalid or the creation failed,
  -- the job that it had of that name, or else this one.
  pub lookup-create_all :
      (before after : List PortalJob) (job : PortalJob) (s : C.World × Buffer)
      → NoneNamed job.job_name after
      → lookup job.job_name (create_all C cpodjobs (before ++ job ∷ after) s).1
        ≡ treated job (create_all C cpodjobs before s)
  lookup-create_all before after job s h = rw create_all-append (
      unfold create_all in
      (lookup-create_all_ne after (create_one C cpodjobs job (create_all C cpodjobs before s))
          job.job_name h
        ∙ lookup-create_one_self job (create_all C cpodjobs before s)))

  pub create_one-UniqueNames :
      (job : PortalJob) (s : C.World × Buffer)
      → UniqueNames s.1
      → UniqueNames (create_one C cpodjobs job s).1
  unfolding create_one
  create_one-UniqueNames job (w, b) h = ground (
    arith,
    add_create_failed_job-UniqueNames b job h,
    delete_create_failed_job-UniqueNames b job.job_name h,
  )

  -- If no name stands twice in the buffer, so it is after the whole loop over the portal's jobs.
  pub create_all-UniqueNames :
      (jobs : List PortalJob) (s : C.World × Buffer)
      → UniqueNames s.1
      → UniqueNames (create_all C cpodjobs jobs s).1
  unfolding create_all
  create_all-UniqueNames [] s h = h
  create_all-UniqueNames (job ∷ jobs) s h =
      create_all-UniqueNames jobs (create_one C cpodjobs job s) (create_one-UniqueNames job s h)
