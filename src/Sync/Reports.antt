-- ===== src/Sync/Reports.antt =====
-- How a job that cannot be created gets to the portal: through the buffer of
-- internal/synchronizer/syncjob.go, the observer of cpodobserver.go and the uploader of uploader.go.
use mathlib.Core.List.{Memᴰ}
use mathlib.Core.List.Memᴰ
use mathlib.Core.Path.{subst}
use cpodoperator.Base.{
  String, ◌≡◌, ◌≢◌, refl, sym, ap, ◌∙◌, inl, inr, Bool-cases, false, ◌==◌, if◌then◌else◌, none,
  some, List, [], ◌∷◌, ◌++◌, map, All, arith, string_eq,
}
use cpodoperator.Api.Job.{CPodJob}
use cpodoperator.Sync.Portal.{PortalJob, Cluster}
use cpodoperator.Sync.Buffer.{
  Buffer, lookup, erase, or_job, add_create_failed_job, delete_create_failed_job,
  get_create_failed_jobs,
}
use cpodoperator.Sync.Jobs.{
  source_label, job_type_check, has_cpodjob, create_one, create_all, start,
}
use cpodoperator.Sync.Jobs.Creation.{NoneNamed, treated, lookup-create_all}
use cpodoperator.Sync.Observer.{Observed, JobState, observe_jobs}
use cpodoperator.Sync.Observer.Payload.{
  Payload, create_failed_state, observe, job_status_of_sent, cpod_id_of_sent,
}
use cpodoperator.Sync.Uploader.{Exchange, after_send, upload, send, IsReachable, step}
use cpodoperator.Sync.Uploader.Freshness.{upload-newest}

-- Each job stands under its own name.
abbrev pub KeyedByName : Buffer → Type 0
KeyedByName b = All (λ entry. entry.1.job_name ≡ entry.0) b

add-KeyedByName :
    (b : Buffer) (job : PortalJob) → KeyedByName b → KeyedByName (add_create_failed_job b job)
unfolding add_create_failed_job
add-KeyedByName b job h = ground arith

erase-KeyedByName : (name : String) (b : Buffer) → KeyedByName b → KeyedByName (erase name b)
unfolding erase
erase-KeyedByName name [] h = tt
erase-KeyedByName name ((k, j) ∷ b) (e, h) = ground (arith, erase-KeyedByName name b h)

delete-KeyedByName :
    (b : Buffer) (name : String) → KeyedByName b → KeyedByName (delete_create_failed_job b name)
unfolding delete_create_failed_job
delete-KeyedByName b name h = ground (arith, erase-KeyedByName name b h)

-- A job that is found in the buffer is reported under the name.
lookup-reported :
    (b : Buffer) (name : String) (j : PortalJob)
    → KeyedByName b
    → lookup name b ≡ some j
    → Memᴰ (create_failed_state j) (map create_failed_state (get_create_failed_jobs b))
      × (j.job_name ≡ name)
unfolding lookup get_create_failed_jobs
lookup-reported [] name j h found = cc
lookup-reported ((k, i) ∷ b) name j (e, h) found = elim (Bool-cases (k == name)) [
  | inl same ↦
      let is_it : i ≡ j = ground arith in
      let named : k ≡ name = ground arith in
      (Memᴰ.head (ap create_failed_state (sym is_it)), ap (λ x. x.job_name) (sym is_it) ∙ e ∙ named)
  | inr other ↦ let (m, named) = lookup-reported b name j h (ground arith) in (Memᴰ.tail m, named)
]

create_failed_state-name : (j : PortalJob) → (create_failed_state j).name ≡ j.job_name
unfolding create_failed_state
create_failed_state-name j = refl

create_failed_state-job_status :
    (j : PortalJob) → (create_failed_state j).job_status ≡ "createfailed"
unfolding create_failed_state
create_failed_state-job_status j = refl

given : (p : Payload) → p.cpod_id ≢ "" → (if p.cpod_id == "" then none else some p) ≡ some p
given p h = ground arith

module _ (C : Cluster) where
  pub create_one-KeyedByName :
      (jobs : List CPodJob) (job : PortalJob) (s : C.World × Buffer)
      → KeyedByName s.1
      → KeyedByName (create_one C jobs job s).1
  unfolding create_one
  create_one-KeyedByName jobs job (w, b) h =
      ground (arith, add-KeyedByName b job h, delete-KeyedByName b job.job_name h)

  create_all-KeyedByName :
      (jobs : List CPodJob) (portal_jobs : List PortalJob) (s : C.World × Buffer)
      → KeyedByName s.1
      → KeyedByName (create_all C jobs portal_jobs s).1
  unfolding create_all
  create_all-KeyedByName jobs [] s h = h
  create_all-KeyedByName jobs (job ∷ portal_jobs) s h =
      create_all-KeyedByName jobs portal_jobs (create_one C jobs job s)
        (create_one-KeyedByName jobs job s h)

  start-buffer :
      (w : C.World) (b : Buffer) (jobs : List CPodJob) (portal_jobs : List PortalJob)
      → C.list_cpodjobs w source_label ≡ some jobs
      → (C.get_assigned_job_list w).1 ≡ some portal_jobs
      → (start C (w, b)).1 ≡ (create_all C jobs portal_jobs ((C.get_assigned_job_list w).0, b)).1
  unfolding start
  start-buffer w b jobs portal_jobs listed assigned = ground arith

  treated_of_invalid :
      (jobs : List CPodJob) (job : PortalJob) (s : C.World × Buffer)
      → has_cpodjob jobs job.job_name ≡ false
      → job_type_check job.job_type ≡ none
      → treated C jobs job s ≡ some (or_job (lookup job.job_name s.1) job)
  treated_of_invalid jobs job (w, b) new invalid = ground arith

  module _ (O : Observed) (w : C.World) (b : Buffer) (jobs : List CPodJob)
      (before after : List PortalJob) (job : PortalJob) (v : O.World) (cpod_id : String)
      (seen : List CPodJob) (p : Payload) (e : Exchange) where
    -- Let the buffer have each job under its own name, let the portal's list have a job whose type is
    -- not run, of which no CPodJob has the name and no later job of the list either. If after a pass of
    -- the synchronizer the observer, whose list of CPodJobs is answered, puts a payload together and
    -- sends it over a channel that is empty, in a state that the observer and the uploader can reach,
    -- then the next run of the uploader gives the portal this payload, and in it a state
    -- `createfailed` under the job's name. The CPod's identifier is not empty.
    pub start-reported :
        KeyedByName b
        → C.list_cpodjobs w source_label ≡ some jobs
        → (C.get_assigned_job_list w).1 ≡ some (before ++ job ∷ after)
        → NoneNamed C jobs job.job_name after
        → has_cpodjob jobs job.job_name ≡ false
        → job_type_check job.job_type ≡ none
        → cpod_id ≢ ""
        → O.list_cpodjobs v source_label ≡ some seen
        → (observe O cpod_id (start C (w, b)).1 v).1 ≡ some p
        → IsReachable e
        → e.link.channel ≡ none
        → ((upload (after_send e p).link).1 ≡ some p)
          × ((q : JobState) × Memᴰ q p.job_status
              × (q.name ≡ job.job_name)
              × (q.job_status ≡ "createfailed"))
    unfolding after_send
    start-reported keyed listed assigned last new invalid named seen_v sent reach free =
        let b' : Buffer = (start C (w, b)).1 in
        let s : C.World × Buffer = ((C.get_assigned_job_list w).0, b) in
        let s' : C.World × Buffer = create_all C jobs before s in
        let made = start-buffer w b jobs (before ++ job ∷ after) listed assigned in
        let all = create_all-KeyedByName jobs (before ++ job ∷ after) s keyed in
        let keyed' : KeyedByName b' = subst KeyedByName (sym made) all in
        let j : PortalJob = or_job (lookup job.job_name s'.1) job in
        let found : lookup job.job_name b' ≡ some j =
          ap (lookup job.job_name) made
          ∙ lookup-create_all C jobs before after job s last
          ∙ treated_of_invalid jobs job s' new invalid in
        let (m, same) = lookup-reported b' job.job_name j keyed' found in
        let states = job_status_of_sent O cpod_id b' v p seen seen_v sent in
        (
          upload-newest (after_send e p) (step reach (send p free))
              ∙ given p (λ empty. named (sym (cpod_id_of_sent O cpod_id b' v p sent) ∙ empty)),
          (
            create_failed_state j,
            subst (Memᴰ (create_failed_state j)) (sym states)
                (Memᴰ.append_right (observe_jobs O v seen).1 m),
            create_failed_state-name j ∙ same,
            create_failed_state-job_status j,
          ),
        )
