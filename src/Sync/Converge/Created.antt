-- ===== src/Sync/Converge/Created.antt =====
-- The first loop of internal/synchronizer/syncjob.go in a cluster.
use mathlib.Core.Path.{subst}
use mathlib.Core.List.{Memᴰ}
use mathlib.Core.List.Memᴰ.{head, tail}
use cpodoperator.Base.{
  String, ◌≡◌, ◌≢◌, refl, ap, sym, ◌∙◌, ◌⊎◌, inl, inr, Bool, true, false, ◌||◌, Bool-cases, some,
  Option-cases, List, [], ◌∷◌, All, arith, ◌==◌, string_eq,
}
use cpodoperator.Api.Job.{CPodJob}
use cpodoperator.Sync.Portal.{PortalJob, Cluster}
use cpodoperator.Sync.Buffer.{
  Buffer, lookup, or_job, add_create_failed_job, delete_create_failed_job,
  lookup-add_create_failed_job, lookup-delete_create_failed_job,
}
use cpodoperator.Sync.Jobs.{
  source_label, job_type_check, new_cpodjob, has_cpodjob, has_portal_job, create_checked,
  create_one, create_all,
}
use cpodoperator.Sync.Converge.{IsApiServer, Served}

pub same_true : (a b : String) → a ≡ b → (a == b) ≡ true
same_true a b e = ground arith

other_false : (p : PortalJob) (name : String) → p.job_name ≢ name → (p.job_name == name) ≡ false
other_false p name ne = ground arith

or_right : (a b : Bool) → b ≡ true → (a || b) ≡ true
or_right true b h = refl
or_right false b h = h

pub has_cpodjob_of_mem :
    (jobs : List CPodJob) (j : CPodJob) (name : String)
    → Memᴰ j jobs
    → j.name ≡ name
    → has_cpodjob jobs name ≡ true
has_cpodjob_of_mem [] j name m h = elim m [ ]
has_cpodjob_of_mem (job ∷ jobs) j name (head e) h =
    rw (same_true job.name name (ap (λ i. i.name) (sym e) ∙ h)) refl
has_cpodjob_of_mem (job ∷ jobs) j name (tail m) h =
    or_right (job.name == name) _ (has_cpodjob_of_mem jobs j name m h)

pub mem_of_has_cpodjob :
    (jobs : List CPodJob) (name : String)
    → has_cpodjob jobs name ≡ true
    → (j : CPodJob) × Memᴰ j jobs × (j.name ≡ name)
mem_of_has_cpodjob [] name h = cc
mem_of_has_cpodjob (job ∷ jobs) name h = elim (Bool-cases (job.name == name)) [
  | inl same ↦ (job, head refl, ground arith)
  | inr other ↦ let (j, m, e) = mem_of_has_cpodjob jobs name (ground arith) in (j, tail m, e)
]

-- The jobs that are listed have only grown, by jobs that the portal has, and what was served is.
pub record Extends (portal_jobs : List PortalJob) (before : List CPodJob) (b : Buffer)
    (after : List CPodJob) (b' : Buffer) : Type 0 where
  pub kept : (j : CPodJob) → Memᴰ j before → Memᴰ j after
  pub only :
      (j : CPodJob) → Memᴰ j after → (has_portal_job portal_jobs j.name ≡ true) ⊎ Memᴰ j before
  pub serves : (name : String) → Served before b name → Served after b' name

Extends-refl :
    (portal_jobs : List PortalJob) (jobs : List CPodJob) (b : Buffer)
    → Extends portal_jobs jobs b jobs b
Extends-refl portal_jobs jobs b = record {
  kept = λ j m. m;
  only = λ j m. inr m;
  serves = λ name served. served;
}

-- One more job is in the buffer, or its name is listed.
Extends-more :
    (p : PortalJob) (before after : List CPodJob) (b b' : Buffer)
    → ((j : CPodJob) → Memᴰ j before → Memᴰ j after)
    → ((j : CPodJob) → Memᴰ j after → (j.name ≡ p.job_name) ⊎ Memᴰ j before)
    → Served after b' p.job_name
    → ((name : String) → p.job_name ≢ name → lookup name b' ≡ lookup name b)
    → Extends (p ∷ []) before b after b'
Extends-more p before after b b' kept only served others = record {
  kept = kept;
  only = λ j m. elim (only j m) [
    | inl e ↦ inl (rw (same_true j.name p.job_name e) refl)
    | inr old ↦ inr old
  ];
  serves = λ name was. elim (Bool-cases (p.job_name == name)) [
    | inl e ↦ let same : p.job_name ≡ name = ground arith in subst (Served after b') same served
    | inr ne ↦ elim was [
      | inl (q, e) ↦ inl (q, others name (λ same. ground arith) ∙ e)
      | inr has ↦
          (let (j, m, e) = mem_of_has_cpodjob before name has in
            inr (has_cpodjob_of_mem after j name (kept j m) e))
    ]
  ];
}

module _ (C : Cluster) (server : IsApiServer C) (snapshot : List CPodJob) where
  failed-Served :
      (p : PortalJob) (b : Buffer) (jobs : List CPodJob)
      → Served jobs (add_create_failed_job b p) p.job_name
  failed-Served p b jobs =
      let own : lookup p.job_name (add_create_failed_job b p)
          ≡ some (or_job (lookup p.job_name b) p) =
        lookup-add_create_failed_job b p p.job_name
        ∙ rw (same_true p.job_name p.job_name refl) refl in
      inl (or_job (lookup p.job_name b) p, own)

  -- The creation of a job whose type is run.
  create_checked-Served :
      (p : PortalJob) (t : String) (w : C.World) (b : Buffer) (jobs : List CPodJob)
      → C.list_cpodjobs w source_label ≡ some jobs
      → let s = create_checked C p (some t) (w, b) in
        (after : List CPodJob) × (C.list_cpodjobs s.0 source_label ≡ some after)
        × Extends (p ∷ []) jobs b after s.1
        × Served after s.1 p.job_name
  unfolding create_checked new_cpodjob
  create_checked-Served p t w b jobs listed =
      let job : CPodJob = new_cpodjob p t in
      let (after, listed', gains, there) = server.creates w job jobs listed refl in
      let only : (j : CPodJob) → Memᴰ j after → (j.name ≡ p.job_name) ⊎ Memᴰ j jobs =
        λ j m. elim (gains.only j m) [ inl e ↦ inl (ap (λ k. k.name) e) | inr old ↦ inr old ] in
      elim (Bool-cases (C.create_cpodjob w job).1) [
        | inl well ↦
            (let (j, m, e) = there well in
              let has : has_cpodjob after p.job_name ≡ true =
                has_cpodjob_of_mem after j p.job_name m (ap (λ k. k.name) e) in
              rw well (
                after,
                listed',
                Extends-more p jobs after b (delete_create_failed_job b p.job_name) gains.kept only
                    (inr has)
                    (λ name ne.
                      lookup-delete_create_failed_job b p.job_name name
                      ∙ rw (other_false p name ne) refl),
                inr has,
              ))
        | inr ill ↦ rw ill (
          after,
          listed',
          Extends-more p jobs after b (add_create_failed_job b p) gains.kept only
              (failed-Served p b after)
              (λ name ne. lookup-add_create_failed_job b p name ∙ rw (other_false p name ne) refl),
          failed-Served p b after,
        )
      ]

  create_one-Served :
      (p : PortalJob) (w : C.World) (b : Buffer) (jobs : List CPodJob)
      → ((j : CPodJob) → Memᴰ j snapshot → Memᴰ j jobs)
      → C.list_cpodjobs w source_label ≡ some jobs
      → let s = create_one C snapshot p (w, b) in
        (after : List CPodJob) × (C.list_cpodjobs s.0 source_label ≡ some after)
        × Extends (p ∷ []) jobs b after s.1
        × Served after s.1 p.job_name
  unfolding create_one create_checked
  create_one-Served p w b jobs within listed = elim (Bool-cases (has_cpodjob snapshot p.job_name)) [
    | inl has ↦
        (let (j, m, e) = mem_of_has_cpodjob snapshot p.job_name has in
          rw has (
            jobs,
            listed,
            Extends-refl (p ∷ []) jobs b,
            inr (has_cpodjob_of_mem jobs j p.job_name (within j m) e),
          ))
    | inr hasnt ↦ elim (Option-cases (job_type_check p.job_type)) [
      | inl invalid ↦
          rw (hasnt, invalid)
            (
              jobs,
              listed,
              Extends-more p jobs jobs b (add_create_failed_job b p) (λ j m. m) (λ j m. inr m)
                  (failed-Served p b jobs)
                  (λ name ne.
                    lookup-add_create_failed_job b p name ∙ rw (other_false p name ne) refl),
              failed-Served p b jobs,
            )
      | inr (t, valid) ↦ rw (hasnt, valid) (create_checked-Served p t w b jobs listed)
    ]
  ]

  pub create_all-Served :
      (portal_jobs : List PortalJob) (w : C.World) (b : Buffer) (jobs : List CPodJob)
      → ((j : CPodJob) → Memᴰ j snapshot → Memᴰ j jobs)
      → C.list_cpodjobs w source_label ≡ some jobs
      → let s = create_all C snapshot portal_jobs (w, b) in
        (after : List CPodJob) × (C.list_cpodjobs s.0 source_label ≡ some after)
        × Extends portal_jobs jobs b after s.1
        × All (λ p. Served after s.1 p.job_name) portal_jobs
  unfolding create_all
  create_all-Served [] w b jobs within listed = (jobs, listed, Extends-refl [] jobs b, tt)
  create_all-Served (p ∷ portal_jobs) w b jobs within listed =
      let s : C.World × Buffer = create_one C snapshot p (w, b) in
      let (mid, listed', one, served) = create_one-Served p w b jobs within listed in
      let (after, listed'', rest, all) =
        create_all-Served portal_jobs s.0 s.1 mid (λ j m. one.kept j (within j m)) listed' in
      (
        after,
        listed'',
        record {
          kept = λ j m. rest.kept j (one.kept j m);
          only = λ j m. elim (rest.only j m) [
            | inl later ↦ inl (or_right (j.name == p.job_name) _ later)
            | inr m' ↦ elim (one.only j m') [ inl here ↦ inl (ground arith) | inr old ↦ inr old ]
          ];
          serves = λ name was. rest.serves name (one.serves name was);
        },
        (rest.serves p.job_name served, all),
      )
