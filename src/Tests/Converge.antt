-- ===== src/Tests/Converge.antt =====
-- A cluster of CPodJobs with and without the label, and the synchronizer's pass there.
use mathlib.Core.Path.{subst}
use mathlib.Core.List.{Memᴰ}
use mathlib.Core.List.Memᴰ
use mathlib.Core.List.Memᴰ.{head, tail}
use cpodoperator.Base.{
  ◌≡◌, ◌≢◌, refl, ap, inl, inr, Bool, true, false, any, ◌&&◌, ◌||◌, Bool-cases, some, none, List,
  [], ◌∷◌, ◌==◌, if◌then◌else◌, string_eq, String-discrete, nat_eq, ℕ_discrete, arith,
}
use cpodoperator.Sync.Text.{to_lower, codes_eq, Codes-discrete}
use cpodoperator.Sync.Buffer.{lookup, delete_create_failed_job}
use cpodoperator.Api.Job.{CPodJob}
use cpodoperator.Sync.Portal.{PortalJob, Cluster}
use cpodoperator.Sync.Jobs.{
  source_label, has_cpodjob, job_type_check, new_cpodjob, create_checked, create_one, create_all,
  start,
}
use cpodoperator.Sync.Converge.{key_of, Gains, Loses, IsApiServer, IsConverged}
use cpodoperator.Sync.Converge.Settles.{start-IsConverged, start-start}
use cpodoperator.Tests.Claims.{mpi_train}
use cpodoperator.Tests.Sync.{mpi_job_of}

abbrev is_same : CPodJob → CPodJob → Bool
is_same a b = a.namespace == b.namespace && a.name == b.name

abbrev without : CPodJob → List CPodJob → List CPodJob
without job [] = []
without job (j ∷ jobs) = let rest = without job jobs in if is_same j job then rest else j ∷ rest

abbrev pub assigned : List PortalJob
assigned = mpi_job_of "first" ∷ []

-- A cluster without any other CPodJobs, in which a name is taken once.
abbrev pub willing : Cluster
willing = record {
  World = List CPodJob;
  list_cpodjobs = λ w labels. some w;
  create_cpodjob = λ w job. if has_cpodjob w job.name then (w, false) else (job ∷ w, true);
  delete_cpodjob = λ w job. (without job w, true);
  get_assigned_job_list = λ w. (w, some assigned);
}

abbrev has_key : CPodJob → List CPodJob → Bool
has_key job jobs = any (λ j. is_same j job) jobs

-- The jobs with the label and those without it. A created job gets an identifier and a time.
abbrev stored_as : CPodJob → CPodJob
stored_as job = record job { uid = "17"; creation_timestamp = 1 }

abbrev create : List CPodJob × List CPodJob → CPodJob → (List CPodJob × List CPodJob) × Bool
create (w, others) job =
    if has_key job w || has_key job others
    then ((w, others), false)
    else ((stored_as job ∷ w, others), true)

abbrev server : Cluster
server = record {
  World = List CPodJob × List CPodJob;
  list_cpodjobs = λ (w, others) labels. some w;
  create_cpodjob = create;
  delete_cpodjob = λ (w, others) job. ((without job w, others), true);
  get_assigned_job_list = λ w. (w, some assigned);
}

same_key : (a b : CPodJob) → is_same a b ≡ true → key_of a ≡ key_of b
same_key a b h = ground arith

other_key : (a b : CPodJob) → is_same a b ≡ false → key_of a ≢ key_of b
other_key a b h e = ground arith

true_ne_false : ¬ (false ≡ true)
true_ne_false h = cc

same_list : (a b : List CPodJob) → some a ≡ some b → a ≡ b
same_list a b h = cc

creation :
    (w : List CPodJob × List CPodJob) (job : CPodJob)
    → Gains job w.0 (create w job).0.0
      × ((create w job).1 ≡ true
          → (j : CPodJob) × Memᴰ j (create w job).0.0 × (key_of j ≡ key_of job))
creation (w, others) job = elim (Bool-cases (has_key job w || has_key job others)) [
  | inl has ↦
      rw has (record { kept = λ j m. m; only = λ j m. inr m }, λ made. absurd (true_ne_false made))
  | inr new ↦ rw new (
    record {
      kept = λ j m. tail m;
      only = λ j m. elim (Memᴰ.cases_cons m) [ inl e ↦ inl (ap key_of e) | inr old ↦ inr old ];
    },
    λ made. (stored_as job, head refl, refl),
  )
]

without-kept :
    (job j : CPodJob) (jobs : List CPodJob)
    → Memᴰ j jobs
    → key_of j ≢ key_of job
    → Memᴰ j (without job jobs)
without-kept job j [] m ne = elim m [ ]
without-kept job j (i ∷ jobs) (head e) ne = elim (Bool-cases (is_same i job)) [
  | inl same ↦ absurd (ne (rw e (same_key i job same)))
  | inr other ↦ rw other (head e)
]
without-kept job j (i ∷ jobs) (tail m) ne = elim (Bool-cases (is_same i job)) [
  | inl same ↦ rw same (without-kept job j jobs m ne)
  | inr other ↦ rw other (tail (without-kept job j jobs m ne))
]

without-only :
    (job : CPodJob) (jobs : List CPodJob) (j : CPodJob)
    → Memᴰ j (without job jobs)
    → Memᴰ j jobs × (key_of j ≢ key_of job)
without-only job [] j m = elim m [ ]
without-only job (i ∷ jobs) j m = elim (Bool-cases (is_same i job)) [
  | inl same ↦
      let (n, ne) = without-only job jobs j (subst (Memᴰ j) (rw same refl) m) in (tail n, ne)
  | inr other ↦
      let n : Memᴰ j (i ∷ without job jobs) = subst (Memᴰ j) (rw other refl) m in
      elim (Memᴰ.cases_cons n) [
        | inl e ↦ (head e, rw e (other_key i job other))
        | inr n' ↦ (let (k, ne) = without-only job jobs j n' in (tail k, ne))
      ]
]

server-IsApiServer : IsApiServer server
server-IsApiServer = record {
  creates = λ w job jobs listed labelled.
      let (gains, there) = creation w job in
      (
        (create w job).0.0,
        refl,
        subst (λ l. Gains job l (create w job).0.0) (same_list w.0 jobs listed) gains,
        there,
      );
  deletes = λ w job jobs listed m. (
    refl,
    (
      without job w.0,
      refl,
      subst (λ l. Loses job l (without job w.0)) (same_list w.0 jobs listed)
          (record {
            kept = λ j n ne. without-kept job j w.0 n ne;
            only = λ j n. without-only job w.0 j n;
          }),
    ),
  );
  portal_apart = λ w. refl;
}

abbrev begin : List CPodJob × List CPodJob
begin = (mpi_train ∷ [], [])

start-IsConverged_example :
    let s = start server (begin, []) in
    (after : List CPodJob) × (server.list_cpodjobs s.0 source_label ≡ some after)
    × IsConverged assigned after s.1
start-IsConverged_example =
    start-IsConverged server begin [] (mpi_train ∷ []) assigned server-IsApiServer refl (tt, tt)
      refl

first_is_created : lookup "first" (start server (begin, [])).1 ≡ none
unfolding start create_all create_one create_checked lookup job_type_check to_lower codes_eq
    Codes-discrete nat_eq ℕ_discrete delete_create_failed_job string_eq String-discrete new_cpodjob
first_is_created = refl

start-start_example :
    let w = (start server (begin, [])).0 in
    (start server (start server (begin, []))).0 ≡ (server.get_assigned_job_list w).0
start-start_example =
    start-start server begin [] (mpi_train ∷ []) assigned server-IsApiServer refl (tt, tt) refl refl
      (inr first_is_created, tt)
