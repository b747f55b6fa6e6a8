-- ===== src/Sync/Buffer.antt =====
-- internal/synchronizer/syncjob.go: `jobBuffer`, the portal jobs that could not be created, by name.
-- The map is an association list; the lock, under which only one function runs, is left out.
use cpodoperator.Base.{
  String, ◌≡◌, Option, none, some, List, [], ◌∷◌, map, arith, ◌==◌, string_eq, if◌then◌else◌,
}
use cpodoperator.Sync.Portal.{PortalJob}

abbrev pub Buffer : Type 0
Buffer = List (String × PortalJob)

unfoldable pub lookup : String → Buffer → Option PortalJob
lookup name [] = none
lookup name ((k, j) ∷ b) = if k == name then some j else lookup name b

-- `delete(m, name)`. Every entry of the name goes; a map has at most one.
unfoldable pub erase : String → Buffer → Buffer
erase name [] = []
erase name ((k, j) ∷ b) = let rest = erase name b in if k == name then rest else (k, j) ∷ rest

-- A job that is in the buffer stays as it is.
unfoldable pub add_create_failed_job : Buffer → PortalJob → Buffer
unfolding lookup
add_create_failed_job b job = elim (lookup job.job_name b) [
  | none ↦ (job.job_name, job) ∷ b
  | some old ↦ b
]

unfoldable pub delete_create_failed_job : Buffer → String → Buffer
unfolding lookup erase
delete_create_failed_job b name = elim (lookup name b) [ none ↦ b | some old ↦ erase name b ]

unfoldable pub get_create_failed_jobs : Buffer → List PortalJob
get_create_failed_jobs b = map (λ (k, j). j) b

abbrev pub or_job : Option PortalJob → PortalJob → PortalJob
or_job none j = j
or_job (some old) j = old

-- After an addition the job's name has the job that it had, or else the new one.
pub lookup-add_create_failed_job :
    (b : Buffer) (job : PortalJob) (name : String)
    → lookup name (add_create_failed_job b job)
      ≡ (if job.job_name == name then some (or_job (lookup job.job_name b) job) else lookup name b)
unfolding add_create_failed_job
lookup-add_create_failed_job b job name = ground arith

lookup-erase :
    (name other : String) (b : Buffer)
    → lookup other (erase name b) ≡ (if name == other then none else lookup other b)
unfolding lookup erase
lookup-erase name other [] = ground arith
lookup-erase name other ((k, j) ∷ b) = ground (arith, lookup-erase name other b)

pub lookup-delete_create_failed_job :
    (b : Buffer) (name other : String)
    → lookup other (delete_create_failed_job b name)
      ≡ (if name == other then none else lookup other b)
unfolding delete_create_failed_job
lookup-delete_create_failed_job b name other = ground (arith, lookup-erase name other b)

-- No name stands twice, as in a map.
abbrev pub UniqueNames : Buffer → Type 0
UniqueNames [] = Unit
UniqueNames ((k, j) ∷ b) = (lookup k b ≡ none) × UniqueNames b

pub add_create_failed_job-UniqueNames :
    (b : Buffer) (job : PortalJob) → UniqueNames b → UniqueNames (add_create_failed_job b job)
unfolding add_create_failed_job
add_create_failed_job-UniqueNames b job h = ground arith

erase-UniqueNames : (name : String) (b : Buffer) → UniqueNames b → UniqueNames (erase name b)
unfolding erase
erase-UniqueNames name [] h = tt
erase-UniqueNames name ((k, j) ∷ b) (fresh, h) =
    ground (arith, erase-UniqueNames name b h, lookup-erase name k b)

pub delete_create_failed_job-UniqueNames :
    (b : Buffer) (name : String) → UniqueNames b → UniqueNames (delete_create_failed_job b name)
unfolding delete_create_failed_job
delete_create_failed_job-UniqueNames b name h = ground (arith, erase-UniqueNames name b h)
