-- ===== src/Sync/Jobs/Sharing.antt =====
-- How internal/synchronizer/syncjob.go shares the GPUs of a portal job among workers of 8 GPUs.
use native.Mathlib.Decide.{dec_lt}
use cpodoperator.Base.{ℕ, ◌+◌, ◌*◌, ◌/◌, ◌%◌, ◌≤◌, ◌<◌, ◌≡◌, ◌⊎◌, arith}
use cpodoperator.Base.Int.{pos, to_int32}
use cpodoperator.Sync.Portal.{PortalJob}
use cpodoperator.Sync.Jobs.{gpu_per_worker, replicas}

-- What a sharing among `r` workers of `g` GPUs each has to meet, for a job of `n` GPUs.
pub record IsSharing (n g r : ℕ) : Type 0 where
  pub some_worker : 1 ≤ r
  pub capped : g ≤ 8
  pub no_more : g * r ≤ n
  pub nearly_all : n < g * r + 8
  pub exact : (n < 8) ⊎ (n % 8 ≡ 0) → g * r ≡ n
  pub exact_only : g * r ≡ n → (n < 8) ⊎ (n % 8 ≡ 0)

Shares : PortalJob → ℕ → Type 0
Shares job n =
    (g : ℕ) × (r : ℕ) × (gpu_per_worker job ≡ pos g) × (replicas job ≡ pos r) × IsSharing n g r

small_sharing : (job : PortalJob) (n : ℕ) → job.gpu_number ≡ pos n → n < 8 → Shares job n
unfolding gpu_per_worker replicas to_int32 Shares
small_sharing job n e h = (n, 1, ground arith, ground arith, omega arith)

large_sharing :
    (job : PortalJob) (n : ℕ) → job.gpu_number ≡ pos n → n < 2147483648 → ¬ (n < 8) → Shares job n
unfolding gpu_per_worker replicas to_int32 Shares
large_sharing job n e h large = (8, n / 8, ground arith, ground arith, omega arith)

-- A job of a number of GPUs in the range of int32 runs on at least one worker of at most 8 GPUs
-- each. Together they have no more GPUs than the job asks for, fewer than 8 less, and as many
-- exactly if the job asks for fewer than 8 or for a multiple of 8.
pub replicas-IsSharing :
    (job : PortalJob) (n : ℕ)
    → job.gpu_number ≡ pos n
    → n < 2147483648
    → (g : ℕ) × (r : ℕ) × (gpu_per_worker job ≡ pos g) × (replicas job ≡ pos r) × IsSharing n g r
unfolding Shares
replicas-IsSharing job n e h = elim (dec_lt n 8) [
  | yes p ↦ small_sharing job n e p
  | no p ↦ large_sharing job n e h p
]
