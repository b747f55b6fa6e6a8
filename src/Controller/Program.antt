-- ===== src/Controller/Program.antt =====
-- The steps of the CPodJob controller, as programs over the cluster and the CPodJob in memory.
pub mod Post
use cpodoperator.Base.{◌≡◌, arith, String, Option, none, some}
use cpodoperator.Base.Int.{ℤ}
use cpodoperator.Api.Job.{CPodJob, CPodJobStatus, Time}
use cpodoperator.Kube.Outcome.{Error, Outcome, ok, err, panic, Fetched, fetched}
use cpodoperator.Kube.Client.{Client}

-- `CPodJobOption`
pub record Options : Type 0 where
  pub storage_class_name : String
  pub model_upload_job_image : String
  pub model_upload_job_backoff_limit : ℤ
  pub model_upload_oss_bucket_name : String

pub record State (W : Type 0) : Type 0 where
  pub world : W
  pub job : CPodJob

abbrev pub M : Type 0 → Type 0 → Type 0
M W A = State W → Outcome A × State W

abbrev pub pure : {W A : Type 0} → A → M W A
pure a s = (ok a, s)

abbrev pub throw : {W A : Type 0} → Error → M W A
throw e s = (err e, s)

abbrev pub crash : {W A : Type 0} → M W A
crash s = (panic, s)

infixl 5 ◌>>=◌ ◌>>◌
abbrev pub ◌>>=◌ : {W A B : Type 0} → M W A → (A → M W B) → M W B
◌>>=◌ m f s = let (r, t) = m s in elim r [ ok a ↦ f a t | err e ↦ (err e, t) | panic ↦ (panic, t) ]

abbrev pub ◌>>◌ : {W B : Type 0} → M W (Unit {0}) → M W B → M W B
m >> k = m >>= λ _. k

-- `if err != nil { handler; return err }`
abbrev pub on_error : {W A : Type 0} → M W A → M W (Unit {0}) → M W A
on_error m handler s =
    let (r, t) = m s in
    elim r [ ok a ↦ (ok a, t) | err e ↦ (handler >> throw e) t | panic ↦ (panic, t) ]

-- A read of the cluster.
abbrev pub ask : {W A : Type 0} → (W → Outcome A) → M W (Fetched A)
ask get s = (ok (fetched (get s.world)), s)

-- A call that changes the cluster.
abbrev pub call : {W A : Type 0} → (W → W × Outcome A) → M W A
call f s = let (w, r) = f s.world in (r, record s { world = w })

abbrev pub set_status : {W : Type 0} → CPodJobStatus → M W (Unit {0})
set_status status s = (ok tt, record s { job = record s.job { status = status } })

abbrev pub get_job : {W : Type 0} → M W CPodJob
get_job s = (ok s.job, s)

-- A read through a pointer that may be nil.
abbrev pub deref : {W A : Type 0} → Option A → M W A
deref none = crash
deref (some a) = pure a

-- A bind and a handler by how their first part ended.
module _ {W A B : Type 0} where
  unfoldable pub continue : (A → M W B) → Outcome A × State W → Outcome B × State W
  continue f (ok a, t) = f a t
  continue f (err e, t) = (err e, t)
  continue f (panic, t) = (panic, t)

  pub bind-continue : (m : M W A) (f : A → M W B) (s : State W) → (m >>= f) s ≡ continue f (m s)
  unfolding continue
  bind-continue m f s = ground arith

module _ {W A : Type 0} where
  unfoldable pub recover : M W (Unit {0}) → Outcome A × State W → Outcome A × State W
  recover handler (ok a, t) = (ok a, t)
  recover handler (err e, t) = (handler >> throw e) t
  recover handler (panic, t) = (panic, t)

  pub on_error-recover :
      (m : M W A) (handler : M W (Unit {0})) (s : State W)
      → on_error m handler s ≡ recover handler (m s)
  unfolding recover
  on_error-recover m handler s = ground arith

module _ (C : Client) where
  abbrev pub get_now : M C.World Time
  get_now s = let (w, t) = C.now s.world in (ok t, record s { world = w })

  -- `Recorder.Eventf` with a warning.
  abbrev pub warn : String → String → M C.World (Unit {0})
  warn reason text s = (ok tt, record s { world = C.record_event s.world s.job reason text })
