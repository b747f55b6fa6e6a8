-- ===== src/Controller/Advance.antt =====
-- A partial order on CPodJobs, and the programs of internal/controller/cpodjob_controller.go that
-- only move a job up in it, however the cluster answers. One rule for each way to build a program.
pub mod Steps
pub mod Reports
pub mod Sources
pub mod Whole
use cpodoperator.Base.{
  String, ◌≡◌, refl, sym, ◌∙◌, Bool, true, false, Option, none, some, arith, if◌then◌else◌, ◌==◌,
}
use cpodoperator.Api.Job.{
  CPodJob, CPodJobSpec, CPodJobStatus, Time, JobConditionType, ConditionStatus, succeeded,
  condition_true, job_condition_type_eq, condition_status_eq,
}
use cpodoperator.Status.{is_succeeded, is_failed, is_status_condition_true, update_job_conditions}
use cpodoperator.Status.WellFormed.{UniqueTypes, update_job_conditions-UniqueTypes}
use cpodoperator.Status.Progress.{
  update_of_failed, is_status_condition_true-update, succeeded-IsStable,
}
use cpodoperator.Kube.Outcome.{
  Outcome, ok, err, panic, Error, Fetched, found, missing, refused, crashed,
}
use cpodoperator.Controller.Program.{
  continue, bind-continue, recover, on_error-recover, State, M, pure, throw, crash, ◌>>=◌, ◌>>◌,
  on_error, ask, call, get_job, set_status, deref,
}

-- From one job to a later state of it: conditions keyed by type stay so, a failed job keeps its
-- conditions, a succeeded one stays succeeded, and the specification and the names do not change.
pub record Advances (a b : CPodJob) : Type 0 where
  pub same_spec : b.spec ≡ a.spec
  pub same_name : b.name ≡ a.name
  pub same_namespace : b.namespace ≡ a.namespace
  pub keyed : UniqueTypes a.status.conditions → UniqueTypes b.status.conditions
  pub frozen : is_failed a.status ≡ true → b.status.conditions ≡ a.status.conditions
  pub still_succeeded : is_succeeded a.status ≡ true → is_succeeded b.status ≡ true

pub Advances-refl : (a : CPodJob) → Advances a a
Advances-refl a = record {
  same_spec = refl;
  same_name = refl;
  same_namespace = refl;
  keyed = λ h. h;
  frozen = λ h. refl;
  still_succeeded = λ h. h;
}

is_failed_of_conditions :
    (s t : CPodJobStatus) → t.conditions ≡ s.conditions → is_failed t ≡ is_failed s
unfolding is_failed is_status_condition_true
is_failed_of_conditions s t h = rw h

is_succeeded_of_conditions :
    (s t : CPodJobStatus) → t.conditions ≡ s.conditions → is_succeeded t ≡ is_succeeded s
unfolding is_succeeded is_status_condition_true
is_succeeded_of_conditions s t h = rw h

pub Advances-trans : (a b c : CPodJob) → Advances a b → Advances b c → Advances a c
Advances-trans a b c p q = record {
  same_spec = q.same_spec ∙ p.same_spec;
  same_name = q.same_name ∙ p.same_name;
  same_namespace = q.same_namespace ∙ p.same_namespace;
  keyed = λ h. q.keyed (p.keyed h);
  frozen = λ h. q.frozen (is_failed_of_conditions a.status b.status (p.frozen h) ∙ h) ∙ p.frozen h;
  still_succeeded = λ h. q.still_succeeded (p.still_succeeded h);
}

-- A change of the status outside its conditions.
pub Advances-status :
    (a : CPodJob) (s : CPodJobStatus)
    → s.conditions ≡ a.status.conditions
    → Advances a (record a { status = s })
Advances-status a s h = record {
  same_spec = refl;
  same_name = refl;
  same_namespace = refl;
  keyed = λ u. rw h u;
  frozen = λ f. h;
  still_succeeded = λ k. is_succeeded_of_conditions a.status s h ∙ k;
}

-- An update of a condition, but for one that takes `Succeeded` back.
pub Advances-update :
    (a : CPodJob) (now : Time) (t : JobConditionType) (status : ConditionStatus)
    (reason message : String)
    → (t ≡ succeeded → status ≡ condition_true)
    → Advances a (record a { status = update_job_conditions now a.status t status reason message })
unfolding is_succeeded
Advances-update a now t status reason message honest = record {
  same_spec = refl;
  same_name = refl;
  same_namespace = refl;
  keyed = update_job_conditions-UniqueTypes now a.status t status reason message;
  frozen = λ h. rw (update_of_failed now a.status t status reason message h);
  still_succeeded = λ h. ground (
    arith,
    is_status_condition_true-update now a.status t status reason message succeeded
        succeeded-IsStable,
  );
}

pub record Moves {W A : Type 0} (m : M W A) : Type 0 where
  pub at : (s : State W) → Advances s.job (m s).1.job

module _ {W A : Type 0} where
  pub Moves-pure : (a : A) → Moves {W = W} (pure a)
  Moves-pure a = record { at = λ s. Advances-refl s.job }

  pub Moves-throw : (e : Error) → Moves {W = W} {A = A} (throw e)
  Moves-throw e = record { at = λ s. Advances-refl s.job }

  pub Moves-crash : Moves {W = W} {A = A} crash
  Moves-crash = record { at = λ s. Advances-refl s.job }

  pub Moves-ask : (get : W → Outcome A) → Moves (ask get)
  Moves-ask get = record { at = λ s. Advances-refl s.job }

  pub Moves-call : (f : W → W × Outcome A) → Moves (call f)
  Moves-call f = record { at = λ s. Advances-refl s.job }

  pub Moves-deref : (o : Option A) → Moves {W = W} (deref o)
  Moves-deref none = Moves-crash
  Moves-deref (some a) = Moves-pure a

  pub Moves-if : (b : Bool) (m n : M W A) → Moves m → Moves n → Moves (if b then m else n)
  Moves-if true m n p q = p
  Moves-if false m n p q = q

module _ {W A : Type 0} where
  -- A program that leaves the job alone.
  pub Moves-of_same : (m : M W A) → ((s : State W) → (m s).1.job ≡ s.job) → Moves m
  Moves-of_same m same = record { at = λ s. rw same (Advances-refl s.job) }

module _ {W : Type 0} where
  pub Moves-get_job : Moves {W = W} get_job
  Moves-get_job = record { at = λ s. Advances-refl s.job }

module _ {W A B : Type 0} where
  Advances-continue :
      (f : A → M W B) (job : CPodJob) (r : Outcome A × State W)
      → ((a : A) → Moves (f a))
      → Advances job r.1.job
      → Advances job (continue f r).1.job
  unfolding continue
  Advances-continue f job (ok a, t) kf h = Advances-trans job t.job _ h ((kf a).at t)
  Advances-continue f job (err e, t) kf h = h
  Advances-continue f job (panic, t) kf h = h

  pub Moves-bind : (m : M W A) (f : A → M W B) → Moves m → ((a : A) → Moves (f a)) → Moves (m >>= f)
  Moves-bind m f km kf = record {
    at = λ s. rw bind-continue (Advances-continue f s.job (m s) kf (km.at s));
  }

  pub Moves-fetched :
      (answer : Fetched A) (f : A → M W B) (g : M W B) (h : Error → M W B) (k : M W B)
      → ((a : A) → Moves (f a))
      → Moves g
      → ((e : Error) → Moves (h e))
      → Moves k
      → Moves (elim answer [ found a ↦ f a | missing ↦ g | refused e ↦ h e | crashed ↦ k ])
  Moves-fetched (found a) f g h k pf pg ph pk = pf a
  Moves-fetched missing f g h k pf pg ph pk = pg
  Moves-fetched (refused e) f g h k pf pg ph pk = ph e
  Moves-fetched crashed f g h k pf pg ph pk = pk

module _ {W A : Type 0} where
  Advances-recover :
      (handler : M W (Unit {0})) (job : CPodJob) (r : Outcome A × State W)
      → Moves handler
      → Advances job r.1.job
      → Advances job (recover handler r).1.job
  unfolding recover
  Advances-recover handler job (ok a, t) kh h = h
  Advances-recover handler job (err e, t) kh h =
      Advances-trans job t.job _ h
        ((Moves-bind handler (λ _. throw e) kh (λ _. Moves-throw {A = A} e)).at t)
  Advances-recover handler job (panic, t) kh h = h

  pub Moves-on_error :
      (m : M W A) (handler : M W (Unit {0})) → Moves m → Moves handler → Moves (on_error m handler)
  Moves-on_error m handler km kh = record {
    at = λ s. rw on_error-recover (Advances-recover handler s.job (m s) kh (km.at s));
  }
