-- ===== src/Controller/Effects/Rules.antt =====
-- One rule for each way to build a program of internal/controller/cpodjob_controller.go that does no
-- more to the cluster than is done on behalf of its CPodJob.
use cpodoperator.Base.{String, ◌≡◌, refl, Bool, true, false, Option, none, some, if◌then◌else◌}
use cpodoperator.Api.Job.{CPodJob, CPodJobStatus}
use cpodoperator.Kube.Outcome.{
  Error, Outcome, ok, err, panic, Fetched, found, missing, refused, crashed,
}
use cpodoperator.Kube.Client.{Client}
use cpodoperator.Controller.Program.{
  continue, bind-continue, recover, on_error-recover, State, M, pure, throw, crash, ◌>>=◌, on_error,
  ask, call, get_job, get_now, warn, set_status, deref,
}
use cpodoperator.Controller.Effects.{
  Identity, identity, Calls, Calls-trans, none_made, read_clock, record_event,
}

abbrev pub Valued : {A : Type 0} → (A → Type 0) → Outcome A → Type 0
Valued P (ok a) = P a
Valued P (err e) = Unit
Valued P panic = Unit

abbrev pub Anything : {A : Type 0} → A → Type 0
Anything a = Unit

pub anything : {A : Type 0} (o : Outcome A) → Valued Anything o
anything (ok a) = tt
anything (err e) = tt
anything panic = tt

module _ (C : Client) (id : Identity) where
  -- How a program may end that started in `w`: with calls on behalf of the CPodJob, the CPodJob in
  -- memory still the same one, and a value, if there is one, that has `P`.
  pub record Ends {A : Type 0} (P : A → Type 0) (w : C.World) (r : Outcome A × State C.World)
      : Type 0 where
    pub calls : Calls C id w r.1.world
    pub same : identity r.1.job ≡ id
    pub value : Valued P r.0

  pub record Does {A : Type 0} (P : A → Type 0) (m : M C.World A) : Type 0 where
    pub at : (s : State C.World) → identity s.job ≡ id → Ends P s.world (m s)

  -- An end in the world of the start.
  here_Ends :
      {A : Type 0} (P : A → Type 0) (o : Outcome A) (s : State C.World)
      → identity s.job ≡ id
      → Valued P o
      → Ends P s.world (o, s)
  here_Ends P o s e p = record { calls = none_made; same = e; value = p }

  module _ {A : Type 0} (P : A → Type 0) where
    pub Does-pure : (a : A) → P a → Does P (pure a)
    Does-pure a p = record { at = λ s e. here_Ends P (ok a) s e p }

    pub Does-throw : (x : Error) → Does P (throw x)
    Does-throw x = record { at = λ s e. here_Ends P (err x) s e tt }

    pub Does-crash : Does P crash
    Does-crash = record { at = λ s e. here_Ends P panic s e tt }

    pub Does-deref : (o : Option A) → ((a : A) → o ≡ some a → P a) → Does P (deref o)
    Does-deref none p = Does-crash
    Does-deref (some a) p = Does-pure a (p a refl)

    pub Does-if : (b : Bool) (m n : M C.World A) → Does P m → Does P n → Does P (if b then m else n)
    Does-if true m n p q = p
    Does-if false m n p q = q

    pub Does-fetched :
        {B : Type 0} (answer : Fetched B) (f : B → M C.World A) (g : M C.World A)
        (h : Error → M C.World A) (k : M C.World A)
        → ((b : B) → Does P (f b))
        → Does P g
        → ((x : Error) → Does P (h x))
        → Does P k
        → Does P (elim answer [ found b ↦ f b | missing ↦ g | refused x ↦ h x | crashed ↦ k ])
    Does-fetched (found b) f g h k pf pg ph pk = pf b
    Does-fetched missing f g h k pf pg ph pk = pg
    Does-fetched (refused x) f g h k pf pg ph pk = ph x
    Does-fetched crashed f g h k pf pg ph pk = pk

    -- A call of the cluster that is one of the calls.
    pub Does-call :
        (f : C.World → C.World × Outcome A)
        → ((w : C.World) → Calls C id w (f w).0 × Valued P (f w).1)
        → Does P (call f)
    Does-call f p = record {
      at = λ s e. record { calls = (p s.world).0; same = e; value = (p s.world).1 };
    }

  pub Does-ask : {A : Type 0} (get : C.World → Outcome A) → Does Anything (ask get)
  Does-ask get = record { at = λ s e. here_Ends Anything _ s e tt }

  pub Does-get_job : Does (λ job. identity job ≡ id) get_job
  Does-get_job = record { at = λ s e. here_Ends (λ job. identity job ≡ id) (ok s.job) s e e }

  pub Does-set_status : (status : CPodJobStatus) → Does Anything (set_status status)
  Does-set_status status = record { at = λ s e. record { calls = none_made; same = e; value = tt } }

  pub Does-get_now : Does Anything (get_now C)
  Does-get_now = record {
    at = λ s e. record { calls = read_clock none_made; same = e; value = tt };
  }

  pub Does-warn : (reason text : String) → Does Anything (warn C reason text)
  Does-warn reason text = record {
    at = λ s e. record { calls = record_event s.job reason text none_made e; same = e; value = tt };
  }

  module _ {A B : Type 0} (P : A → Type 0) (Q : B → Type 0) where
    Ends-continue :
        (w : C.World) (f : A → M C.World B) (r : Outcome A × State C.World)
        → ((a : A) → P a → Does Q (f a))
        → Ends P w r
        → Ends Q w (continue f r)
    unfolding continue
    Ends-continue w f (ok a, t) k h =
        let after = (k a h.value).at t h.same in
        record {
          calls = Calls-trans C id w t.world _ h.calls after.calls;
          same = after.same;
          value = after.value;
        }
    Ends-continue w f (err x, t) k h = record { calls = h.calls; same = h.same; value = tt }
    Ends-continue w f (panic, t) k h = record { calls = h.calls; same = h.same; value = tt }

    pub Does-bind :
        (m : M C.World A) (f : A → M C.World B)
        → Does P m
        → ((a : A) → P a → Does Q (f a))
        → Does Q (m >>= f)
    Does-bind m f p k = record {
      at = λ s e. rw bind-continue (Ends-continue s.world f (m s) k (p.at s e));
    }

  -- The bind where nothing is known of the value, and the one that reads the CPodJob.
  pub Does-step :
      {A B : Type 0} (Q : B → Type 0) (m : M C.World A) (f : A → M C.World B)
      → Does Anything m
      → ((a : A) → Does Q (f a))
      → Does Q (m >>= f)
  Does-step Q m f p k = Does-bind Anything Q m f p (λ a u. k a)

  pub Does-with_job :
      {B : Type 0} (Q : B → Type 0) (f : CPodJob → M C.World B)
      → ((job : CPodJob) → identity job ≡ id → Does Q (f job))
      → Does Q (get_job >>= f)
  Does-with_job Q f k = Does-bind (λ job. identity job ≡ id) Q get_job f Does-get_job k

  module _ {A : Type 0} (P : A → Type 0) where
    Ends-recover :
        (w : C.World) (handler : M C.World (Unit {0})) (r : Outcome A × State C.World)
        → Does Anything handler
        → Ends P w r
        → Ends P w (recover handler r)
    unfolding recover
    Ends-recover w handler (ok a, t) k h = h
    Ends-recover w handler (err x, t) k h =
        let after =
          (Does-bind Anything P handler (λ u. throw x) k (λ u q. Does-throw P x)).at t h.same in
        record {
          calls = Calls-trans C id w t.world _ h.calls after.calls;
          same = after.same;
          value = after.value;
        }
    Ends-recover w handler (panic, t) k h = h

    pub Does-on_error :
        (m : M C.World A) (handler : M C.World (Unit {0}))
        → Does P m
        → Does Anything handler
        → Does P (on_error m handler)
    Does-on_error m handler p k = record {
      at = λ s e. rw on_error-recover (Ends-recover s.world handler (m s) k (p.at s e));
    }
