-- ===== src/Controller/Program/Post.antt =====
-- What holds after a program of a controller that ends well.
use cpodoperator.Base.{string_eq}
use cpodoperator.Base.Int.{int_eq}
use cpodoperator.Kube.Outcome.{Outcome, ok, err, panic}
use cpodoperator.Controller.Program.{State, M, ◌>>=◌, continue, bind-continue}

-- What holds of the value and the state of a program that ends well.
abbrev pub Post : {W A : Type 0} → (A → State W → Type 0) → Outcome A × State W → Type 0
Post Q (ok a, t) = Q a t
Post Q (err e, t) = Unit
Post Q (panic, t) = Unit

module _ {W A B : Type 0} (P : A → State W → Type 0) (Q : B → State W → Type 0) where
  Post-continue :
      (f : A → M W B) (r : Outcome A × State W)
      → Post P r
      → ((a : A) (t : State W) → P a t → Post Q (f a t))
      → Post Q (continue f r)
  unfolding continue
  Post-continue f (ok a, t) h k = k a t h
  Post-continue f (err e, t) h k = tt
  Post-continue f (panic, t) h k = tt

  pub Post-bind :
      (m : M W A) (f : A → M W B) (s : State W)
      → Post P (m s)
      → ((a : A) (t : State W) → P a t → Post Q (f a t))
      → Post Q ((m >>= f) s)
  Post-bind m f s h k = rw bind-continue (Post-continue f (m s) h k)

-- Nothing is said.
abbrev pub Any : {W A : Type 0} → A → State W → Type 0
Any a t = Unit

pub Any-Post : {W A : Type 0} (r : Outcome A × State W) → Post Any r
Any-Post (ok a, t) = tt
Any-Post (err e, t) = tt
Any-Post (panic, t) = tt
