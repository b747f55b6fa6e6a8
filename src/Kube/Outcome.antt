-- ===== src/Kube/Outcome.antt =====
-- How a call ends in Go: with a value, with an error, or by a panic.
use cpodoperator.Base.{String}

pub data Error : Type 0 where
  not_found already_exists : Error
  api_error : String → Error
  message : String → Error

pub data Outcome {ℓ} (A : Type ℓ) : Type ℓ where
  ok : A → Outcome A
  err : Error → Outcome A
  panic : Outcome A

-- `client.IgnoreAlreadyExists` on what a create returns.
unfoldable pub ignore_already_exists : Outcome (Unit {0}) → Outcome (Unit {0})
ignore_already_exists (err already_exists) = ok tt
ignore_already_exists r = r

-- An answer of the API server, as the code tells the cases apart: `apierrors.IsNotFound` is asked of
-- an error.
pub data Fetched {ℓ} (A : Type ℓ) : Type ℓ where
  found : A → Fetched A
  missing : Fetched A
  refused : Error → Fetched A
  crashed : Fetched A

unfoldable pub fetched {ℓ} : {A : Type ℓ} → Outcome A → Fetched A
fetched (ok a) = found a
fetched (err not_found) = missing
fetched (err e) = refused e
fetched panic = crashed
