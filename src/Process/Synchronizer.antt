-- ===== src/Process/Synchronizer.antt =====
-- cmd/portalsynch/main.go: the synchronizer's program. Its flags and its environment are given as
-- values.
pub mod Silence
use cpodoperator.Base.{
  String, ◌≡◌, ◌↔◌, ℕ, ◌*◌, ◌≤◌, ◌<◌, Bool, true, false, Option, none, some, arith,
}
use cpodoperator.Base.Int.{ℤ, pos, ◌*ℤ◌, to_int64}
use cpodoperator.Kube.Outcome.{Outcome, ok, err, panic}
use cpodoperator.Sync.Provider.{Account}
use cpodoperator.Sync.Manager.{System, new_manager}
use cpodoperator.Process.Config.{Surroundings, get_client_config}

pub record Flags : Type 0 where
  pub sync_period : ℤ
  pub sxwl_base_url : String

-- The values of flags that are not given.
abbrev pub default_flags : Flags
default_flags = record { sync_period = pos 10; sxwl_base_url = "https://aiapi.yangapi.cn" }

-- `ACCESS_KEY` and `CPOD_ID`, empty where they are not set.
pub record Environment : Type 0 where
  pub access_key : String
  pub cpod_id : String

-- `time.Duration(syncPeriod)*time.Second`, which wraps around in int64.
unfoldable pub period_of : ℤ → ℤ
period_of n = to_int64 (n *ℤ pos 1000000000)

-- `NewScheduler`, with the identifier that `NewManager` gets too.
unfoldable pub account_of : Flags → Environment → Account
account_of f env = record {
  base_url = f.sxwl_base_url;
  access_key = env.access_key;
  identity = env.cpod_id;
}

-- What `main` starts.
pub record Started (W : Type 0) : Type 0 where
  pub account : Account
  pub period : ℤ
  pub system : System W

module _ {Config W : Type 0} (here : Surroundings Config) (new_client : Config → Option W) where
  with_client : Flags → Environment → Option W → Outcome (Started W)
  unfolding account_of period_of
  with_client f env none = panic
  with_client f env (some w) = ok (record {
    account = account_of f env;
    period = period_of f.sync_period;
    system = new_manager w;
  })

  with_config : Flags → Environment → Outcome Config → Outcome (Started W)
  unfolding with_client
  with_config f env (ok config) = with_client f env (new_client config)
  with_config f env (err e) = err e
  with_config f env panic = panic

  -- `main` up to `syncManager.Start`. After it the program waits for a context that is never done.
  unfoldable pub main : Flags → Environment → Outcome (Started W)
  unfolding with_config
  main f env = with_config f env (get_client_config here)

-- A period of a number of seconds in the range of `int` is as many nanoseconds exactly if they are at
-- most 9223372036 seconds, which is 292 years.
pub period_of-exact_iff :
    (n : ℕ)
    → n < 9223372036854775808
    → (period_of (pos n) ≡ pos (n * 1000000000)) ↔ (n ≤ 9223372036)
unfolding period_of to_int64 ◌*ℤ◌
period_of-exact_iff n h = (λ e. ground arith, λ e. ground arith)
