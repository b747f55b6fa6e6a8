-- ===== src/Tests/Process.antt =====
-- The two programs in surroundings where every call succeeds, and the theorems on them there.
use cpodoperator.Base.{
  false, ℕ, ◌+◌, String, ◌≡◌, ◌↔◌, refl, ◌==◌, ◌&&◌, true, if◌then◌else◌, none, some, List, [], ◌∷◌,
  ◌*◌, ◌≤◌, arith, string_eq, String-discrete,
}
use cpodoperator.Base.Int.{pos}
use cpodoperator.Api.Job.{CPodJob}
use cpodoperator.Controller.Reconcile.{Created}
use cpodoperator.Controller.Metrics.{CounterVec, Counts, counted, counted-jobs_among}
use cpodoperator.Sync.Manager as Manager
use cpodoperator.Sync.Manager.{
  System, Reached, new_manager, observed_once, sent_over, uploaded_once,
}
use cpodoperator.Process.Operator as Operator
use cpodoperator.Process.Operator.{
  Group, Runtime, ManagerOptions, Exit, returned, groups, manager_options,
}
use cpodoperator.Process.Operator.Setup.{Registers, known_groups, IsServed, main-IsServed}
use cpodoperator.Process.Synchronizer as Synchronizer
use cpodoperator.Process.Synchronizer.{Environment, account_of, period_of, period_of-exact_iff}
use cpodoperator.Process.Synchronizer.Silence.{main-silent}
use cpodoperator.Tests.Claims.{mpi_train}
use cpodoperator.Tests.Provider.{network, kube}
use cpodoperator.Tests.Manager.{sight}

-- A run is the number of the calls that were made.
abbrev runtime : Runtime
runtime = record {
  World = ℕ;
  Config = Unit {0};
  Manager = Unit {0};
  add_to_scheme = λ w g. (w + 1, true);
  get_config = λ w. some tt;
  new_manager = λ w config options. (w + 1, some tt);
  setup_cpodjob_reconciler = λ w mgr options. (w + 1, true);
  add_healthz_check = λ w mgr. (w + 1, true);
  add_readyz_check = λ w mgr. (w + 1, true);
  start_manager = λ w mgr. (w + 1, true);
}

main-IsServed_example : (Operator.main runtime Operator.default_flags 0 ≡ (10, returned)) ↔ (
    (u : ℕ) × Registers runtime (known_groups runtime) 0 u
    × ((config : Unit {0}) × (x : ℕ) × (mgr : Unit {0}) × (runtime.get_config u ≡ some config)
        × (runtime.new_manager u config (record {
          bind_address = ":8080";
          health_probe_bind_address = ":8081";
          leader_election = false;
          leader_election_id = "2ca7307e.sxwl.ai";
        })
            ≡ (x, some mgr))
        × IsServed runtime Operator.default_flags mgr x 10))
main-IsServed_example = main-IsServed runtime Operator.default_flags 0 10

period_of-exact_iff_test : (period_of (pos 10) ≡ pos (10 * 1000000000)) ↔ (10 ≤ 9223372036)
period_of-exact_iff_test = period_of-exact_iff 10 (omega arith)

abbrev bare : Environment
bare = record { access_key = "key"; cpod_id = "" }

abbrev begun : System (List CPodJob)
begun = new_manager (mpi_train ∷ [])

abbrev looked : System (List CPodJob)
looked = observed_once kube network sight (account_of Synchronizer.default_flags bare) begun

abbrev beaten : System (List CPodJob)
beaten = uploaded_once kube network sight (account_of Synchronizer.default_flags bare) looked

begun_is_free : begun.waiting ≡ none
unfolding new_manager
begun_is_free = refl

main-silent_example : beaten.exchange.uploaded ≡ []
main-silent_example = main-silent kube network sight Synchronizer.default_flags bare beaten refl (
    Manager.after (Manager.after (Manager.start (mpi_train ∷ [])) (Manager.look begun_is_free))
      Manager.beat)

abbrev counters : CounterVec
counters = record {
  Counters = String → String → ℕ;
  inc = λ c a b a' b'. if a == a' && b == b' then c a' b' + 1 else c a' b';
  value = λ c a b. c a b;
}

counters-Counts : Counts counters
counters-Counts = record { counts_up = λ c a b a' b'. refl }

counted-jobs_among_test :
    counted counters
      ((100, Created.of_job mpi_train) ∷ (101, Created.of_other) ∷ [])
      (λ a b. 0)
      "cpod"
      "mpi"
    ≡ 1
unfolding string_eq String-discrete
counted-jobs_among_test =
    counted-jobs_among counters ((100, Created.of_job mpi_train) ∷ (101, Created.of_other) ∷ [])
      (λ a b. 0) "cpod" "mpi" counters-Counts
