-- ===== src/Tests/Observer.antt =====
-- The theorems on internal/synchronizer/cpodobserver.go at a cluster in memory.
use cpodoperator.Base.{
  ◌==◌, ◌+◌, ◌*◌, ◌<◌, ◌≡◌, ◌≢◌, ◌↔◌, ◌⊎◌, refl, true, none, some, List, [], ◌∷◌, ◌++◌, map,
  string_eq, arith, All, if◌then◌else◌, String-discrete,
}
use mathlib.Core.Option
use cpodoperator.Base.Int.{pos, negsuc}
use cpodoperator.Api.Job.{
  CPodJob, job_condition_type_eq, JobConditionType-discrete, condition_status_eq,
  ConditionStatus-discrete, model_uploaded, model_uploading,
}
use cpodoperator.Status.{find_condition, is_finished, is_status_condition_true}
use cpodoperator.Kube.Objects.{Node}
use cpodoperator.Controller.Build.{build_base_job}
use cpodoperator.Controller.Create.{base_kind}
use cpodoperator.Controller.Reconcile.{need_reconcile}
use cpodoperator.Kube.Outcome.{ok}
use cpodoperator.Sync.Status.{parse_status}
use cpodoperator.Sync.Status.Agrees.{is_settled_iff}
use cpodoperator.Sync.Jobs.{is_settled, job_type_check, new_cpodjob}
use cpodoperator.Sync.Jobs.Deletion.{doomed}
use cpodoperator.Sync.Jobs.Endings.{IsAbandoned, doomed-IsAbandoned}
use cpodoperator.Sync.Jobs.Startable.{new_cpodjob-build_base_job}
use cpodoperator.Sync.Buffer.{Buffer, get_create_failed_jobs}
use cpodoperator.Sync.Text.{to_lower, codes_eq, Codes-discrete}
use cpodoperator.Base.{nat_eq, ℕ_discrete}
use cpodoperator.Sync.Observer.{Observed, is_over, observe_job, observe_jobs, get_job_states}
use cpodoperator.Sync.Observer.Limits.{
  is_over_iff, reported_as, observe_job_of_limited, reported_names, names_of, observe_jobs-names,
}
use cpodoperator.Sync.Observer.Nodes.{NodeInfo, node_info, gpu_summaries, atoi, stat_nodes}
use cpodoperator.Sync.Observer.Nodes.Summaries.{tally, summary, find_summary, gpu_summaries-tally}
use cpodoperator.Sync.Observer.Payload.{
  Payload, observe, failed_names, observe-names, create_failed_state, get_resource_info,
  get_existing_artifacts,
}
use cpodoperator.Sync.Uploader.{Exchange, begin, after_send, upload, send, start, step}
use cpodoperator.Sync.Uploader.Freshness.{newest, upload-newest}
use cpodoperator.Tests.Memory.{Memory, kubeflow, empty}
use cpodoperator.Tests.Claims.{mpi_train, plan}
use cpodoperator.Tests.Status.{of_running}
use cpodoperator.Tests.Sync.{mpi_job_of}

abbrev gpu_node : Node
gpu_node = record {
  name = "node";
  labels = ("nvidia.com/gpu.product", "A100") ∷ ("nvidia.com/gpu.count", "8") ∷ [];
  os_image = "Ubuntu";
  cpu = pos 64;
  memory = pos 1073741824;
  allocatable_gpus = some (pos 7);
}

abbrev observed : Observed
observed = record {
  World = Memory;
  now = λ m. (m, m.clock);
  list_cpodjobs = λ m labels. some m.jobs;
  list_nodes = λ m. some (gpu_node ∷ []);
  list_models = λ m. some [];
  list_datasets = λ m. some [];
}

abbrev job : CPodJob
job = record mpi_train { status = of_running }

abbrev limited : CPodJob
limited = record job { spec = record mpi_train.spec { duration = pos 30 } }

abbrev pub world : Memory
world = record empty { jobs = job ∷ limited ∷ [] }

atoi_test : atoi "-12" ≡ negsuc 11
unfolding atoi nat_eq ℕ_discrete
atoi_test = refl

is_settled_iff_test : (is_settled job ≡ true) ↔ (
    (is_finished job.status ≡ true)
    ⊎ ((is_status_condition_true job.status model_uploaded ≡ true)
        ⊎ (is_status_condition_true job.status model_uploading ≡ true)))
unfolding find_condition job_condition_type_eq JobConditionType-discrete
is_settled_iff_test = is_settled_iff job (refl, (refl, tt))

doomed-IsAbandoned_test : All (IsAbandoned []) (doomed [] (job ∷ []))
unfolding find_condition job_condition_type_eq JobConditionType-discrete
doomed-IsAbandoned_test = doomed-IsAbandoned [] (job ∷ []) ((refl, (refl, tt)), tt)

new_cpodjob-build_base_job_example :
    (base_kind (new_cpodjob (mpi_job_of "first") "mpi").spec.job_type ≢ none)
    × (build_base_job kubeflow (new_cpodjob (mpi_job_of "first") "mpi") plan ≢ ok none)
    × (need_reconcile (new_cpodjob (mpi_job_of "first") "mpi") ≡ true)
unfolding job_type_check to_lower codes_eq Codes-discrete nat_eq ℕ_discrete
new_cpodjob-build_base_job_example =
    new_cpodjob-build_base_job kubeflow (mpi_job_of "first") plan "mpi" refl

is_over_iff_example :
    (is_over 1800000000001 limited ≡ true) ↔ (0 + 30 * 60000000000 < 1800000000001)
is_over_iff_example = is_over_iff 1800000000001 limited 30 refl (omega arith)

-- One nanosecond after the end of its thirty minutes.
abbrev late : Memory
late = record world { clock = 1800000000001 }

observe_job_of_limited_example :
    observe_job observed late limited
    ≡ (late, reported_as limited "succeeded" "timeup when running")
unfolding parse_status job_condition_type_eq JobConditionType-discrete condition_status_eq
    ConditionStatus-discrete String-discrete
observe_job_of_limited_example =
    observe_job_of_limited observed late limited 30 refl (omega arith) (omega arith)

observe_jobs-names_example :
    map reported_names (observe_jobs observed world (job ∷ limited ∷ [])).1
    ≡ map names_of (job ∷ limited ∷ [])
observe_jobs-names_example = observe_jobs-names observed world (job ∷ limited ∷ [])

abbrev nodes : List NodeInfo
nodes = node_info gpu_node ∷ node_info gpu_node ∷ []

gpu_summaries-tally_example :
    find_summary ("nvidia", "A100") (gpu_summaries nodes)
    ≡ Option.map
        (λ n.
          summary
            ("nvidia", "A100")
            n
            (tally (λ node. node.gpu_allocatable) ("nvidia", "A100") nodes none))
        (tally (λ node. node.gpu_total) ("nvidia", "A100") nodes none)
gpu_summaries-tally_example = gpu_summaries-tally nodes ("nvidia", "A100")

abbrev failed_jobs : Buffer
failed_jobs = ("other", mpi_job_of "other") ∷ []

abbrev pub idle : Observed
idle = record observed { list_nodes = λ m. some [] }

abbrev pub payload_for : Buffer → Payload
payload_for b = record {
  cpod_id = "cpod-1";
  job_status =
      (observe_jobs idle world world.jobs).1 ++ map create_failed_state (get_create_failed_jobs b);
  resource_info = record {
    cpod_id = "cpod-1";
    cpod_version = "v1.0";
    gpu_summaries = [];
    cached_models = [];
    cached_datasets = [];
    cached_images = [];
    nodes = [];
  };
  update_time = 100;
}

abbrev payload : Payload
payload = payload_for failed_jobs

observe-names_test :
    map reported_names payload.job_status
    ≡ map names_of world.jobs ++ map failed_names (get_create_failed_jobs failed_jobs)
unfolding observe get_job_states observe_jobs observe_job get_resource_info get_existing_artifacts
    gpu_summaries stat_nodes
observe-names_test = observe-names idle "cpod-1" failed_jobs world payload world.jobs refl refl

abbrev exchange : Exchange
unfolding begin after_send
exchange = after_send begin payload

upload-newest_test :
    (upload exchange.link).1
    ≡ (if (newest exchange.sent).cpod_id == "" then none else some (newest exchange.sent))
unfolding begin exchange
upload-newest_test = upload-newest exchange (step start (send payload refl))
