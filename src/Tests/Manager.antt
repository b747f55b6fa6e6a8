-- ===== src/Tests/Manager.antt =====
-- A manager over one CPodJob, and the theorems on its runnables there.
use mathlib.Core.List.{Memᴰ}
use mathlib.Core.List.Memᴰ.{head}
use cpodoperator.Base.{◌≡◌, refl, none, some, List, [], ◌∷◌, ◌==◌, if◌then◌else◌, string_eq, arith}
use text.Mathlib.TextEquality.{eq_iff}
use cpodoperator.Api.Job.{CPodJob}
use cpodoperator.Sync.Buffer.{get_create_failed_jobs}
use cpodoperator.Sync.Status.{parse_status}
use cpodoperator.Sync.Manager.Statuses.{known_statuses, Reached-IsKnown}
use cpodoperator.Sync.Observer.{JobState, state_of, get_job_states, observe_jobs, observe_job}
use cpodoperator.Sync.Observer.Nodes.{gpu_summaries, stat_nodes}
use cpodoperator.Sync.Observer.Payload.{Payload, observe, get_resource_info, get_existing_artifacts}
use cpodoperator.Sync.Uploader.{upload, begin, after_send, after_upload, receive}
use cpodoperator.Sync.Uploader.Freshness.{newest}
use cpodoperator.Sync.Manager as Manager
use cpodoperator.Sync.Manager.{
  idle, Sight, System, Reached, new_manager, observed, observed_once, sent_over, uploaded_once,
  sync_step,
}
use cpodoperator.Sync.Manager.Buffers.{IsMap}
use cpodoperator.Sync.Manager.Reported.{Reached-IsObserved}
use cpodoperator.Sync.Manager.Newest.{Reached-newest}
use cpodoperator.Tests.Claims.{mpi_train}
use cpodoperator.Tests.Provider.{account, network, kube}

abbrev pub sight : Sight (List CPodJob)
sight = record {
  now = λ w. (w, 100);
  list_nodes = λ w. some [];
  list_models = λ w. some [];
  list_datasets = λ w. some [];
}

abbrev looked : System (List CPodJob)
looked = observed_once kube network sight account (new_manager (mpi_train ∷ []))

abbrev sent : Payload
sent = record {
  cpod_id = "cpod-1";
  job_status =
      (observe_jobs (observed kube network sight account) (mpi_train ∷ []) (mpi_train ∷ [])).1;
  resource_info = record {
    cpod_id = "cpod-1";
    cpod_version = "v1.0";
    gpu_summaries = [];
    cached_models = [];
    cached_datasets = [];
    cached_images = [];
    nodes = [];
  };
  update_time = 100;
}

abbrev beaten : System (List CPodJob)
beaten = uploaded_once kube network sight account (sent_over kube network sight account looked sent)

looked_waits : looked.waiting ≡ some sent
unfolding new_manager observed_once observe get_job_states observe_jobs observe_job
    get_resource_info get_existing_artifacts gpu_summaries stat_nodes get_create_failed_jobs
looked_waits = refl

looked_is_free : looked.exchange.link.channel ≡ none
unfolding new_manager observed_once begin
looked_is_free = refl

beaten-Reached : Reached kube network sight account beaten
unfolding new_manager
beaten-Reached =
    Manager.after
      (Manager.after (Manager.after (Manager.start (mpi_train ∷ [])) (Manager.look refl))
        (Manager.send sent looked_waits looked_is_free))
      Manager.beat

sent_is_uploaded : beaten.exchange.uploaded ≡ sent ∷ []
unfolding new_manager observed_once sent_over uploaded_once begin after_send after_upload upload
    receive
sent_is_uploaded = ground (arith, eq_iff "cpod-1" "")

Reached-IsObserved_example :
    (t : System (List CPodJob)) × Reached kube network sight account t
    × IsMap t.buffer
    × ((observe (observed kube network sight account) "cpod-1" t.buffer t.world).1 ≡ some sent)
Reached-IsObserved_example =
    Reached-IsObserved kube network sight account beaten sent beaten-Reached
      (rw sent_is_uploaded (head refl))

Reached-newest_example : (upload beaten.exchange.link).1 ≡ (
    if (newest beaten.exchange.sent).cpod_id == ""
    then none
    else some (newest beaten.exchange.sent))
Reached-newest_example = Reached-newest kube network sight account beaten beaten-Reached

abbrev train_state : JobState
train_state = state_of mpi_train (parse_status mpi_train.status)

train_is_reported : Memᴰ train_state sent.job_status
unfolding observe_jobs observe_job
train_is_reported = head refl

Reached-IsKnown_example : Memᴰ train_state.job_status known_statuses
Reached-IsKnown_example =
    Reached-IsKnown kube network sight account beaten sent train_state beaten-Reached
      (rw sent_is_uploaded (head refl)) train_is_reported
