-- ===== src/Tests/Models.antt =====
-- A cluster and a hub in memory for the controller of the ModelStorages, and its theorems there.
use cpodoperator.Base.{
  ℕ, ◌+◌, ◌≤◌, ◌<◌, ◌≡◌, refl, ◌==◌, ◌&&◌, false, if◌then◌else◌, Option, none, some, [], ◌∷◌,
  String-discrete, string_eq, nat_eq, arith,
}
use text.Mathlib.TextEquality.{eq_iff}
use cpodoperator.Base.Int.{pos, int_eq}
use cpodoperator.Api.Storage.{ModelStorage, ModelStorageStatus, phase_done, phase_syncing}
use cpodoperator.Kube.Objects.{Key, BatchJob, restart_on_failure}
use cpodoperator.Kube.Outcome.{Outcome, ok, err, not_found}
use cpodoperator.Models.Hub.{HubFile, FilesResp, got, size_of_files}
use cpodoperator.Models.Storage.{Options, Client, finished, claim_bytes, reconcile}
use cpodoperator.Models.Storage.Steps.{IsStore, key_of}
use cpodoperator.Models.Storage.Holds.{Reached}
use cpodoperator.Models.Storage.Reached.{reconcile-Reached}
use cpodoperator.Models.Storage.Invariants.{IsOrdered, start, reconciled, Run-IsOrdered}
use cpodoperator.Models.Storage.Progress.{reconcile_completes}
use cpodoperator.Models.Sizes.{size_of_files-claim_bytes}

abbrev file : ℕ → HubFile
file size = record {
  commit_message = "";
  committed_date = pos 0;
  committer_name = "";
  in_check = false;
  is_lfs = false;
  mode = "";
  name = "weights";
  path = "weights";
  revision = "";
  sha256 = "";
  size = pos size;
  type = "blob";
}

abbrev files : FilesResp
files = record { code = pos 200; content = some (file 1073741824 ∷ file 1 ∷ []) }

abbrev read_at : Key → Option ModelStorage → Outcome ModelStorage
read_at key none = err not_found
read_at key (some s) =
    if key.namespace == s.namespace && key.name == s.name then ok s else err not_found

abbrev ended_job : BatchJob
ended_job = record {
  name = "job-llama";
  namespace = "cpod";
  labels = [];
  owners = [];
  backoff_limit = none;
  completions = none;
  parallelism = none;
  pod = record {
    containers = [];
    volumes = [];
    node_selector = [];
    host_ipc = false;
    restart_policy = restart_on_failure;
  };
  succeeded = pos 1;
  failed = pos 0;
}

abbrev read_download : Key → Outcome BatchJob
read_download key =
    if key.namespace == "cpod" && key.name == "job-llama" then ok ended_job else err not_found

abbrev store : Client
store = record {
  World = Option ModelStorage;
  net = record {
    join_path = λ base parts. some base;
    parse_url = λ url. some url;
    get = λ w url. some (record { status_code = pos 200; body = some "files" });
    decode_files = λ text. some files;
  };
  get_storage = λ w key. read_at key w;
  update_status = λ w s. (some s, ok tt);
  create_pvc = λ w c. (w, ok tt);
  create_job = λ w j. (w, ok tt);
  get_job = λ w key. read_download key;
}

read_at-key_of :
    (k : Key) (w : Option ModelStorage) (s : ModelStorage) → read_at k w ≡ ok s → key_of s ≡ k
read_at-key_of k none s h = cc
read_at-key_of k (some t) s h = ground arith

read_at-written : (s : ModelStorage) → read_at (key_of s) (some s) ≡ ok s
read_at-written s = ground arith

store-IsStore : IsStore store
store-IsStore = record {
  named = λ w k s h. read_at-key_of k w s h;
  written = λ w s h. read_at-written s;
  unwritten = λ w s k h. absurd (h refl);
  claims_apart = λ w c k. refl;
  jobs_apart = λ w j k. refl;
}

abbrev new_storage : ModelStorage
new_storage = record {
  name = "llama";
  namespace = "cpod";
  uid = "u1";
  spec = record { name = "llama"; type = "modelscope" };
  status = record {
    phase = "";
    target_pvc_name = "";
    target_download_job_name = "";
    failure_message = none;
  };
}

abbrev storage_options : Options
storage_options = record { downloader_image = "git:v1"; storage_class_name = "standard" }

abbrev storage_key : Key
storage_key = record { namespace = "cpod"; name = "llama" }

reconcile-Reached_example :
    Reached store storage_key new_storage
      (reconcile store storage_options (some new_storage) storage_key).0
unfolding string_eq String-discrete
reconcile-Reached_example =
    reconcile-Reached store storage_key new_storage store-IsStore storage_options (some new_storage)
      refl

Run-IsOrdered_test :
    (t : ModelStorage) × (store.get_storage
        (reconcile store storage_options (some new_storage) storage_key).0
        storage_key
      ≡ ok t)
    × IsOrdered t
unfolding string_eq String-discrete
Run-IsOrdered_test =
    Run-IsOrdered store storage_options storage_key (some new_storage)
      (reconcile store storage_options (some new_storage) storage_key).0 new_storage store-IsStore
      refl (λ named. absurd (named refl)) (reconciled start)

abbrev named_storage : ModelStorage
named_storage = record new_storage {
  status = record {
    phase = phase_syncing;
    target_pvc_name = "pvc-llama";
    target_download_job_name = "job-llama";
    failure_message = none;
  };
}

abbrev done_status : ModelStorageStatus
done_status = record named_storage.status { phase = phase_done }

job_is_read : read_download (record { namespace = "cpod"; name = "job-llama" }) ≡ ok ended_job
unfolding string_eq String-discrete
job_is_read = refl

reconcile_completes_example :
    (reconcile store storage_options (some named_storage) storage_key
      ≡ (some (record named_storage { status = done_status }), ok finished))
    × (read_at storage_key (some (record named_storage { status = done_status }))
        ≡ ok (record named_storage { status = done_status }))
unfolding string_eq String-discrete
reconcile_completes_example =
    reconcile_completes store storage_options (some named_storage) named_storage storage_key
      ended_job store-IsStore refl refl (ground (arith, eq_iff "pvc-llama" ""))
      (ground (arith, eq_iff "job-llama" "")) job_is_read refl refl

abbrev ended : Option ModelStorage
ended = (reconcile store storage_options (some named_storage) storage_key).0

size_of_files-claim_bytes_example :
    (g : ℕ) × (b : ℕ) × (size_of_files files ≡ got (pos g))
    × (claim_bytes (pos g) ≡ pos b)
    × (1073741825 ≤ b)
    × (b < 1073741825 + 1073741824)
size_of_files-claim_bytes_example =
    size_of_files-claim_bytes files (file 1073741824 ∷ file 1 ∷ []) (1073741824 ∷ 1 ∷ []) refl
      (refl, (refl, tt)) (omega arith)
