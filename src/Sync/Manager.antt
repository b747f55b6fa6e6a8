-- ===== src/Sync/Manager.antt =====
-- internal/synchronizer/manager.go: `NewManager` and `Manager.Start`, which runs the synchronizer, the
-- observer and the uploader concurrently, each again and again. The steps of one pass of the
-- synchronizer are apart, since the others run between them.
pub mod Buffers
pub mod Reported
pub mod Newest
pub mod Statuses
use cpodoperator.Base.{
  String, ◌≡◌, ◌||◌, true, false, Bool, Option, none, some, List, [], ◌∷◌, ◌==◌, if◌then◌else◌,
  string_eq,
}
use cpodoperator.Base.Int.{ℤ, pos, ◌*ℤ◌, to_int64}
use cpodoperator.Api.Job.{CPodJob, Time}
use cpodoperator.Api.Storage.{DataSetStorage, CachedModel}
use cpodoperator.Kube.Objects.{Node}
use cpodoperator.Sync.Portal.{PortalJob, Cluster}
use cpodoperator.Sync.Buffer.{Buffer}
use cpodoperator.Sync.Jobs.{source_label, create_one, is_settled, has_portal_job}
use cpodoperator.Sync.Observer.{Observed}
use cpodoperator.Sync.Observer.Payload.{Payload, observe}
use cpodoperator.Sync.Uploader.{Exchange, begin, after_upload, after_send, upload}
use cpodoperator.Sync.Provider.{Account, Http, Kube, through_portal, heart_beat}

-- Where a pass of the synchronizer is: not begun, in the loop that creates CPodJobs, with the two
-- lists that were answered and the portal's jobs that are left, or in the loop that deletes, with the
-- CPodJobs that are left.
pub data Stage : Type 0 where
  idle : Stage
  creating : List CPodJob → List PortalJob → List PortalJob → Stage
  deleting : List PortalJob → List CPodJob → Stage

module _ (C : Cluster) where
  -- The lists that a pass begins with.
  with_assigned :
      List CPodJob → C.World × Option (List PortalJob) → Buffer → Stage × (C.World × Buffer)
  with_assigned cpodjobs (w, none) b = (idle, (w, b))
  with_assigned cpodjobs (w, some portal_jobs) b =
      (creating cpodjobs portal_jobs portal_jobs, (w, b))

  after_delete :
      List PortalJob → List CPodJob → C.World × Bool → Buffer → Stage × (C.World × Buffer)
  after_delete portal_jobs left (w, true) b = (deleting portal_jobs left, (w, b))
  after_delete portal_jobs left (w, false) b = (idle, (w, b))

  -- One step of `SyncJob.Start`.
  unfoldable pub sync_step : Stage × (C.World × Buffer) → Stage × (C.World × Buffer)
  unfolding with_assigned after_delete
  sync_step (idle, (w, b)) = elim (C.list_cpodjobs w source_label) [
    | none ↦ (idle, (w, b))
    | some cpodjobs ↦ with_assigned cpodjobs (C.get_assigned_job_list w) b
  ]
  sync_step (creating cpodjobs portal_jobs [], (w, b)) = (deleting portal_jobs cpodjobs, (w, b))
  sync_step (creating cpodjobs portal_jobs (job ∷ left), (w, b)) =
      (creating cpodjobs portal_jobs left, create_one C cpodjobs job (w, b))
  sync_step (deleting portal_jobs [], (w, b)) = (idle, (w, b))
  sync_step (deleting portal_jobs (job ∷ left), (w, b)) =
      if is_settled job || has_portal_job portal_jobs job.name
      then (deleting portal_jobs left, (w, b))
      else after_delete portal_jobs left (C.delete_cpodjob w job) b

-- What the observer calls of the cluster, but for the list of CPodJobs, which the synchronizer lists
-- too.
pub record Sight (W : Type 0) : Type 0 where
  pub now : W → W × Time
  pub list_nodes : W → Option (List Node)
  pub list_models : W → Option (List CachedModel)
  pub list_datasets : W → Option (List DataSetStorage)

-- The three runnables over one cluster and one portal: the synchronizer, the buffer of the jobs that
-- it could not create, a payload that the observer waits to send, and the observer and the uploader.
pub record System (W : Type 0) : Type 0 where
  pub world : W
  pub stage : Stage
  pub buffer : Buffer
  pub waiting : Option Payload
  pub exchange : Exchange

-- `NewManager`
unfoldable pub new_manager : {W : Type 0} → W → System W
unfolding begin
new_manager w = record { world = w; stage = idle; buffer = []; waiting = none; exchange = begin }

module _ {W : Type 0} (kube : Kube W) (H : Http W) (sight : Sight W) (a : Account) where
  -- `NewCPodObserver`
  abbrev pub observed : Observed
  observed = record {
    World = W;
    now = sight.now;
    list_cpodjobs = kube.list_cpodjobs;
    list_nodes = sight.list_nodes;
    list_models = sight.list_models;
    list_datasets = sight.list_datasets;
  }

  placed : System W → Stage × (W × Buffer) → System W
  placed s (stage, (w, b)) = record s { world = w; stage = stage; buffer = b }

  unfoldable pub synced : System W → System W
  unfolding placed
  synced s = placed s (sync_step (through_portal kube H a) (s.stage, (s.world, s.buffer)))

  -- `CPodObserver.Start` up to its send. The CPod's identifier is the portal's account.
  unfoldable pub observed_once : System W → System W
  observed_once s =
      let (w, p) = observe observed a.identity s.buffer s.world in
      record s { world = w; waiting = p }

  unfoldable pub sent_over : System W → Payload → System W
  sent_over s p = record s { waiting = none; exchange = after_send s.exchange p }

  deliver : Option Payload → W → W
  deliver none w = w
  deliver (some p) w = (heart_beat H a w p).0

  -- `Uploader.Start`
  unfoldable pub uploaded_once : System W → System W
  unfolding deliver
  uploaded_once s = record s {
    world = deliver (upload s.exchange.link).1 s.world;
    exchange = after_upload s.exchange;
  }

  -- What can happen next. The observer runs again once its send is done, and a send waits until the
  -- channel is empty.
  pub data Step (s : System W) : System W → Type 0 where
    synchronize : Step s (synced s)
    look : s.waiting ≡ none → Step s (observed_once s)
    send :
        (p : Payload) → s.waiting ≡ some p → s.exchange.link.channel ≡ none → Step s (sent_over s p)
    beat : Step s (uploaded_once s)
    elsewhere : (w : W) → Step s (record s { world = w })

  -- What `Manager.Start` can lead to, in any interleaving.
  pub data Reached : System W → Type 0 where
    start : (w : W) → Reached (new_manager w)
    after : {s t : System W} → Reached s → Step s t → Reached t
