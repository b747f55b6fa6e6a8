-- ===== src/Controller/Queue.antt =====
-- internal/controller/cpodjob_controller.go: `SetupWithManager`, and the work queue that drives
-- `Reconcile`.
pub mod Isolation
pub mod Kept
pub mod Watched
use cpodoperator.Base.{
  String, ◌≡◌, ◌≢◌, ◌==◌, ◌&&◌, ◌||◌, Bool, true, false, if◌then◌else◌, string_eq,
}
use cpodoperator.Api.Job.{CPodJob, Time}
use cpodoperator.Kube.Objects.{Key}
use cpodoperator.Kube.Outcome.{Outcome, ok, err, panic}
use cpodoperator.Kube.Client.{Client, Kubeflow}
use cpodoperator.Controller.Program.{Options}
use cpodoperator.Controller.Reconcile.{
  Result, finished, requeue, reconcile, Created, on_owner_create,
}

-- What a CPodJob owns.
pub data Owned : Type 0 where
  mpi pytorch claim upload : Owned

-- What the API server tells of: the creation of an object, any other change of a CPodJob, and any
-- change of an object that one owns.
pub data Event : Type 0 where
  appeared : Created → Event
  altered : Event
  of_owned : Owned → Event

-- What controller-runtime decides: whether a key is to be run again after an outcome of its run, and
-- what a predicate answers that has no function for the kind of event.
pub record Rules : Type 0 where
  pub asks_again : Outcome Result → Bool
  pub without_func : Bool

-- What is documented: a key is done with only after a run with no error, no requeue and no panic
-- (after a panic the process starts again and is told of every object), and an event passes for
-- which the predicate has no function.
pub record IsDocumented (rules : Rules) : Type 0 where
  pub done_only : (o : Outcome Result) → rules.asks_again o ≡ false → o ≡ ok finished
  pub passes : rules.without_func ≡ true

-- `SetupWithManager`: which events put a CPodJob into the queue. The predicate has a function for
-- creations alone. Of the objects that are owned, only the `MPIJob`s are watched.
unfoldable pub wakes : Rules → Time → Event → Bool
wakes rules now (appeared o) = let (passes, after, counted) = on_owner_create now o in passes
wakes rules now altered = rules.without_func
wakes rules now (of_owned mpi) = true
wakes rules now (of_owned pytorch) = false
wakes rules now (of_owned claim) = false
wakes rules now (of_owned upload) = false

unfoldable pub same_key : Key → Key → Bool
same_key a b = a.namespace == b.namespace && a.name == b.name

-- The controller: the cluster, of which CPodJobs a change has not been told of yet, and which keys
-- are in the queue.
pub record System (W : Type 0) : Type 0 where
  pub world : W
  pub untold : Key → Bool
  pub queued : Key → Bool

-- The CPodJob of a key is created, changed or deleted, and the cluster is as given then.
unfoldable pub change : {W : Type 0} → Key → W → System W → System W
change key w s = record s { world = w; untold = λ k. if same_key k key then true else s.untold k }

-- The controller is told of an event of the CPodJob of a key.
unfoldable pub notice : {W : Type 0} → Rules → Time → Event → Key → System W → System W
notice rules now event key s = record s {
  untold = λ k. if same_key k key then false else s.untold k;
  queued = λ k. if same_key k key then s.queued k || wakes rules now event else s.queued k;
}

-- The controller is told of an event of an object that the CPodJob of a key owns.
unfoldable pub notice_owned : {W : Type 0} → Rules → Time → Owned → Key → System W → System W
notice_owned rules now o key s = record s {
  queued = λ k. if same_key k key then s.queued k || wakes rules now (of_owned o) else s.queued k;
}

module _ (C : Client) (options : Options) (kf : Kubeflow) (rules : Rules) where
  -- A run of `Reconcile` on a key.
  unfoldable pub work : Key → System C.World → System C.World
  work key s =
      let (w, outcome) = reconcile C options kf s.world key in
      record s {
        world = w;
        queued = λ k. if same_key k key then rules.asks_again outcome else s.queued k;
      }

  -- What can happen, in any order: a queued key is worked on, a CPodJob changes, anything else
  -- changes, and the controller is told of an event.
  pub data Step (s : System C.World) : System C.World → Type 0 where
    worked : (key : Key) → s.queued key ≡ true → Step s (work key s)
    changed :
        (key : Key) (w : C.World)
        → ((k : Key) → k ≢ key → C.get_cpodjob w k ≡ C.get_cpodjob s.world k)
        → Step s (change key w s)
    elsewhere :
        (w : C.World)
        → ((k : Key) → C.get_cpodjob w k ≡ C.get_cpodjob s.world k)
        → Step s (record s { world = w })
    told_created :
        (now : Time) (o : Created) (key : Key) → Step s (notice rules now (appeared o) key s)
    told_altered : (now : Time) (key : Key) → Step s (notice rules now altered key s)
    told_owned : (now : Time) (o : Owned) (key : Key) → Step s (notice_owned rules now o key s)

  -- The states that are reached from a start at which every stored CPodJob is about to be listed.
  pub data Reached : System C.World → Type 0 where
    begun :
        {s : System C.World}
        → ((k : Key) (job : CPodJob) → C.get_cpodjob s.world k ≡ ok job → s.untold k ≡ true)
        → Reached s
    after : {s t : System C.World} → Reached s → Step s t → Reached t
