-- ===== src/Lib.antt =====
-- cpodoperator: a Kubernetes operator for training jobs, and the synchronizer that ties it to a
-- portal. A user, or the portal through the synchronizer, creates a CPodJob. The operator's
-- controller makes of it a base job of Kubeflow (an MPIJob or a PyTorchJob) with its volumes,
-- reads how the base job goes, and uploads the model that it saved. The synchronizer creates the
-- CPodJobs that the portal has assigned, deletes those that it has no more, and reports their
-- states.
--
-- - Base: equality with a Boolean test, Go's machine integers, lists over the native numbers.
-- - Api.Job, Api.Storage: api/v1beta1/cpodjob_types.go, api/v1 (the storages' fields that are
--   read). Api.Heap, Refs and Copies: api/v1beta1/zz_generated.deepcopy.go over a memory of cells,
--   for the copy of the old status that Reconcile takes; elsewhere values stand for structs.
-- - Kube: the objects of Kubernetes and Kubeflow with the fields that the code sets or reads,
--   how a call ends in Go (a value, an error, a panic), and the clients.
-- - Status: pkg/util/status.go. UpdateJobConditions is update_job_conditions, setCondition is
--   set_condition, IsFinshed is is_finished, and so on. Status/Lookup sees the list of
--   conditions as a map, Status/WellFormed says that it is one, Status/Progress how a job's
--   states move.
-- - Controller: internal/controller/cpodjob_controller.go, as programs over the cluster and the
--   CPodJob in memory (Controller/Program). Claims: GetCKPTPVC, GetModelSavePVC. Report:
--   GetBaseJobStatus, UpdateStatus. Mounts, Build and Create: the three parts of CreateBaseJob,
--   with needAllocateRDMADevice and GetBaseJob. Upload: uploadSavedModel. Reconcile: Reconcile,
--   needReconcile, onOwnerCreateFunc. Advance: the order on CPodJobs that every program of the
--   controller moves a job up in, with one rule for each way to build a program. Effects: the
--   calls that the programs make on behalf of a CPodJob, with rules of the same kind. Runs:
--   reconciliations of one CPodJob with changes elsewhere between them, over a store;
--   Runs/Stored how the stored CPodJob moves, Runs/Quiet and Runs/Uploads when the work on it
--   has ended. Queue: SetupWithManager, and the work queue of all CPodJobs with the events that
--   fill it; Queue/Isolation what a run leaves alone, Queue/Kept what a run leaves behind, with
--   Program/Post, Report/Ended, Upload/Over and Reconcile/Endings below it, Queue/Watched every
--   state of the queue. Metrics: pkg/util/metrics.go.
-- - Models: internal/controller/modelstorage_controller.go and pkg/modelhub. Hub:
--   ModelHubClient, ModelInformation, ModelSize, ModelGitPath. Float: the float64 that a size
--   goes through. Storage: Reconcile of a ModelStorage; Storage/Steps has the status writes as
--   steps of a state machine and what the API server is taken to do, Storage/Holds and Reached
--   that Reconcile takes those steps only, Storage/Invariants runs of reconciliations,
--   Storage/Downloads what was read before a storage is done, Storage/Progress that a download
--   which has ended is taken as done.
-- - Sync: internal/synchronizer. Portal: the portal's jobs. Buffer: jobBuffer and its
--   operations. Status: parseStatus, and that it agrees with pkg/util/status.go. Jobs:
--   SyncJob.Start. Observer: CPodObserver.Start, with the time limits, and in Nodes and Payload
--   the resources that it reports. Uploader: Uploader.Start, and the steps that it and the
--   observer take side by side. Converge: a cluster where deletions succeed and creations may
--   fail, and what a pass of SyncJob.Start brings about there. Reports: how a job that cannot be created is reported,
--   through the buffer, the observer and the uploader. Manager: NewManager and Manager.Start,
--   the three runnables in any interleaving; Manager/Buffers, Manager/Reported, Manager/Statuses and
--   Manager/Newest say what the portal is given.
-- - Sync.Provider: pkg/provider/sxwl/sxwl.go. get_assigned_job_list is GetAssignedJobList,
--   heart_beat HeartBeat; Fetched and Heartbeats say which requests they make and which replies
--   they accept; through_portal is the synchronizer's cluster with this client in it.
-- - Process: cmd. Operator: cmd/operator/main.go, main with init and the flags as a record.
--   Synchronizer: cmd/portalsynch/main.go. Config: client-config/clientconfig.go beside it.
-- - Tests: a cluster in memory, and the theorems at concrete inputs.
--
-- The API server, the portal, the hub's network and Kubeflow are parameters (Kube/Client: Client
-- and Kubeflow; Models/Hub: Net; Models/Storage: Client; Sync/Portal: Cluster; Sync/Observer:
-- Observed; Sync/Provider: Http; Controller/Queue: Rules; Controller/Metrics: CounterVec;
-- Process/Operator: Runtime; Process/Config: Surroundings). A client has an abstract world,
-- reads that answer an outcome, and changes that answer a new world with an outcome. No call is
-- assumed to succeed, and what a theorem needs of an answer is its hypothesis. Documented
-- behaviour that several theorems need is a record of laws: of the API server Controller/Runs:
-- IsStore and Models/Storage/Steps: IsStore, of a cluster that lists at once
-- what is stored in it Sync/Converge: IsApiServer, of the work queue Controller/Queue:
-- IsDocumented, of a counter Controller/Metrics: Counts. A program of the controller takes the world and the CPodJob in
-- memory to an outcome and a new state. Errors and panics are outcomes, and a panic ends a
-- program and is not recovered from. A read through a nil pointer is a panic.
--
-- No definition runs on fuel: every loop of the code is over a list, or counts up to a number.
-- Integers of Go's fixed widths wrap around (Base/Int). Lengths of slices are not bounded.
--
-- Not modelled: the parsing of flags and signals, the deep copies of a CPodJob's specification,
-- of lists of objects and of api/v1, the fields ReplicaSpecs of a CPodJob and ValueFrom of an
-- environment variable, which is its name and its value here, the registration of the types in
-- their packages, tests and logging. A period between two passes of a runnable is any, a run of
-- `Reconcile` is one step of the queue, and a pass of CPodObserver.Start up to its send, with
-- its five reads and the look at the buffer, is one step of the manager, where the
-- synchronizer's pass is split at each change; a read is of the cluster itself and not of a
-- cache before it. `metav1.Time` is a number, and 0 the zero time. The status of a condition is
-- one of the three documented values; its type may be any string. The lock of jobBuffer is left
-- out: each of its operations is one step. The order in which Go goes through a map is that of
-- the association list.
pub mod Base
pub mod Api
pub mod Status
pub mod Kube
pub mod Controller
pub mod Sync
pub mod Models
pub mod Process
mod Tests
