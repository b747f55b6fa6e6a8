-- ===== src/Controller/Effects.antt =====
-- What the programs of internal/controller/cpodjob_controller.go may do to the cluster on behalf of one
-- CPodJob.
pub mod Rules
pub mod Updates
pub mod Parts
pub mod Sources
pub mod Bases
pub mod Creation
pub mod Uploads
pub mod Bodies
use cpodoperator.Base.{
  ◌<>◌, String, ◌≡◌, ◌⊎◌, refl, Bool, true, false, Option, none, some, List, [], ◌∷◌, if◌then◌else◌,
}
use cpodoperator.Api.Job.{CPodJob, CPodJobStatus}
use cpodoperator.Kube.Objects.{
  OwnerReference, Pvc, BaseJob, mpi_job, pytorch_job, BatchJob, Backend, c10d,
}
use cpodoperator.Kube.Outcome.{
  Error, Outcome, ok, err, panic, Fetched, found, missing, refused, crashed,
}
use cpodoperator.Kube.Client.{Client}
use cpodoperator.Controller.Program.{
  continue, bind-continue, recover, on_error-recover, State, M, pure, throw, crash, ◌>>=◌, ◌>>◌,
  on_error, ask, call, get_job, get_now, warn, set_status, deref,
}
use cpodoperator.Controller.Claims.{group_version}
use cpodoperator.Controller.Build.Backing.{JobIsBacked}

-- By what an object is known to belong to a CPodJob.
pub record Identity : Type 0 where
  pub name : String
  pub namespace : String
  pub uid : String

abbrev pub identity : CPodJob → Identity
identity job = record { name = job.name; namespace = job.namespace; uid = job.uid }

-- The one owner of what is created for the CPodJob.
abbrev pub owner : Identity → OwnerReference
owner id = record {
  api_version = group_version;
  kind = "CPodJob";
  name = id.name;
  uid = id.uid;
  controller = true;
  block_owner_deletion = true;
}

abbrev pub base_name : BaseJob → String
base_name (mpi_job j) = j.name
base_name (pytorch_job j) = j.name

abbrev pub base_namespace : BaseJob → String
base_namespace (mpi_job j) = j.namespace
base_namespace (pytorch_job j) = j.namespace

abbrev pub base_owners : BaseJob → List OwnerReference
base_owners (mpi_job j) = j.owners
base_owners (pytorch_job j) = j.owners

-- A PyTorchJob of several workers.
abbrev pub IsElastic : BaseJob → Type 0
IsElastic (mpi_job j) = ⊥
IsElastic (pytorch_job j) = j.elastic_backend ≡ some c10d

pub record IsOwnClaim (id : Identity) (c : Pvc) : Type 0 where
  pub named : (c.name ≡ id.name <> "-ckpt") ⊎ (c.name ≡ id.name <> "-modelsave-pvc")
  pub placed : c.namespace ≡ id.namespace
  pub owned : c.owners ≡ owner id ∷ []

pub record IsOwnBase (id : Identity) (b : BaseJob) : Type 0 where
  pub named : base_name b ≡ id.name
  pub placed : base_namespace b ≡ id.namespace
  pub owned : base_owners b ≡ owner id ∷ []
  pub backed : JobIsBacked b ⊎ IsElastic b

pub record IsOwnUpload (id : Identity) (j : BatchJob) : Type 0 where
  pub named : j.name ≡ id.name <> "-upload"
  pub placed : j.namespace ≡ id.namespace
  pub owned : j.owners ≡ owner id ∷ []

-- Sequences of the calls that a program makes on behalf of a CPodJob.
pub data Calls (C : Client) (id : Identity) (w : C.World) : C.World → Type 0 where
  none_made : Calls C id w w
  read_clock : {v : C.World} → Calls C id w v → Calls C id w (C.now v).0
  record_event :
      {v : C.World} (job : CPodJob) (reason text : String)
      → Calls C id w v
      → identity job ≡ id
      → Calls C id w (C.record_event v job reason text)
  create_claim :
      {v : C.World} (c : Pvc) → Calls C id w v → IsOwnClaim id c → Calls C id w (C.create_pvc v c).0
  create_base :
      {v : C.World} (b : BaseJob)
      → Calls C id w v
      → IsOwnBase id b
      → Calls C id w (C.create_base_job v (some b)).0
  create_nil : {v : C.World} → Calls C id w v → Calls C id w (C.create_base_job v none).0
  create_upload :
      {v : C.World} (j : BatchJob)
      → Calls C id w v
      → IsOwnUpload id j
      → Calls C id w (C.create_batch_job v j).0

pub Calls-trans :
    (C : Client) (id : Identity) (u v w : C.World)
    → Calls C id u v
    → Calls C id v w
    → Calls C id u w
Calls-trans C id u v _ p none_made = p
Calls-trans C id u v _ p (read_clock {v = x} q) = read_clock (Calls-trans C id u v x p q)
Calls-trans C id u v _ p (record_event {v = x} job reason text q e) =
    record_event job reason text (Calls-trans C id u v x p q) e
Calls-trans C id u v _ p (create_claim {v = x} c q own) =
    create_claim c (Calls-trans C id u v x p q) own
Calls-trans C id u v _ p (create_base {v = x} b q own) =
    create_base b (Calls-trans C id u v x p q) own
Calls-trans C id u v _ p (create_nil {v = x} q) = create_nil (Calls-trans C id u v x p q)
Calls-trans C id u v _ p (create_upload {v = x} j q own) =
    create_upload j (Calls-trans C id u v x p q) own
