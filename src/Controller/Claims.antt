-- ===== src/Controller/Claims.antt =====
-- internal/controller/cpodjob_controller.go: the owner reference, and the two volume claims that a
-- CPodJob owns, for its checkpoints and for the model that it saves.
pub mod Sizes
pub mod Answers
use cpodoperator.Base.{String, ◌<>◌, true, Option, none, some, [], ◌∷◌, if◌then◌else◌}
use cpodoperator.Base.Int.{ℤ, pos, ◌*ℤ◌, to_int32}
use cpodoperator.Api.Job.{CPodJob}
use cpodoperator.Kube.Objects.{
  Key, OwnerReference, read_write_many, filesystem, ClaimPhase, claim_unset, claim_pending,
  claim_bound, claim_lost, Pvc,
}
use cpodoperator.Kube.Outcome.{
  Outcome, not_found, message, Fetched, found, missing, refused, crashed,
}
use cpodoperator.Kube.Client.{Client}
use cpodoperator.Controller.Program.{
  Options, M, pure, throw, crash, ◌>>=◌, ◌>>◌, ask, call, get_job,
}

-- `cpodv1beta1.GroupVersion.String()`
abbrev pub group_version : String
group_version = "cpod.sxwl.ai/v1beta1"

unfoldable pub generate_owner_ref : CPodJob → OwnerReference
generate_owner_ref job = record {
  api_version = group_version;
  kind = "CPodJob";
  name = job.name;
  uid = job.uid;
  controller = true;
  block_owner_deletion = true;
}

abbrev pub ckpt_pvc_name : CPodJob → String
ckpt_pvc_name job = job.name <> "-ckpt"

unfoldable pub get_model_save_pvc_name : CPodJob → String
get_model_save_pvc_name job = job.name <> "-modelsave-pvc"

-- `int64(size*1024*1024)` for an int32: both products wrap around.
unfoldable pub requested_storage : ℤ → ℤ
requested_storage size = to_int32 (to_int32 (size *ℤ pos 1024) *ℤ pos 1024)

-- The claim that both functions create, by its name and the size asked for.
unfoldable pub new_claim : Options → CPodJob → String → ℤ → Pvc
unfolding generate_owner_ref requested_storage
new_claim options job name size = record {
  name = name;
  namespace = job.namespace;
  owners = generate_owner_ref job ∷ [];
  access_modes = read_write_many ∷ [];
  storage = requested_storage size;
  storage_class_name = options.storage_class_name;
  volume_mode = some filesystem;
  phase = claim_unset;
}

-- `pvc.Status.Phase != corev1.ClaimBound`, and what follows.
abbrev pub if_bound : {W : Type 0} → Pvc → ClaimPhase → M W (Option Pvc)
if_bound pvc claim_bound = pure (some pvc)
if_bound pvc _ = throw (message "ckpt pvc not bound, wait for binding")

module _ (C : Client) (options : Options) where
  -- A claim that is not there is created, and then the code returns a nil claim with the error of
  -- the creation, which is nil. `none` is the nil claim.
  abbrev pub read_ckpt : CPodJob → Fetched Pvc → M C.World (Option Pvc)
  read_ckpt job answer = elim answer [
    | found pvc ↦ if_bound pvc pvc.phase
    | missing ↦ do
      call (λ w.
          C.create_pvc w (new_claim options job (ckpt_pvc_name job) job.spec.ckpt_volume_size))
      pure none
    | refused e ↦ throw e
    | crashed ↦ crash
  ]

  unfoldable pub get_ckpt_pvc : M C.World (Option Pvc)
  get_ckpt_pvc = do
    job ← get_job
    answer ← ask (λ w. C.get_pvc w (record { namespace = job.namespace; name = ckpt_pvc_name job }))
    read_ckpt job answer

  -- Here the error that is returned after the creation is the one of the read, that the claim is
  -- not there: the inner `err` hides the outer one.
  abbrev pub read_model_save : CPodJob → Fetched Pvc → M C.World (Option Pvc)
  read_model_save job answer = elim answer [
    | found pvc ↦ if_bound pvc pvc.phase
    | missing ↦ do
      call (λ w.
          C.create_pvc w
            (new_claim options job (get_model_save_pvc_name job) job.spec.model_save_volume_size))
      throw not_found
    | refused e ↦ throw e
    | crashed ↦ crash
  ]

  unfoldable pub get_model_save_pvc : M C.World (Option Pvc)
  get_model_save_pvc = do
    job ← get_job
    let name = get_model_save_pvc_name job
    answer ← ask (λ w. C.get_pvc w (record { namespace = job.namespace; name = name }))
    read_model_save job answer
