-- ===== src/Controller/Effects/Parts.antt =====
-- The claims and the volumes of internal/controller/cpodjob_controller.go: what is done to the cluster
-- for them, and that every mount that is collected has its volume.
use mathlib.Core.Path.{subst}
use cpodoperator.Base.{◌≡◌, inl, inr, refl, none, if◌then◌else◌, ◌&&◌, not, ◌==◌, string_eq}
use cpodoperator.Base.Int.{pos, int_eq}
use cpodoperator.Api.Job.{CPodJob}
use cpodoperator.Kube.Objects.{Pvc, ClaimPhase, claim_unset, claim_pending, claim_bound, claim_lost}
use cpodoperator.Kube.Outcome.{not_found, Fetched}
use cpodoperator.Kube.Client.{Client}
use cpodoperator.Controller.Program.{Options, pure, throw, crash, ◌>>=◌, ◌>>◌, ask, call}
use cpodoperator.Controller.Claims.{
  ckpt_pvc_name, get_model_save_pvc_name, new_claim, generate_owner_ref, if_bound, get_ckpt_pvc,
  get_model_save_pvc, read_ckpt, read_model_save,
}
use cpodoperator.Controller.Mounts.{
  Mounts, Stage, next, done, is_set, add_ckpt, add_model_save, mount_ckpt, mount_model_save,
}
use cpodoperator.Controller.Build.Backing.{AllBacked, add_volume-AllBacked}
use cpodoperator.Controller.Effects.{Identity, identity, IsOwnClaim, none_made, create_claim}
use cpodoperator.Controller.Effects.Rules.{
  Does, Anything, anything, Does-pure, Does-throw, Does-crash, Does-deref, Does-if, Does-fetched,
  Does-call, Does-ask, Does-warn, Does-bind, Does-step, Does-with_job, Does-on_error,
}

-- Each mount that was collected names a volume that was.
abbrev pub Backed : Mounts → Type 0
Backed m = AllBacked m.volumes m.mounts

abbrev pub StageBacked : Stage → Type 0
StageBacked (next m) = Backed m
StageBacked done = Unit

module _ (C : Client) (id : Identity) where
  ckpt-IsOwnClaim :
      (options : Options) (job : CPodJob)
      → identity job ≡ id
      → IsOwnClaim id (new_claim options job (ckpt_pvc_name job) job.spec.ckpt_volume_size)
  unfolding new_claim generate_owner_ref
  ckpt-IsOwnClaim options job e =
      subst
        (λ i. IsOwnClaim i (new_claim options job (ckpt_pvc_name job) job.spec.ckpt_volume_size)) e
        (record { named = inl refl; placed = refl; owned = refl })

  model_save-IsOwnClaim :
      (options : Options) (job : CPodJob)
      → identity job ≡ id
      → IsOwnClaim id
          (new_claim options job (get_model_save_pvc_name job) job.spec.model_save_volume_size)
  unfolding new_claim generate_owner_ref get_model_save_pvc_name
  model_save-IsOwnClaim options job e =
      subst
        (λ i.
          IsOwnClaim i
            (new_claim options job (get_model_save_pvc_name job) job.spec.model_save_volume_size))
        e (record { named = inr refl; placed = refl; owned = refl })

  Does-create_pvc : (c : Pvc) → IsOwnClaim id c → Does C id Anything (call (λ w. C.create_pvc w c))
  Does-create_pvc c own =
      Does-call C id Anything (λ w. C.create_pvc w c)
        (λ w. (create_claim c none_made own, anything (C.create_pvc w c).1))

  Does-if_bound : (pvc : Pvc) (phase : ClaimPhase) → Does C id Anything (if_bound pvc phase)
  Does-if_bound pvc claim_bound = Does-pure C id _ _ tt
  Does-if_bound pvc claim_unset = Does-throw C id _ _
  Does-if_bound pvc claim_pending = Does-throw C id _ _
  Does-if_bound pvc claim_lost = Does-throw C id _ _

  Does-read_ckpt :
      (options : Options) (job : CPodJob)
      → identity job ≡ id
      → (answer : Fetched Pvc) → Does C id Anything (read_ckpt C options job answer)
  Does-read_ckpt options job e answer =
      Does-fetched C id Anything answer (λ pvc. if_bound pvc pvc.phase)
        (call (λ w.
            C.create_pvc w (new_claim options job (ckpt_pvc_name job) job.spec.ckpt_volume_size))
          >> pure none)
        throw crash (λ pvc. Does-if_bound pvc pvc.phase)
        (Does-bind C id Anything Anything
          (call (λ w.
            C.create_pvc w (new_claim options job (ckpt_pvc_name job) job.spec.ckpt_volume_size)))
          (λ v. pure none) (Does-create_pvc _ (ckpt-IsOwnClaim options job e))
          λ v x. Does-pure C id _ none tt)
        (Does-throw C id _) (Does-crash C id _)

  Does-get_ckpt_pvc : (options : Options) → Does C id Anything (get_ckpt_pvc C options)
  unfolding get_ckpt_pvc
  Does-get_ckpt_pvc options =
      Does-with_job C id Anything
        (λ job.
          ask (λ w. C.get_pvc w (record { namespace = job.namespace; name = ckpt_pvc_name job }))
          >>= read_ckpt C options job)
        (λ job e. Does-step C id Anything _ _ (Does-ask C id _) (Does-read_ckpt options job e))

  Does-read_model_save :
      (options : Options) (job : CPodJob)
      → identity job ≡ id
      → (answer : Fetched Pvc) → Does C id Anything (read_model_save C options job answer)
  Does-read_model_save options job e answer =
      Does-fetched C id Anything answer (λ pvc. if_bound pvc pvc.phase)
        (call (λ w.
            C.create_pvc w
              (new_claim options job (get_model_save_pvc_name job) job.spec.model_save_volume_size))
          >> throw not_found)
        throw crash (λ pvc. Does-if_bound pvc pvc.phase)
        (Does-bind C id Anything Anything
          (call (λ w.
            C.create_pvc w (
              new_claim options job (get_model_save_pvc_name job) job.spec.model_save_volume_size)))
          (λ v. throw not_found) (Does-create_pvc _ (model_save-IsOwnClaim options job e))
          λ v x. Does-throw C id _ not_found)
        (Does-throw C id _) (Does-crash C id _)

  Does-get_model_save_pvc : (options : Options) → Does C id Anything (get_model_save_pvc C options)
  unfolding get_model_save_pvc
  Does-get_model_save_pvc options =
      Does-with_job C id Anything
        (λ job.
          ask (λ w.
            C.get_pvc w (record { namespace = job.namespace; name = get_model_save_pvc_name job }))
          >>= read_model_save C options job)
        (λ job e.
          Does-step C id Anything _ _ (Does-ask C id _) (Does-read_model_save options job e))

  Does-mount_ckpt :
      (options : Options) (m : Mounts) (job : CPodJob)
      → Backed m
      → Does C id Backed (mount_ckpt C options m job)
  unfolding mount_ckpt
  Does-mount_ckpt options m job h =
      Does-step C id Backed _ _
        (Does-on_error C id Anything _ _ (Does-get_ckpt_pvc options) (Does-warn C id _ _))
        λ pvc. Does-step C id Backed _ _ (Does-deref C id Anything pvc (λ a x. tt)) λ claimed.
          Does-pure C id Backed _ (add_volume-AllBacked m "ckpt" claimed.name job.spec.ckpt_path h)

  pub Does-add_ckpt :
      (options : Options) (m : Mounts) → Backed m → Does C id Backed (add_ckpt C options m)
  unfolding add_ckpt
  Does-add_ckpt options m h =
      Does-with_job C id Backed
        (λ job. if is_set job.spec.ckpt_path then mount_ckpt C options m job else pure m)
        (λ job e.
          Does-if C id Backed _ _ _ (Does-mount_ckpt options m job h) (Does-pure C id Backed m h))

  Does-mount_model_save :
      (options : Options) (m : Mounts) (job : CPodJob)
      → Backed m
      → Does C id Backed (mount_model_save C options m job)
  unfolding mount_model_save
  Does-mount_model_save options m job h =
      Does-step C id Backed _ _
        (Does-on_error C id Anything _ _ (Does-get_model_save_pvc options) (Does-warn C id _ _))
        λ pvc. Does-step C id Backed _ _ (Does-deref C id Anything pvc (λ a x. tt)) λ claimed.
          Does-pure C id Backed _
            (add_volume-AllBacked m "modelsave" claimed.name job.spec.model_save_path h)

  pub Does-add_model_save :
      (options : Options) (m : Mounts) → Backed m → Does C id Backed (add_model_save C options m)
  unfolding add_model_save
  Does-add_model_save options m h =
      Does-with_job C id Backed
        (λ job.
          if is_set job.spec.model_save_path && not (job.spec.model_save_volume_size == pos 0)
          then mount_model_save C options m job
          else pure m)
        (λ job e.
          Does-if C id Backed _ _ _ (Does-mount_model_save options m job h)
            (Does-pure C id Backed m h))
