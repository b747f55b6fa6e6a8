-- ===== src/Controller/Claims/Answers.antt =====
-- What `GetCKPTPVC` and `GetModelSavePVC` of internal/controller/cpodjob_controller.go return.
use cpodoperator.Base.{◌≡◌, none, some, arith}
use cpodoperator.Kube.Objects.{Key, Pvc, claim_bound}
use cpodoperator.Kube.Outcome.{ok, fetched}
use cpodoperator.Kube.Client.{Client}
use cpodoperator.Controller.Program.{Options, State}
use cpodoperator.Controller.Claims.{
  ckpt_pvc_name, get_ckpt_pvc, get_model_save_pvc, get_model_save_pvc_name,
}

module _ (C : Client) (options : Options) (s : State C.World) where
  abbrev pub ckpt_key : Key
  ckpt_key = record { namespace = s.job.namespace; name = ckpt_pvc_name s.job }

  abbrev pub model_save_key : Key
  model_save_key = record { namespace = s.job.namespace; name = get_model_save_pvc_name s.job }

  -- If `GetCKPTPVC` returns a claim, it is the one of the job's name that the cluster answered, it
  -- is bound, and nothing has changed.
  pub get_ckpt_pvc-bound :
      (pvc : Pvc)
      → (get_ckpt_pvc C options s).0 ≡ ok (some pvc)
      → (C.get_pvc s.world ckpt_key ≡ ok pvc)
        × (pvc.phase ≡ claim_bound)
        × ((get_ckpt_pvc C options s).1 ≡ s)
  unfolding get_ckpt_pvc fetched
  get_ckpt_pvc-bound pvc h = ground arith

  pub get_model_save_pvc-bound :
      (pvc : Pvc)
      → (get_model_save_pvc C options s).0 ≡ ok (some pvc)
      → (C.get_pvc s.world model_save_key ≡ ok pvc)
        × (pvc.phase ≡ claim_bound)
        × ((get_model_save_pvc C options s).1 ≡ s)
  unfolding get_model_save_pvc fetched
  get_model_save_pvc-bound pvc h = ground arith

  -- The claim of the saved model is never nil without an error.
  pub get_model_save_pvc-ne-nil : ¬ ((get_model_save_pvc C options s).0 ≡ ok none)
  unfolding get_model_save_pvc fetched
  get_model_save_pvc-ne-nil h = ground arith
