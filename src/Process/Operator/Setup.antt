-- ===== src/Process/Operator/Setup.antt =====
-- When the operator of cmd/operator/main.go runs its controller.
use cpodoperator.Base.{
  ◌≡◌, ◌≢◌, ◌↔◌, refl, ap, ◌∙◌, true, false, Bool, Option, none, some, List, [], ◌∷◌,
}
use cpodoperator.Base.Int.{to_int32}
use cpodoperator.Process.Operator.{
  Flags, Group, groups, Runtime, Exit, returned, exited, panicked, options_of, manager_options,
  or_end, register, serve, with_manager, with_config, main,
}

exited_ne_returned : exited ≢ returned
exited_ne_returned h = cc

panicked_ne_returned : panicked ≢ returned
panicked_ne_returned h = cc

module _ (R : Runtime) where
  -- The groups are registered one after the other.
  abbrev pub Registers : List Group → R.World → R.World → Type 0
  Registers [] w v = w ≡ v
  Registers (g ∷ gs) w v = (u : R.World) × (R.add_to_scheme w g ≡ (u, true)) × Registers gs u v

  -- The CPodJob controller is set up with the options of the flags, the two checks are added, and the
  -- manager is run to its end.
  pub record IsServed (f : Flags) (mgr : R.Manager) (w v : R.World) : Type 0 where
    pub after_setup : R.World
    pub after_healthz : R.World
    pub after_readyz : R.World
    pub set_up :
        R.setup_cpodjob_reconciler w mgr (record {
          storage_class_name = f.storage_class_name;
          model_upload_job_image = f.model_upload_job_image;
          model_upload_job_backoff_limit = to_int32 f.model_upload_job_backoff_limit;
          model_upload_oss_bucket_name = f.model_upload_oss_bucket_name;
        })
        ≡ (after_setup, true)
    pub healthz : R.add_healthz_check after_setup mgr ≡ (after_healthz, true)
    pub readyz : R.add_readyz_check after_healthz mgr ≡ (after_readyz, true)
    pub ran : R.start_manager after_readyz mgr ≡ (v, true)

  or_end-returned :
      (e : Exit) (r : R.World × Bool) (k : R.World → R.World × Exit) (v : R.World)
      → e ≢ returned
      → (or_end R e r k ≡ (v, returned)) ↔ ((u : R.World) × (r ≡ (u, true)) × (k u ≡ (v, returned)))
  unfolding or_end
  or_end-returned e (w, true) k v ne = (λ h. (w, refl, h), λ (u, same, h). ap (λ x. k x.0) same ∙ h)
  or_end-returned e (w, false) k v ne = (λ h. absurd (ne (ap (λ x. x.1) h)), λ (u, same, h). cc)

  register-returned :
      (gs : List Group) (w v : R.World) (k : R.World → R.World × Exit)
      → (register R gs w k ≡ (v, returned))
        ↔ ((u : R.World) × Registers gs w u × (k u ≡ (v, returned)))
  unfolding register
  register-returned [] w v k = (λ h. (w, refl, h), λ (u, e, h). ap k e ∙ h)
  register-returned (g ∷ gs) w v k =
      let (there, back) =
        or_end-returned panicked (R.add_to_scheme w g) (λ w'. register R gs w' k) v
          panicked_ne_returned in
      (
        λ h.
            let (x, well, rest) = there h in
            let (on, off) = register-returned gs x v k in
            let (u, more, last) = on rest in (u, (x, well, more), last),
        λ (u, (x, well, more), last).
            let (on, off) = register-returned gs x v k in back (x, well, off (u, more, last)),
      )

  serve-IsServed :
      (f : Flags) (mgr : R.Manager) (w v : R.World)
      → (serve R f mgr w ≡ (v, returned)) ↔ IsServed f mgr w v
  unfolding serve options_of
  serve-IsServed f mgr w v =
      let ran = λ (x : R.World).
        or_end-returned exited (R.start_manager x mgr) (λ y. (y, returned)) v exited_ne_returned in
      let ready = λ (x : R.World).
        or_end-returned exited (R.add_readyz_check x mgr)
          (λ y. or_end R exited (R.start_manager y mgr) (λ z. (z, returned))) v
          exited_ne_returned in
      let health = λ (x : R.World).
        or_end-returned exited (R.add_healthz_check x mgr)
          (λ y.
            or_end R exited (R.add_readyz_check y mgr)
              (λ z. or_end R exited (R.start_manager z mgr) (λ u. (u, returned))))
          v exited_ne_returned in
      let (there, back) =
        or_end-returned exited (R.setup_cpodjob_reconciler w mgr (options_of f))
          (λ x. or_end R exited (R.add_healthz_check x mgr) (λ y.
            or_end R exited (R.add_readyz_check y mgr)
              (λ z. or_end R exited (R.start_manager z mgr) (λ u. (u, returned)))))
          v exited_ne_returned in
      (
        λ h.
            let (a, well_a, h₁) = there h in
            let (b, well_b, h₂) = (health a).0 h₁ in
            let (c, well_c, h₃) = (ready b).0 h₂ in
            let (d, well_d, h₄) = (ran c).0 h₃ in
            record {
              after_setup = a;
              after_healthz = b;
              after_readyz = c;
              set_up = well_a;
              healthz = well_b;
              readyz = well_c;
              ran = well_d ∙ ap (λ x. (x.0, true)) h₄;
            },
        λ r. back (
          r.after_setup,
          r.set_up,
          (health r.after_setup).1 (
            r.after_healthz,
            r.healthz,
            (ready r.after_healthz).1
                (r.after_readyz, r.readyz, (ran r.after_readyz).1 (v, r.ran, refl)),
          ),
        ),
      )

  with_manager-IsServed :
      (f : Flags) (r : R.World × Option R.Manager) (v : R.World)
      → (with_manager R f r ≡ (v, returned))
        ↔ ((x : R.World) × (mgr : R.Manager) × (r ≡ (x, some mgr)) × IsServed f mgr x v)
  unfolding with_manager
  with_manager-IsServed f (w, none) v = (λ h. cc, λ (x, mgr, same, served). cc)
  with_manager-IsServed f (w, some mgr) v = (
    λ h. (w, mgr, refl, (serve-IsServed f mgr w v).0 h),
    λ (x, m, same, served). ap (λ y. with_manager R f y) same ∙ (serve-IsServed f m x v).1 served,
  )

  with_config-IsServed :
      (f : Flags) (u : R.World) (o : Option R.Config) (v : R.World)
      → (with_config R f u o ≡ (v, returned)) ↔ (
          (config : R.Config) × (x : R.World) × (mgr : R.Manager) × (o ≡ some config)
          × (R.new_manager u config (manager_options f) ≡ (x, some mgr))
          × IsServed f mgr x v)
  unfolding with_config
  with_config-IsServed f u none v = (λ h. cc, λ (config, x, mgr, found, made, served). cc)
  with_config-IsServed f u (some config) v =
      let (there, back) = with_manager-IsServed f (R.new_manager u config (manager_options f)) v in
      (
        λ h. let (x, mgr, made, served) = there h in (config, x, mgr, refl, made, served),
        λ (c, x, mgr, found, made, served).
            ap (λ o. with_config R f u o) found
            ∙ (with_manager-IsServed f (R.new_manager u c (manager_options f)) v).1
                (x, mgr, made, served),
      )

  -- The types that `init` registers.
  abbrev pub known_groups : List Group
  known_groups =
      Group.client_go ∷ Group.cpod_v1beta1 ∷ Group.cpod_v1 ∷ Group.training ∷ Group.mpi ∷ []

  -- `main` of the operator returns exactly if each of these calls in turn succeeds: the types of the
  -- client, of v1beta1 and of v1 of this repository, of the training operator and of the MPI operator
  -- are registered; a configuration is found; a manager is made that serves metrics at the flag
  -- `metrics-bind-address` and probes at `health-probe-bind-address` and elects a leader, under a fixed
  -- identifier, if the flag says so; the CPodJob controller is set up with the storage class, the image
  -- and the bucket of the flags and with their backoff limit in 32 bits; the health check and then the
  -- ready check are added; and the manager runs to its end.
  pub main-IsServed :
      (f : Flags) (w v : R.World)
      → (main R f w ≡ (v, returned)) ↔ (
          (u : R.World) × Registers known_groups w u
          × ((config : R.Config) × (x : R.World) × (mgr : R.Manager) × (R.get_config u
                ≡ some config)
              × (R.new_manager u config (record {
                bind_address = f.metrics_addr;
                health_probe_bind_address = f.probe_addr;
                leader_election = f.enable_leader_election;
                leader_election_id = "2ca7307e.sxwl.ai";
              })
                  ≡ (x, some mgr))
              × IsServed f mgr x v))
  unfolding main manager_options
  main-IsServed f w v =
      let (there, back) = register-returned groups w v (λ u. with_config R f u (R.get_config u)) in
      (
        λ h.
            let (u, registered, rest) = there h in
            (u, registered, (with_config-IsServed f u (R.get_config u) v).0 rest),
        λ (u, registered, served).
            back (u, registered, (with_config-IsServed f u (R.get_config u) v).1 served),
      )
