-- ===== src/Process/Synchronizer/Silence.antt =====
-- The program of cmd/portalsynch/main.go without its environment.
use cpodoperator.Base.{
  ◌≡◌, refl, ap, ◌∙◌, inl, inr, ◌==◌, if◌then◌else◌, none, some, [], string_eq, arith,
}
use cpodoperator.Sync.Observer.Payload.{Payload, cpod_id_of_sent}
use cpodoperator.Sync.Uploader.{begin, receive, upload, after_upload, after_send}
use cpodoperator.Sync.Provider.{Account, Http, Kube}
use cpodoperator.Sync.Manager.{
  Sight, System, new_manager, observed, synced, observed_once, sent_over, uploaded_once, Step,
  synchronize, look, send, beat, elsewhere, Reached, start, after,
}
use cpodoperator.Sync.Manager.Reported.{
  OrZero, Holds, IsSound, IsObserved, received_of, Reached-IsSound,
}
use cpodoperator.Process.Synchronizer.{Flags, Environment, account_of}

empty-given : (c : Payload) → c.cpod_id ≡ "" → (if c.cpod_id == "" then none else some c) ≡ none
empty-given c e = ground arith

module _ {W : Type 0} (kube : Kube W) (H : Http W) (sight : Sight W) (a : Account)
    (unnamed : a.identity ≡ "") where
  unnamed-given :
      (c : Payload)
      → OrZero (IsObserved kube H sight a) c
      → (if c.cpod_id == "" then none else some c) ≡ none
  unnamed-given c (inl e) = empty-given c (ap (λ x. x.cpod_id) e)
  unnamed-given c (inr (t, reached, is_map, made)) =
      empty-given c
        (cpod_id_of_sent (observed kube H sight a) a.identity t.buffer t.world c made ∙ unnamed)

  beat-silent :
      (s : System W)
      → Reached kube H sight a s
      → s.exchange.uploaded ≡ []
      → (uploaded_once kube H sight a s).exchange.uploaded ≡ []
  unfolding uploaded_once after_upload upload
  beat-silent s reached h =
      let sound : IsSound kube H sight a s = Reached-IsSound kube H sight a s reached in
      let made : Holds (IsObserved kube H sight a) s.exchange = sound.on_the_way in
      let (channel, cache) =
        received_of (IsObserved kube H sight a) s.exchange.link.channel s.exchange.link.cached
          made.in_channel made.in_cache in
      rw (unnamed-given (receive s.exchange.link).cached cache) h

  Step-silent :
      (s t : System W)
      → Reached kube H sight a s
      → s.exchange.uploaded ≡ []
      → Step kube H sight a s t
      → t.exchange.uploaded ≡ []
  unfolding synced observed_once sent_over after_send
  Step-silent s _ reached h synchronize = h
  Step-silent s _ reached h (look free) = h
  Step-silent s _ reached h (send p e empty) = h
  Step-silent s _ reached h beat = beat-silent s reached h
  Step-silent s _ reached h (elsewhere w) = h

  silent : (s : System W) → Reached kube H sight a s → s.exchange.uploaded ≡ []
  unfolding new_manager begin
  silent _ (start w) = refl
  silent t (after {s = s} before next) = Step-silent s t before (silent s before) next

-- A synchronizer that is started without `CPOD_ID` in its environment never gives the portal a
-- heartbeat: in each state that its manager reaches, in any interleaving, none has been given.
pub main-silent :
    {W : Type 0} (kube : Kube W) (H : Http W) (sight : Sight W) (f : Flags) (env : Environment)
    (s : System W)
    → env.cpod_id ≡ ""
    → Reached kube H sight (account_of f env) s
    → s.exchange.uploaded ≡ []
unfolding account_of
main-silent kube H sight f env s unset reached =
    silent kube H sight (account_of f env) unset s reached
