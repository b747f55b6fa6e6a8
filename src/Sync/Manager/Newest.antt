-- ===== src/Sync/Manager/Newest.antt =====
-- The payload that a run of the uploader gives to the portal, among the three runnables of
-- internal/synchronizer/manager.go.
use cpodoperator.Base.{◌≡◌, ◌==◌, if◌then◌else◌, none, some, string_eq}
use cpodoperator.Sync.Uploader as Uploader
use cpodoperator.Sync.Uploader.{Exchange, upload, IsReachable, step, upload_one}
use cpodoperator.Sync.Uploader.Freshness.{newest, upload-newest}
use cpodoperator.Sync.Provider.{Account, Http, Kube}
use cpodoperator.Sync.Manager.{
  Sight, System, new_manager, synced, observed_once, sent_over, uploaded_once, Step, synchronize,
  look, send, beat, elsewhere, Reached, start, after,
}

module _ {W : Type 0} (kube : Kube W) (H : Http W) (sight : Sight W) (a : Account) where
  Step-IsReachable :
      (s t : System W) → IsReachable s.exchange → Step kube H sight a s t → IsReachable t.exchange
  unfolding synced observed_once sent_over uploaded_once
  Step-IsReachable s _ h synchronize = h
  Step-IsReachable s _ h (look free) = h
  Step-IsReachable s _ h (send p e empty) = step h (Uploader.send p empty)
  Step-IsReachable s _ h beat = step h upload_one
  Step-IsReachable s _ h (elsewhere w) = h

  Reached-IsReachable : (s : System W) → Reached kube H sight a s → IsReachable s.exchange
  unfolding new_manager
  Reached-IsReachable _ (start w) = Uploader.start
  Reached-IsReachable t (after {s = s} before next) =
      Step-IsReachable s t (Reached-IsReachable s before) next

  -- In every state that a manager reaches, in any interleaving of the steps of its three runnables, a
  -- run of the uploader gives the portal the newest payload that the observer has sent, and nothing
  -- if none was sent or the newest one has no identifier.
  pub Reached-newest :
      (s : System W)
      → Reached kube H sight a s
      → (upload s.exchange.link).1
        ≡ (if (newest s.exchange.sent).cpod_id == "" then none else some (newest s.exchange.sent))
  Reached-newest s reached = upload-newest s.exchange (Reached-IsReachable s reached)
