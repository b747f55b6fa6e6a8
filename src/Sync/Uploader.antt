-- ===== src/Sync/Uploader.antt =====
-- internal/synchronizer/uploader.go and manager.go: the observer sends its payloads over a channel of
-- capacity 1, and the uploader sends the newest payload that it has to the portal. Both run
-- concurrently, again and again.
pub mod Freshness
use cpodoperator.Base.{
  String, ◌≡◌, Option, none, some, List, [], ◌∷◌, ◌==◌, if◌then◌else◌, string_eq,
}
use cpodoperator.Sync.Observer.Payload.{Payload, ResourceInfo}

-- The zero value of the uploader's cached payload.
abbrev pub zero_payload : Payload
zero_payload = record {
  cpod_id = "";
  job_status = [];
  resource_info = record {
    cpod_id = "";
    cpod_version = "";
    gpu_summaries = [];
    cached_models = [];
    cached_datasets = [];
    cached_images = [];
    nodes = [];
  };
  update_time = 0;
}

-- The buffer of the channel, and `cachedPayload`.
pub record Link : Type 0 where
  pub channel : Option Payload
  pub cached : Payload

-- The `select` while the context is not done: a payload is taken if there is one.
unfoldable pub receive : Link → Link
receive l = elim l.channel [ none ↦ l | some p ↦ record { channel = none; cached = p } ]

-- `Uploader.Start`: what is given to `HeartBeat`, if anything is. Its outcome is only logged.
unfoldable pub upload : Link → Link × Option Payload
unfolding receive
upload l = let l' = receive l in (l', (if l'.cached.cpod_id == "" then none else some l'.cached))

-- The link with what the observer has sent and what the portal was given, the newest first.
pub record Exchange : Type 0 where
  pub link : Link
  pub sent : List Payload
  pub uploaded : List Payload

-- `NewManager`
unfoldable pub begin : Exchange
begin = record { link = record { channel = none; cached = zero_payload }; sent = []; uploaded = [] }

abbrev pub note : Option Payload → List Payload → List Payload
note none ps = ps
note (some p) ps = p ∷ ps

unfoldable pub after_upload : Exchange → Exchange
unfolding upload
after_upload e =
    let (l, p) = upload e.link in record { link = l; sent = e.sent; uploaded = note p e.uploaded }

unfoldable pub after_send : Exchange → Payload → Exchange
after_send e p = record e { link = record e.link { channel = some p }; sent = p ∷ e.sent }

-- A send waits until the channel is empty. A run of the uploader may instead see that the context
-- is done, and then does nothing.
infix 40 ◌⟶◌
pub data ◌⟶◌ : Exchange → Exchange → Type 0 where
  send : {e : Exchange} (p : Payload) → e.link.channel ≡ none → e ⟶ after_send e p
  upload_one : {e : Exchange} → e ⟶ after_upload e
  stop : {e : Exchange} → e ⟶ e

-- What `Manager.Start` can lead to, in any interleaving.
pub data IsReachable : Exchange → Type 0 where
  start : IsReachable begin
  step : {e f : Exchange} → IsReachable e → e ⟶ f → IsReachable f
