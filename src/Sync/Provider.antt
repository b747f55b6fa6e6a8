-- ===== src/Sync/Provider.antt =====
-- pkg/provider/sxwl/sxwl.go: the client of the portal, which fetches the jobs that are assigned to a
-- CPod and sends the heartbeats. Go's handling of URLs and of JSON and the network are a parameter. An
-- error is only logged by the callers, so an answer is an `Option`, and the outcome of a heartbeat
-- a Boolean.
pub mod Fetched
pub mod Heartbeats
use cpodoperator.Base.{
  String, ◌<>◌, Bool, true, false, Option, none, some, List, [], ◌∷◌, ◌++◌, ◌==◌, if◌then◌else◌,
}
use cpodoperator.Base.Int.{ℤ, pos, int_eq}
use cpodoperator.Api.Job.{CPodJob}
use cpodoperator.Sync.Portal.{PortalJob, Cluster}
use cpodoperator.Sync.Observer.Payload.{Payload}

-- `sxwl`, but for its HTTP client.
pub record Account : Type 0 where
  pub base_url : String
  pub access_key : String
  pub identity : String

-- A request. Its query is `none` where it is the one of the URL.
pub record Request : Type 0 where
  pub method : String
  pub url : String
  pub raw_query : Option String
  pub headers : List (String × String)
  pub body : String

-- A response: its body is `none` where it cannot be read.
pub record Reply : Type 0 where
  pub status_code : ℤ
  pub body : Option String

-- What is called of net/url, net/http and encoding/json. `none` is an error.
pub record Http (W : Type 0) : Type 0 where
  pub join_path : String → String → Option String
  pub is_url : String → Bool
  pub query_of : String → List (String × String)
  pub encode_query : List (String × String) → String
  pub send : W → Request → W × Option Reply
  pub decode_jobs : String → Option (List PortalJob)
  pub encode_payload : Payload → String

-- `URLPATH_FETCH_JOB` and `URLPATH_UPLOAD_CPOD_STATUS`
abbrev pub fetch_path : String
fetch_path = "/api/userJob/cpod_jobs"

abbrev pub status_path : String
status_path = "/api/userJob/cpod_status"

unfoldable pub headers_of : Account → List (String × String)
headers_of a =
    ("Authorization", "Bearer " <> a.access_key) ∷ ("Content-Type", "application/json") ∷ []

module _ {W : Type 0} (H : Http W) (a : Account) where
  unfoldable pub fetch_request : String → Request
  unfolding headers_of
  fetch_request url = record {
    method = "GET";
    url = url;
    raw_query = some (H.encode_query (H.query_of url ++ ("cpodid", a.identity) ∷ []));
    headers = headers_of a;
    body = "";
  }

  jobs_of_body : ℤ → Option String → Option (List PortalJob)
  jobs_of_body status none = none
  jobs_of_body status (some text) = if status == pos 200 then H.decode_jobs text else none

  unfoldable pub jobs_of_reply : Option Reply → Option (List PortalJob)
  unfolding jobs_of_body
  jobs_of_reply none = none
  jobs_of_reply (some reply) = jobs_of_body reply.status_code reply.body

  fetch_at : W → Option String → W × Option (List PortalJob)
  unfolding fetch_request jobs_of_reply
  fetch_at w none = (w, none)
  fetch_at w (some url) =
      if H.is_url url
      then (let (w', reply) = H.send w (fetch_request url) in (w', jobs_of_reply reply))
      else (w, none)

  -- `GetAssignedJobList`
  unfoldable pub get_assigned_job_list : W → W × Option (List PortalJob)
  unfolding fetch_at
  get_assigned_job_list w = fetch_at w (H.join_path a.base_url fetch_path)

  -- The error of `json.Marshal` is dropped.
  unfoldable pub status_request : String → Payload → Request
  unfolding headers_of
  status_request url payload = record {
    method = "POST";
    url = url;
    raw_query = none;
    headers = headers_of a;
    body = H.encode_payload payload;
  }

  -- A status other than 200 is an error, whether its body can be read or not.
  was_accepted : Option Reply → Bool
  was_accepted none = false
  was_accepted (some reply) = reply.status_code == pos 200

  beat_at : W → Payload → Option String → W × Bool
  unfolding status_request was_accepted
  beat_at w payload none = (w, false)
  beat_at w payload (some url) =
      if H.is_url url
      then (let (w', reply) = H.send w (status_request url payload) in (w', was_accepted reply))
      else (w, false)

  -- `HeartBeat`
  unfoldable pub heart_beat : W → Payload → W × Bool
  unfolding beat_at
  heart_beat w payload = beat_at w payload (H.join_path a.base_url status_path)

-- What `SyncJob` calls of the cluster.
pub record Kube (W : Type 0) : Type 0 where
  pub list_cpodjobs : W → List (String × String) → Option (List CPodJob)
  pub create_cpodjob : W → CPodJob → W × Bool
  pub delete_cpodjob : W → CPodJob → W × Bool

-- `NewSyncJob` with the scheduler of `NewScheduler`: the portal is asked by this client.
abbrev pub through_portal : {W : Type 0} → Kube W → Http W → Account → Cluster
through_portal {W = W} kube H a = record {
  World = W;
  list_cpodjobs = kube.list_cpodjobs;
  create_cpodjob = kube.create_cpodjob;
  delete_cpodjob = kube.delete_cpodjob;
  get_assigned_job_list = get_assigned_job_list H a;
}
