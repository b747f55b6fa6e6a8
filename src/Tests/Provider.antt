-- ===== src/Tests/Provider.antt =====
-- A portal that answers every request, and the theorems on its client there.
use cpodoperator.Base.{
  String, ◌<>◌, ◌≡◌, ◌↔◌, refl, true, Option, some, List, [], ◌∷◌, string_eq, Bool, none, false,
  ◌==◌, ◌&&◌, ◌||◌, if◌then◌else◌, String-discrete,
}
use cpodoperator.Base.Int.{pos, int_eq}
use cpodoperator.Api.Job.{CPodJob}
use cpodoperator.Sync.Observer.Payload.{Payload}
use cpodoperator.Sync.Uploader.{zero_payload}
use cpodoperator.Sync.Provider.{
  Account, Request, Http, Kube, fetch_request, headers_of, jobs_of_reply, status_path,
  status_request, heart_beat, get_assigned_job_list,
}
use cpodoperator.Sync.Provider.Fetched.{IsFetch, IsAnswered, get_assigned_job_list-IsAnswered}
use cpodoperator.Sync.Provider.Heartbeats.{IsDelivered, heart_beat-IsDelivered}
use cpodoperator.Tests.Converge.{willing, assigned}

abbrev pub account : Account
account = record { base_url = "https://portal"; access_key = "key"; identity = "cpod-1" }

abbrev pub value_of : List (String × String) → String
value_of [] = ""
value_of ((k, v) ∷ query) = v

abbrev decode_payload : String → Option Payload
decode_payload text = some zero_payload

abbrev pub network : Http (List CPodJob)
network = record {
  join_path = λ base path. some (base <> path);
  is_url = λ url. true;
  query_of = λ url. [];
  encode_query = value_of;
  send = λ w r. (w, some (record { status_code = pos 200; body = some "jobs" }));
  decode_jobs = λ text. some assigned;
  encode_payload = λ p. "payload";
}

abbrev asks_for : Option String → String → Bool
asks_for none id = false
asks_for (some query) id = query == id

abbrev bears : List (String × String) → String → Bool
bears [] key = false
bears ((k, v) ∷ headers) key = (k == "Authorization" && v == "Bearer " <> key) || bears headers key

-- A portal that only answers an authorized request for the jobs of the CPod.
abbrev careful : Http (List CPodJob)
careful = record network {
  send = λ w r. (
    w,
    some (
        if r.method == "GET" && asks_for r.raw_query "cpod-1" && bears r.headers "key"
        then record { status_code = pos 200; body = some "jobs" }
        else record { status_code = pos 401; body = some "denied" }),
  );
}

abbrev pub kube : Kube (List CPodJob)
kube = record {
  list_cpodjobs = willing.list_cpodjobs;
  create_cpodjob = willing.create_cpodjob;
  delete_cpodjob = willing.delete_cpodjob;
}

get_assigned_job_list-IsAnswered_example :
    ((get_assigned_job_list careful account []).1 ≡ some assigned)
    ↔ ((r : Request) × IsFetch careful account r × IsAnswered careful account [] r assigned)
get_assigned_job_list-IsAnswered_example =
    get_assigned_job_list-IsAnswered careful account [] assigned

-- There is such a request, and it is sent.
fetched_test : (get_assigned_job_list careful account []).1 ≡ some assigned
unfolding get_assigned_job_list fetch_request headers_of jobs_of_reply int_eq string_eq
    String-discrete
fetched_test = refl

heart_beat-IsDelivered_example : ((heart_beat network account [] zero_payload).1 ≡ true) ↔ (
    (url : String) × (network.join_path account.base_url status_path ≡ some url)
    × (network.is_url url ≡ true)
    × IsDelivered network account decode_payload [] zero_payload
        (status_request network account url zero_payload))
heart_beat-IsDelivered_example =
    heart_beat-IsDelivered network account decode_payload [] zero_payload refl
