-- ===== src/Sync/Provider/Fetched.antt =====
-- What `GetAssignedJobList` of pkg/provider/sxwl/sxwl.go takes for the portal's jobs.
use cpodoperator.Base.{
  String, ◌<>◌, ◌≡◌, ◌↔◌, refl, sym, ap, ◌∙◌, ◌⊎◌, inl, inr, true, false, Bool-cases, Option-cases,
  Option, none, some, List, [], ◌∷◌, ◌++◌, arith, ◌==◌,
}
use cpodoperator.Base.Int.{pos, int_eq}
use cpodoperator.Sync.Portal.{PortalJob}
use cpodoperator.Sync.Provider.{
  Account, Request, Reply, Http, fetch_path, headers_of, fetch_request, jobs_of_reply,
  get_assigned_job_list,
}

none-some : (jobs : List PortalJob) → ¬ (none ≡ some jobs)
none-some jobs h = cc

module _ {W : Type 0} (H : Http W) (a : Account) where
  -- The request is a GET without a body of the portal's URL for jobs, whose query is that URL's with
  -- the CPod's identifier added, and which is authorized by the access key.
  pub record IsFetch (r : Request) : Type 0 where
    pub method : r.method ≡ "GET"
    pub joined : H.join_path a.base_url "/api/userJob/cpod_jobs" ≡ some r.url
    pub well_formed : H.is_url r.url ≡ true
    pub named :
        r.raw_query ≡ some (H.encode_query (H.query_of r.url ++ ("cpodid", a.identity) ∷ []))
    pub authorized :
        r.headers
        ≡ ("Authorization", "Bearer " <> a.access_key) ∷ ("Content-Type", "application/json") ∷ []
    pub empty : r.body ≡ ""

  -- The request is answered with status 200 and a body that is read as the jobs.
  pub record IsAnswered (w : W) (r : Request) (jobs : List PortalJob) : Type 0 where
    pub text : String
    pub replied : (H.send w r).1 ≡ some (record { status_code = pos 200; body = some text })
    pub decoded : H.decode_jobs text ≡ some jobs

  through_url :
      (w : W) (url : String)
      → H.join_path a.base_url fetch_path ≡ some url
      → H.is_url url ≡ true
      → (get_assigned_job_list H a w).1 ≡ jobs_of_reply H a (H.send w (fetch_request H a url)).1
  unfolding get_assigned_job_list
  through_url w url joined well_formed = ground arith

  unsent :
      (w : W)
      → (H.join_path a.base_url fetch_path ≡ none)
        ⊎ ((url : String) × (H.join_path a.base_url fetch_path ≡ some url) × (H.is_url url ≡ false))
      → (get_assigned_job_list H a w).1 ≡ none
  unfolding get_assigned_job_list
  unsent w (inl unjoined) = ground arith
  unsent w (inr (url, joined, ill_formed)) = ground arith

  reply-200 :
      (reply : Reply) (jobs : List PortalJob)
      → jobs_of_reply H a (some reply) ≡ some jobs
      → (text : String) × (reply ≡ record { status_code = pos 200; body = some text })
        × (H.decode_jobs text ≡ some jobs)
  unfolding jobs_of_reply
  reply-200 reply jobs h = elim (Option-cases reply.body) [
    | inl unread ↦ absurd (none-some jobs (ground arith))
    | inr (text, read) ↦ elim (Bool-cases (reply.status_code == pos 200)) [
      | inl good ↦
          let code : reply.status_code ≡ pos 200 = ground arith in
          (text, (λ i. record { status_code = code i; body = read i }), ground arith)
      | inr bad ↦ absurd (none-some jobs (ground arith))
    ]
  ]

  jobs_of_200 :
      (text : String) (jobs : List PortalJob)
      → H.decode_jobs text ≡ some jobs
      → jobs_of_reply H a (some (record { status_code = pos 200; body = some text })) ≡ some jobs
  unfolding jobs_of_reply
  jobs_of_200 text jobs h = ground arith

  fetch_request-IsFetch :
      (url : String)
      → H.join_path a.base_url fetch_path ≡ some url
      → H.is_url url ≡ true
      → IsFetch (fetch_request H a url)
  unfolding fetch_request headers_of
  fetch_request-IsFetch url joined well_formed = record {
    method = refl;
    joined = joined;
    well_formed = well_formed;
    named = refl;
    authorized = refl;
    empty = refl;
  }

  fetch_request_unique : (r : Request) → IsFetch r → r ≡ fetch_request H a r.url
  unfolding fetch_request headers_of
  fetch_request_unique r fetch = λ i. record {
    method = fetch.method i;
    url = r.url;
    raw_query = fetch.named i;
    headers = fetch.authorized i;
    body = fetch.empty i;
  }

  reply-IsAnswered :
      (w : W) (url : String) (jobs : List PortalJob)
      → (answer : Option Reply) → (H.send w (fetch_request H a url)).1 ≡ answer
      → jobs_of_reply H a answer ≡ some jobs
      → IsAnswered w (fetch_request H a url) jobs
  reply-IsAnswered w url jobs none replied h = absurd (none-some jobs (unfold jobs_of_reply in h))
  reply-IsAnswered w url jobs (some reply) replied h =
      let (text, same, decoded) = reply-200 reply jobs h in
      record { text = text; replied = replied ∙ ap some same; decoded = decoded }

  -- `GetAssignedJobList` returns a list of jobs exactly if there is a request that is answered with
  -- status 200 and a body that is read as those jobs, and that is a GET without a body of the URL for
  -- jobs under the portal's base URL, which is put together and is well-formed; the query is the URL's
  -- own with the pair of `cpodid` and this CPod's identifier added, and the headers are the
  -- authorization by the access key and the content type of JSON.
  pub get_assigned_job_list-IsAnswered :
      (w : W) (jobs : List PortalJob)
      → ((get_assigned_job_list H a w).1 ≡ some jobs)
        ↔ ((r : Request) × IsFetch r × IsAnswered w r jobs)
  get_assigned_job_list-IsAnswered w jobs = (
    λ h. elim (Option-cases (H.join_path a.base_url fetch_path)) [
      | inl unjoined ↦ absurd (none-some jobs (sym (unsent w (inl unjoined)) ∙ h))
      | inr (url, joined) ↦ elim (Bool-cases (H.is_url url)) [
        | inr ill ↦ absurd (none-some jobs (sym (unsent w (inr (url, joined, ill))) ∙ h))
        | inl well ↦ (
          fetch_request H a url,
          fetch_request-IsFetch url joined well,
          reply-IsAnswered w url jobs (H.send w (fetch_request H a url)).1 refl
              (sym (through_url w url joined well) ∙ h),
        )
      ]
    ],
    λ (r, fetch, answered).
        let same : r ≡ fetch_request H a r.url = fetch_request_unique r fetch in
        through_url w r.url fetch.joined fetch.well_formed
        ∙ ap (λ q. jobs_of_reply H a (H.send w q).1) (sym same)
        ∙ ap (jobs_of_reply H a) answered.replied
        ∙ jobs_of_200 answered.text jobs answered.decoded,
  )
