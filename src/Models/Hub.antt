-- ===== src/Models/Hub.antt =====
-- pkg/modelhub: the hubs that a model is downloaded from. The network, and Go's handling of URLs and
-- of JSON, are a parameter.
use cpodoperator.Base.{
  ◌<>◌, String, Bool, Option, none, some, List, [], ◌∷◌, ◌==◌, if◌then◌else◌, string_eq,
}
use cpodoperator.Base.Int.{ℤ, pos, ◌+ℤ◌, to_int64, int_eq}
use cpodoperator.Api.Storage.{model_type_modelscope}
use cpodoperator.Models.Float.{ceil_gib}

-- A response: its body is `none` where it cannot be read.
pub record Response : Type 0 where
  pub status_code : ℤ
  pub body : Option String

-- `ModeScopeFilesRespDataFile`
pub record HubFile : Type 0 where
  pub commit_message : String
  pub committed_date : ℤ
  pub committer_name : String
  pub in_check : Bool
  pub is_lfs : Bool
  pub mode : String
  pub name : String
  pub path : String
  pub revision : String
  pub sha256 : String
  pub size : ℤ
  pub type : String

-- `ModeScopeFilesResp`, whose field `Data` is a pointer that may be nil.
pub record FilesResp : Type 0 where
  pub code : ℤ
  pub content : Option (List HubFile)

-- What is called of net/url, net/http and encoding/json. `none` is an error. What the network
-- answers depends on the state of the world.
pub record Net (W : Type 0) : Type 0 where
  pub join_path : String → List String → Option String
  pub parse_url : String → Option String
  pub get : W → String → Option Response
  pub decode_files : String → Option FilesResp

-- How a call of a hub ends. `no_model` is `ErrModelNotFound`.
pub data Answer {ℓ} (A : Type ℓ) : Type ℓ where
  got : A → Answer A
  no_model : Answer A
  trouble : Answer A
  broken : Answer A

-- The hubs. There is one value of the interface, `ModelscopeHub`.
pub data Hub : Type 0 where
  modelscope_hub : Hub

abbrev base_url : String
base_url = "https://www.modelscope.cn/"

-- `ModelHubClient`: `none` is `UnsupportedModelHub`.
unfoldable pub model_hub_client : String → Option Hub
model_hub_client type = if type == model_type_modelscope then some modelscope_hub else none

unfoldable pub model_git_path : String → String
model_git_path model_id = base_url <> model_id <> ".git"

-- The loop over the files, in the arithmetic of int.
unfoldable pub add_sizes : ℤ → List HubFile → ℤ
add_sizes total [] = total
add_sizes total (file ∷ files) = add_sizes (to_int64 (total +ℤ file.size)) files

-- `filesResp.Data.Files` is read through the pointer.
unfoldable pub size_of_files : FilesResp → Answer ℤ
unfolding add_sizes
size_of_files resp = elim resp.content [
  | none ↦ broken
  | some files ↦ got (ceil_gib (add_sizes (pos 0) files))
]

module _ {W : Type 0} (net : Net W) (w : W) where
  size_of_body : Option String → Answer ℤ
  unfolding size_of_files
  size_of_body none = trouble
  size_of_body (some text) = elim (net.decode_files text) [
    | none ↦ trouble
    | some resp ↦ size_of_files resp
  ]

  unfoldable pub size_of_response : Response → Answer ℤ
  unfolding size_of_body
  size_of_response r =
      if r.status_code == pos 200
      then size_of_body r.body
      else if r.status_code == pos 404
      then no_model
      else trouble

  size_at : Option String → Answer ℤ
  unfolding size_of_response
  size_at none = trouble
  size_at (some url) = elim (net.get w url) [ none ↦ trouble | some r ↦ size_of_response r ]

  -- `ModelSize`. The parameters `Recursive` and `Revision` are added to a copy of the query, which is
  -- dropped, so the URL is the joined one whatever the revision is.
  unfoldable pub model_size : String → String → Answer ℤ
  unfolding size_at
  model_size model_id revision =
      elim (net.join_path base_url ("/api/v1/models/" ∷ model_id ∷ "repo/files" ∷ [])) [
        | none ↦ trouble
        | some url ↦ size_at (net.parse_url url)
      ]

  information_of_response : Response → Answer (Unit {0})
  information_of_response r =
      if r.status_code == pos 200
      then got tt
      else if r.status_code == pos 404
      then no_model
      else trouble

  information_at : Option String → Answer (Unit {0})
  unfolding information_of_response
  information_at none = trouble
  information_at (some url) = elim (net.get w url) [
    | none ↦ trouble
    | some r ↦ information_of_response r
  ]

  with_revision : String → String → Option String
  with_revision url revision =
      if revision == "" then some url else net.join_path url (("?Revision=" <> revision) ∷ [])

  -- `ModelInformation`
  unfoldable pub model_information : String → String → Answer (Unit {0})
  unfolding information_at with_revision
  model_information model_id revision =
      elim (net.join_path base_url ("/api/v1/models/" ∷ model_id ∷ [])) [
        | none ↦ trouble
        | some url ↦ information_at (with_revision url revision)
      ]
