-- ===== src/Process/Config.antt =====
-- cmd/portalsynch/client-config/clientconfig.go: how the synchronizer finds the cluster.
use cpodoperator.Base.{String, Option, none, some, ◌==◌, if◌then◌else◌, string_eq}
use cpodoperator.Kube.Outcome.{Outcome, ok, panic}

-- What is called of client-go and of the operating system. `none` is an error.
pub record Surroundings (Config : Type 0) : Type 0 where
  pub in_cluster_config : Option Config
  pub home_dir : String
  pub join : String → String → String → String
  pub read_file : String → Option String
  pub config_from_kube_config : String → Option Config

module _ {Config : Type 0} (here : Surroundings Config) where
  config_of_file : Option String → Option Config
  config_of_file none = none
  config_of_file (some text) = here.config_from_kube_config text

  -- `outClusterConfig`
  unfoldable pub out_cluster_config : Option Config
  unfolding config_of_file
  out_cluster_config =
      if here.home_dir == ""
      then none
      else config_of_file (here.read_file (here.join here.home_dir ".kube" "config"))

  or_panic : Option Config → Outcome Config
  or_panic none = panic
  or_panic (some config) = ok config

  in_cluster_or_out : Option Config → Outcome Config
  unfolding or_panic
  in_cluster_or_out none = or_panic out_cluster_config
  in_cluster_or_out (some config) = ok config

  -- `GetClientConfig`
  unfoldable pub get_client_config : Outcome Config
  unfolding in_cluster_or_out
  get_client_config = in_cluster_or_out here.in_cluster_config
