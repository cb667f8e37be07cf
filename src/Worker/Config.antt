-- ===== src/Worker/Config.antt =====
-- The configuration of a worker (pkg/worker/config.go). Reading and writing its YAML is not modelled.
pub mod Edit
use nano_cloud.Base.{String, List}
use nano_cloud.Base.Map.{Map}
use nano_cloud.Policy.Rules.{Rule}
use nano_cloud.Worker.Runtimes.{RuntimeConfig}

pub record Config : Type 0 where
  pub relay_url : String
  pub enroll_token : String
  pub token : String
  pub worker_id : String
  pub name : String
  pub version : String
  pub labels : List String
  pub workspace_root : String
  pub host_workspace_root : String
  pub host_state_root : String
  pub state_dir : String
  pub log_root : String
  pub env_passthrough : List String
  pub agent_config_path : String
  pub runtimes : Map RuntimeConfig
  pub container_runtime : String
  pub network_policy_image : String
  pub network_allowlist : List Rule
