-- ===== src/Worker/Tests.antt =====
-- The worker's theorems at small values (pkg/worker).
use nano_cloud.Base.{◌++◌, String, List, true, false, none, some, [], ◌∷◌, ◌≡◌, ◌≢◌, refl}
use nano_cloud.Base.Map.{insert, lookup}
use nano_cloud.Base.Text.{apart, to_lower, trim_space, has_prefix, has_suffix}
use nano_cloud.Base.Text.Decimal.{all_chars, map_chars}
use nano_cloud.Worker.Paths.{host_path, workspace_dir, resolve_host_bind_path}
use nano_cloud.Worker.Paths.Inside.{workspace_dir_inside, resolve_host_bind_path_inside}
use nano_cloud.Base.FilePath.{
  clean, join_with, strip_common, rel, path_of, path_text, join, relative_text,
}
use nano_cloud.Base.FilePath.Child.{child, IsName}
use nano_cloud.Worker.Adapter.Naming.{sanitize_lem}
use nano_cloud.Worker.Adapter.NanoAgent.{
  nano_build_spec, nano_build_spec-env, scanned, env_lines, merge_missing,
}
use nano_cloud.Worker.Runtimes.Advertised.{custom_unconfigured}
use nano_cloud.Gateway.Messages.{approval_ask, network_all, user, custom, RunRequest}
use nano_cloud.Worker.Runtimes.{
  runtime_config, supported_runtimes, underscore_for_dash, normalize_key, RuntimeConfig,
}
use nano_cloud.Worker.Adapter.{
  request_env, last_user, mounts_of, sanitize, container_name, extract_prompt, DockerRunSpec,
  BaseAdapter, ContextInfo, is_name_char,
}

abbrev adapter_one : BaseAdapter
adapter_one = record {
  image = "agent:local";
  command = [];
  env = ("PROMPT", "old") ∷ ("TIMEOUT_SECONDS", "9") ∷ [];
}

abbrev request_one : RunRequest
request_one = record {
  session_id = "s";
  runtime = custom;
  workspace = none;
  input = some (record { role = user; content = "hi" } ∷ []);
  policy = some (record {
    timeout_seconds = 0;
    resources = none;
    network = network_all;
    approval = approval_ask;
  });
}

abbrev info_one : ContextInfo
info_one = record {
  stream_id = "run-1";
  workspace_dir = "/tmp/w";
  host_workspace_path = "";
  agent_config_path = "";
  agent_config_dest = "";
  worker_id = "w1";
}

abbrev spec_one : DockerRunSpec
spec_one = record {
  image = "agent:local";
  name = container_name "w1" "run-1";
  workdir = "/workspace";
  mounts = mounts_of info_one;
  env = request_env request_one info_one adapter_one.env;
  command = [];
  detach = true;
  remove = false;
  extra_args = [];
}

abbrev file_lines : List String
file_lines =
    "# keys" ∷ "" ∷ " API_KEY = \"k=1\" " ∷ "PROMPT=from the file" ∷ "no equals sign" ∷ "=1" ∷ []

file_read : env_lines file_lines [] ≡ ("API_KEY", "k=1") ∷ ("PROMPT", "from the file") ∷ []
unfolding env_lines insert trim_space has_prefix has_suffix
file_read = refl

abbrev spec_nano : DockerRunSpec
spec_nano = record spec_one { env = merge_missing (env_lines file_lines []) spec_one.env }

nano_build_spec-env_example : lookup "PROMPT" spec_nano.env ≡ some "hi"
unfolding nano_build_spec lookup env_lines insert extract_prompt last_user
nano_build_spec-env_example =
    nano_build_spec-env adapter_one (scanned file_lines false) request_one info_one spec_nano
      "PROMPT" refl

sanitize_lem_example :
    (all_chars is_name_char (sanitize "../A b") ≡ true)
    × (sanitize "../A b" ≢ "")
    × (sanitize (sanitize "../A b") ≡ sanitize "../A b")
sanitize_lem_example = sanitize_lem "../A b"

abbrev gemini_config : RuntimeConfig
gemini_config = record {
  runner = "";
  image = "cli:local";
  command = [];
  env = [];
  env_file = "";
  agent_config_dest = "";
}

custom_unconfigured_example :
    (supported_runtimes (("gemini", gemini_config) ∷ []) ≡ custom ∷ [])
    × (runtime_config custom (("gemini", gemini_config) ∷ []) ≡ none)
unfolding normalize_key to_lower trim_space map_chars underscore_for_dash
custom_unconfigured_example =
    custom_unconfigured "gemini" gemini_config refl (apart "gemini" "custom" refl)

workspace_dir_inside_example :
    (workspace_dir "/data/ws" "../../etc"
      ≡ path_text (child (path_of "/data/ws") (sanitize "../../etc")))
    × IsName (sanitize "../../etc")
workspace_dir_inside_example = workspace_dir_inside "/data/ws" "../../etc"

resolve_host_bind_path_inside_example :
    (rest : List String) × ((path_of "/data/ws/run-1").parts ≡ (path_of "/data/ws").parts ++ rest)
    × ("/host/ws/run-1" ≡ join "/host/ws" (relative_text rest))
unfolding resolve_host_bind_path host_path rel strip_common join join_with path_of path_text clean
resolve_host_bind_path_inside_example =
    resolve_host_bind_path_inside "/host/ws" "/data/ws" "/data/ws/run-1" "/host/ws/run-1"
      (apart "/host/ws" "" refl) (apart "/data/ws" "" refl) (apart "/data/ws/run-1" "" refl) refl
