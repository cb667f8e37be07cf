-- ===== src/Worker/Config/Edit.antt =====
-- The editing of a worker's configuration (pkg/worker/config_edit.go: DefaultConfig, Providers,
-- BuildQuickstart, ConfigSet). SaveConfig's YAML is not modelled; `quote` is the verb %q of fmt.
pub mod RoundTrip
pub mod Quickstart
mod Tests
use Prim.Native.String
use nano_cloud.Base.{
  String, Bool, true, false, not, ◌&&◌, ◌||◌, Option, none, some, List, [], ◌∷◌, ◌++◌, ◌==◌,
  if◌then◌else◌,
}
use nano_cloud.Base.FilePath.{split_char, join_with}
use nano_cloud.Base.Text.{trim_space}
use nano_cloud.Worker.Config.{Config}
use nano_cloud.Worker.Runtimes.{RuntimeConfig}

-- a comma-separated list: its trimmed items that are not empty
unfoldable pub items_of : List String → List String
items_of [] = []
items_of (p ∷ parts) =
    let rest = items_of parts in let item = trim_space p in if item == "" then rest else item ∷ rest

unfoldable pub parse_items : String → List String
unfolding items_of split_char
parse_items value = items_of (split_char 44 value)

-- ConfigSet, none for a key that it does not know
unfoldable pub config_set : Config → String → String → Option Config
unfolding parse_items
config_set cfg key value =
    if key == "relay_url"
    then some (record cfg { relay_url = value })
    else if key == "name"
    then some (record cfg { name = value })
    else if key == "version"
    then some (record cfg { version = value })
    else if key == "workspace_root"
    then some (record cfg { workspace_root = value })
    else if key == "host_workspace_root"
    then some (record cfg { host_workspace_root = value })
    else if key == "host_state_root"
    then some (record cfg { host_state_root = value })
    else if key == "log_root"
    then some (record cfg { log_root = value })
    else if key == "agent_config_path"
    then some (record cfg { agent_config_path = value })
    else if key == "labels"
    then some (record cfg { labels = parse_items value })
    else if key == "env_passthrough"
    then some (record cfg { env_passthrough = parse_items value })
    else if key == "network_policy_image"
    then some (record cfg { network_policy_image = value })
    else if key == "container_runtime"
    then some (record cfg { container_runtime = value })
    else none

abbrev pub image_of : String → String → RuntimeConfig
image_of image bin = record {
  runner = "";
  image = image;
  command = [];
  env = if bin == "" then [] else ("RUNTIME_BIN", bin) ∷ [];
  env_file = "";
  agent_config_dest = "";
}

-- DefaultConfig
abbrev pub default_config : Config
default_config = record {
  relay_url = "ws://localhost:8081";
  enroll_token = "";
  token = "";
  worker_id = "";
  name = "nano-worker";
  version = "2.0";
  labels = "docker-desktop" ∷ [];
  workspace_root = "/tmp/nano-workspaces";
  host_workspace_root = "";
  host_state_root = "";
  state_dir = "";
  log_root = "";
  env_passthrough =
      "NANO_API_KEY" ∷ "NANO_BASE_URL" ∷ "NANO_MODEL" ∷ "OPENAI_API_KEY" ∷ "ANTHROPIC_API_KEY"
      ∷ "HTTP_PROXY" ∷ "HTTPS_PROXY" ∷ "NO_PROXY" ∷ "http_proxy" ∷ "https_proxy" ∷ "no_proxy" ∷ [];
  agent_config_path = "";
  runtimes =
      (
        "nano_agent",
        record (image_of "nano-agent-runtime:local" "") {
          agent_config_dest = "/root/.config/nano/config.yaml";
        },
      )
      ∷ ("claude_code", image_of "nano-cli-runtime:local" "claude")
      ∷ ("opencode", image_of "nano-cli-runtime:local" "opencode")
      ∷ ("custom", image_of "nano-cli-runtime:local" "/bin/echo")
      ∷ [];
  container_runtime = "";
  network_policy_image = "";
  network_allowlist = [];
}

pub record ProviderPreset : Type 0 where
  pub name : String
  pub env_key : String
  pub default_url : String
  pub runtime : String
  pub model : String
  pub needs_api_key : Bool

abbrev pub providers : List ProviderPreset
providers =
    record {
      name = "OpenAI";
      env_key = "OPENAI_API_KEY";
      default_url = "https://api.openai.com/v1";
      runtime = "opencode";
      model = "gpt-4o";
      needs_api_key = true;
    }
    ∷ record {
      name = "Anthropic";
      env_key = "ANTHROPIC_API_KEY";
      default_url = "https://api.anthropic.com";
      runtime = "claude_code";
      model = "claude-sonnet-4-20250514";
      needs_api_key = true;
    }
    ∷ record {
      name = "DeepSeek";
      env_key = "DEEPSEEK_API_KEY";
      default_url = "https://api.deepseek.com/v1";
      runtime = "opencode";
      model = "deepseek-chat";
      needs_api_key = true;
    }
    ∷ record {
      name = "Ollama (local)";
      env_key = "OPENAI_API_KEY";
      default_url = "http://localhost:11434/v1";
      runtime = "opencode";
      model = "qwen2.5-coder:7b";
      needs_api_key = false;
    }
    ∷ record {
      name = "Custom (OpenAI-compatible)";
      env_key = "OPENAI_API_KEY";
      default_url = "";
      runtime = "opencode";
      model = "";
      needs_api_key = true;
    }
    ∷ []

unfoldable pub with_nano_agent : ProviderPreset → ProviderPreset
with_nano_agent p = record p { runtime = "nano_agent" }

-- the keys that are passed through, each once
unfoldable pub seen : String → List String → Bool
seen k [] = false
seen k (k2 ∷ ks) = k == k2 || seen k ks

unfoldable pub pass_key : String → List String → List String
unfolding seen
pass_key key passed = if seen key passed then passed else passed ++ key ∷ []

-- `passed` holds what the loop has appended
unfoldable pub pass_once : List String → List String → List String
pass_once passed [] = passed
pass_once passed (k ∷ ks) = pass_once (pass_key k passed) ks

-- the lines of the agent's configuration
abbrev claude_lines : String → List String
claude_lines model =
    "cli:"
    ∷ "  claude_code:"
    ∷ "    env:"
    ∷ "      ANTHROPIC_API_KEY: \"${ANTHROPIC_API_KEY}\""
    ∷ String.◌++◌ "    args: [\"--model\", " (String.◌++◌ model "]")
    ∷ "  opencode:"
    ∷ "    env:"
    ∷ []

unfoldable pub nano_agent_yaml : (String → String) → ProviderPreset → String → String → List String
nano_agent_yaml quote preset base_url model =
    let value =
      if preset.needs_api_key
      then String.◌++◌ "${" (String.◌++◌ preset.env_key "}")
      else "ollama" in
    String.◌++◌ "api_key: " (quote value)
    ∷ String.◌++◌ "base_url: " (quote base_url)
    ∷ String.◌++◌ "model: " (quote model)
    ∷ "verbose: true"
    ∷ ""
    ∷ "# System Limits and Timeouts"
    ∷ "max_file_size: 10485760  # 10MB in bytes"
    ∷ "response_timeout: 300s   # LLM response timeout"
    ∷ "http_timeout: 60s        # HTTP client timeout"
    ∷ ""
    ∷ "# Context Management"
    ∷ "context:"
    ∷ "  max_tokens: 120000"
    ∷ "  compression_ratio: 0.25"
    ∷ "  preserve_recent_turns: 8"
    ∷ "  enable_compression: true"
    ∷ ""
    ∷ []

unfoldable pub claude_yaml : (String → String) → String → List String
claude_yaml quote model =
    claude_lines (quote model)
    ++ "      OPENAI_API_KEY: \"${OPENAI_API_KEY}\"" ∷ "    args: [\"--model\", \"gpt-4o-mini\"]"
      ∷ "" ∷ []

unfoldable pub opencode_yaml : (String → String) → ProviderPreset → String → String → List String
opencode_yaml quote preset base_url model =
    let value =
      if preset.needs_api_key
      then String.◌++◌ "${" (String.◌++◌ preset.env_key "}")
      else "ollama" in
    claude_lines "\"claude-sonnet-4-20250514\""
    ++ String.◌++◌ "      "
        (String.◌++◌ preset.env_key (String.◌++◌ ": \"" (String.◌++◌ value "\"")))
      ∷ String.◌++◌ "      OPENAI_BASE_URL: " (quote base_url)
      ∷ String.◌++◌ "    args: [\"--model\", " (String.◌++◌ (quote model) "]")
      ∷ ""
      ∷ []

unfoldable pub agent_yaml : (String → String) → ProviderPreset → String → String → List String
unfolding nano_agent_yaml claude_yaml opencode_yaml
agent_yaml quote preset base_url model =
    if preset.runtime == "nano_agent"
    then nano_agent_yaml quote preset base_url model
    else if preset.runtime == "claude_code"
    then claude_yaml quote model
    else opencode_yaml quote preset base_url model

pub record QuickstartResult : Type 0 where
  pub worker_config : Config
  pub agent_config : String

-- BuildQuickstart, none for the error; it does not use the key that it is given
unfoldable pub build_quickstart :
    (String → String) → ProviderPreset → String → String → String → String → Option QuickstartResult
unfolding agent_yaml pass_once pass_key join_with
build_quickstart quote preset api_key model base_url relay_url =
    let chosen = if model == "" then preset.model else model in
    let url = if base_url == "" then preset.default_url else base_url in
    if url == "" && preset.default_url == ""
    then none
    else some (record {
      worker_config = record default_config {
        relay_url = if relay_url == "" then "ws://localhost:8081" else relay_url;
        agent_config_path = "agent-config.yaml";
        env_passthrough = pass_key preset.env_key (pass_once [] default_config.env_passthrough);
      };
      agent_config = join_with "\n" (agent_yaml quote preset url chosen);
    })
