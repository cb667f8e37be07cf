-- ===== src/Worker/Adapter.antt =====
-- The adapter that turns a run request into a container (pkg/worker/runtime/base.go).
pub mod Environment
pub mod Naming
pub mod NanoAgent
use Prim.Native.Char.{Char, char, code}
use Prim.Native.String
use nano_cloud.Base.{
  ℕ, String, Bool, true, false, not, ◌&&◌, ◌||◌, Option, none, some, List, [], ◌∷◌, ◌==◌, ltb, leb,
  nat_eq, if◌then◌else◌, arith,
}
use nano_cloud.Base.Map.{Map, lookup, insert, delete}
use nano_cloud.Base.Text.{to_lower, IsScalar-small}
use nano_cloud.Base.Text.Decimal.{decimal, map_chars, keep_chars}
use nano_cloud.Base.Result.{Result, ok, err}
use nano_cloud.Gateway.Messages.{
  ApprovalPolicy, approval_auto, approval_ask, approval_deny, Role, user, InputMessage, Policy,
  RunRequest,
}

pub record ContextInfo : Type 0 where
  pub stream_id : String
  pub workspace_dir : String
  pub host_workspace_path : String
  pub agent_config_path : String
  pub agent_config_dest : String
  pub worker_id : String

pub record BaseAdapter : Type 0 where
  pub image : String
  pub command : List String
  pub env : Map String

pub record DockerRunSpec : Type 0 where
  pub image : String
  pub name : String
  pub workdir : String
  pub mounts : Map String
  pub env : Map String
  pub command : List String
  pub detach : Bool
  pub remove : Bool
  pub extra_args : List String

pub data SpecError : Type 0 where
  image_required env_file_failed : SpecError

abbrev pub is_user : Role → Bool
is_user user = true
is_user _ = false

-- the content of the last message of a user
unfoldable pub last_user : List InputMessage → Option String
last_user [] = none
last_user (m ∷ ms) = elim (last_user ms) [
  | some content ↦ some content
  | none ↦ if is_user m.role then some m.content else none
]

unfoldable pub last_content : List InputMessage → String
last_content [] = ""
last_content (m ∷ []) = m.content
last_content (m ∷ n ∷ ms) = last_content (n ∷ ms)

unfoldable pub extract_prompt : Option (List InputMessage) → String
unfolding last_user last_content
extract_prompt none = ""
extract_prompt (some ms) = elim (last_user ms) [ some content ↦ content | none ↦ last_content ms ]

-- one strings.ReplaceAll of `sanitize`: the character with that code becomes a dash
unfoldable pub dash_for : ℕ → Char → Char
dash_for n c = if nat_eq (code c) n then char 45 (IsScalar-small 45 (omega arith)) else c

-- a-z, 0-9, - and _
unfoldable pub is_name_char : Char → Bool
is_name_char c =
    leb 97 (code c) && leb (code c) 122
    || leb 48 (code c) && leb (code c) 57
    || nat_eq (code c) 45
    || nat_eq (code c) 95

unfoldable pub sanitize : String → String
unfolding dash_for is_name_char map_chars keep_chars
sanitize s =
    let s1 = map_chars (dash_for 32) (to_lower s) in
    let s2 = map_chars (dash_for 46) (map_chars (dash_for 58) (map_chars (dash_for 47) s1)) in
    let out = keep_chars is_name_char s2 in if out == "" then "x" else out

-- the switch over the approval; an unspecified one sets nothing
unfoldable pub approval_env : ApprovalPolicy → Map String → Map String
approval_env approval_auto env = insert "APPROVAL_POLICY" "auto" env
approval_env approval_deny env = insert "APPROVAL_POLICY" "deny" env
approval_env approval_ask env = insert "APPROVAL_POLICY" "ask" env
approval_env _ env = env

unfoldable pub timeout_env : ℕ → Map String → Map String
timeout_env n env = if ltb 0 n then insert "TIMEOUT_SECONDS" (decimal n) env else env

unfoldable pub policy_env : Option Policy → Map String → Map String
unfolding approval_env timeout_env
policy_env none env = env
policy_env (some pol) env = approval_env pol.approval (timeout_env pol.timeout_seconds env)

unfoldable pub request_env : RunRequest → ContextInfo → Map String → Map String
unfolding policy_env extract_prompt
request_env req info env = policy_env req.policy (
    insert "PROMPT" (extract_prompt req.input)
      (insert "SESSION_ID" req.session_id (insert "STREAM_ID" info.stream_id env)))

unfoldable pub mounts_of : ContextInfo → Map String
mounts_of info =
    let base : Map String = insert info.workspace_dir "/workspace" [] in
    let hosted =
      if info.host_workspace_path == ""
      then base
      else delete info.workspace_dir (insert info.host_workspace_path "/workspace" base) in
    if info.agent_config_path == "" || info.agent_config_dest == ""
    then hosted
    else insert info.agent_config_path info.agent_config_dest hosted

unfoldable pub container_name : String → String → String
container_name worker_id stream_id =
    String.◌++◌ (sanitize worker_id) (String.◌++◌ "-" (sanitize stream_id))

-- BaseAdapter.BuildSpec
unfoldable pub build_spec : BaseAdapter → RunRequest → ContextInfo → Result SpecError DockerRunSpec
unfolding request_env mounts_of container_name
build_spec a req info =
    if a.image == ""
    then err image_required
    else ok (record {
      image = a.image;
      name = container_name info.worker_id info.stream_id;
      workdir = "/workspace";
      mounts = mounts_of info;
      env = request_env req info a.env;
      command = a.command;
      detach = true;
      remove = false;
      extra_args = [];
    })
