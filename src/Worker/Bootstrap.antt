-- ===== src/Worker/Bootstrap.antt =====
-- How a worker gets its credentials (pkg/worker/bootstrap_remote.go), and what it says of itself when it
-- connects (pkg/worker/worker.go: Start, dial and the hello of connectAndServe). The replies of the
-- gateway, the parsing of a URL and of an address, and the host's files are arguments.
pub mod Refusal
pub mod Delivery
mod Tests
use Prim.Native.String
use nano_cloud.Base.{
  ℕ, String, Bool, true, false, not, ◌&&◌, ◌||◌, Option, none, some, List, [], ◌∷◌, ◌==◌, nat_eq,
  if◌then◌else◌,
}
use nano_cloud.Base.FilePath.{join}
use nano_cloud.Base.HostPort.{join_host_port}
use nano_cloud.Base.Result.{Result, ok, err}
use nano_cloud.Base.Text.{trim_space, to_lower}
use nano_cloud.Base.Text.Decimal.{trim_right_char}
use nano_cloud.Gateway.Auth.{HttpRequest}
use nano_cloud.Gateway.Messages.{Envelope, worker_hello}
use nano_cloud.Worker.Adapter.{sanitize}
use nano_cloud.Worker.Config.{Config}
use nano_cloud.Worker.Runtimes.{supported_runtimes}

pub record BootstrapConfig : Type 0 where
  pub relay_url : String
  pub enroll_token : String
  pub workspace_root : String
  pub host_workspace_root : String
  pub host_state_root : String
  pub state_dir : String
  pub log_root : String
  pub labels : List String
  pub worker_id : String

pub record BootstrapState : Type 0 where
  pub worker_id : String
  pub worker_token : String

-- a URL as net/url parses it: `host` as it is written, and its two parts
pub record ParsedUrl : Type 0 where
  pub scheme : String
  pub user : String
  pub host : String
  pub hostname : String
  pub port : String

pub data BootError : Type 0 where
  relay_url_required : BootError
  state_dir_failed : BootError
  bad_relay_url : BootError
  unsupported_scheme : String → BootError
  host_required : BootError
  no_reply : BootError
  status_error : ℕ → BootError
  bad_body : BootError
  unauthorized not_found rejected expired : BootError
  state_not_written : BootError

unfoldable pub http_scheme : String → Option String
http_scheme s =
    if to_lower s == "ws"
    then some "http"
    else if to_lower s == "wss"
    then some "https"
    else if to_lower s == "http" || to_lower s == "https"
    then some s
    else none

unfoldable pub base_host : ParsedUrl → String
base_host u =
    if trim_space u.port == "" then join_host_port (trim_space u.hostname) "8081" else u.host

unfoldable pub http_base_of : ParsedUrl → Result BootError String
http_base_of u = elim (http_scheme u.scheme) [
  | none ↦ err (unsupported_scheme u.scheme)
  | some scheme ↦
      if trim_space u.hostname == ""
      then err host_required
      else ok (
          trim_right_char 47 (
            String.◌++◌ scheme (
              String.◌++◌ "://"
                (String.◌++◌ (if u.user == "" then "" else String.◌++◌ u.user "@") (base_host u)))))
]

-- httpBaseURLFromRelayURL of a URL that parses, or not
unfoldable pub http_base_url_from_relay_url : Option ParsedUrl → Result BootError String
http_base_url_from_relay_url none = err bad_relay_url
http_base_url_from_relay_url (some u) = http_base_of u

-- the host that the websocket is dialled to
unfoldable pub dial_host : ParsedUrl → String
dial_host u =
    if u.port == "" && not (u.hostname == "") then join_host_port u.hostname "8081" else u.host

-- the answer to a poll: no reply, a status that is not 200, or a body, whose fields are "" where it does
-- not decode
pub data PollReply : Type 0 where
  nothing : PollReply
  http : ℕ → PollReply
  answer : String → String → PollReply

-- one round of the polling: none to go on
unfoldable pub poll_result : PollReply → Option (Result BootError String)
poll_result nothing = none
poll_result (http n) =
    if nat_eq n 401
    then some (err unauthorized)
    else if nat_eq n 404
    then some (err not_found)
    else none
poll_result (answer status token) =
    if status == "approved"
    then some (ok token)
    else if status == "rejected"
    then some (err rejected)
    else if status == "expired"
    then some (err expired)
    else none

-- the polling, over the replies in their order; none while it has no result
unfoldable pub poll_until : List PollReply → Option (Result BootError String)
poll_until [] = none
poll_until (r ∷ rs) = elim (poll_result r) [ none ↦ poll_until rs | some result ↦ some result ]

-- the reply to the creation of a pairing request, or to an enrolment
pub data StartReply : Type 0 where
  no_answer : StartReply
  failed_with : ℕ → StartReply
  undecodable : StartReply
  accepted : StartReply
  enrolled : String → String → StartReply

unfoldable pub save_state : Bool → BootstrapState → Result BootError BootstrapState
save_state written st = if written then ok st else err state_not_written

unfoldable pub paired :
    Bool → BootstrapState → Result BootError String → Result BootError BootstrapState
paired written st (err e) = err e
paired written st (ok token) = save_state written (record st { worker_token = token })

unfoldable pub polled :
    Bool
    → BootstrapState
    → Option (Result BootError String)
    → Option (Result BootError BootstrapState)
polled written st none = none
polled written st (some result) = some (paired written st result)

-- `pair`: none while the code waits for approval. A cancelled context, which ends the wait with its
-- error, is left out.
unfoldable pub pair :
    Bool → BootstrapState → StartReply → List PollReply → Option (Result BootError BootstrapState)
pair written st no_answer polls = some (err no_reply)
pair written st (failed_with n) polls = some (err (status_error n))
pair written st undecodable polls = some (err bad_body)
pair written st accepted polls = polled written st (poll_until polls)
pair written st (enrolled id token) polls = polled written st (poll_until polls)

-- `enroll`, after its guard, which holds where it is called
unfoldable pub enroll : Bool → BootstrapState → StartReply → Result BootError BootstrapState
enroll written st no_answer = err no_reply
enroll written st (failed_with n) = err (status_error n)
enroll written st undecodable = err bad_body
enroll written st accepted = save_state written (record { worker_id = ""; worker_token = "" })
enroll written st (enrolled id token) =
    save_state written (record { worker_id = id; worker_token = token })

abbrev pub empty_config : Config
empty_config = record {
  relay_url = "";
  enroll_token = "";
  token = "";
  worker_id = "";
  name = "";
  version = "";
  labels = [];
  workspace_root = "";
  host_workspace_root = "";
  host_state_root = "";
  state_dir = "";
  log_root = "";
  env_passthrough = [];
  agent_config_path = "";
  runtimes = [];
  container_runtime = "";
  network_policy_image = "";
  network_allowlist = [];
}

unfoldable pub build_config_from_bootstrap : BootstrapState → BootstrapConfig → Config
build_config_from_bootstrap st boot = record empty_config {
  relay_url = boot.relay_url;
  token = st.worker_token;
  worker_id = st.worker_id;
  workspace_root = boot.workspace_root;
  host_workspace_root = boot.host_workspace_root;
  host_state_root = boot.host_state_root;
  state_dir = boot.state_dir;
  log_root = boot.log_root;
  labels = boot.labels;
}

-- the host of the worker: the parent of its state directory, whether that can be made, and whether the
-- state can be written
pub record BootHost : Type 0 where
  pub home : String
  pub temp_dir : String
  pub state_dir_made : Bool
  pub state_written : Bool

unfoldable pub state_dir_of : BootHost → BootstrapConfig → String
state_dir_of host boot =
    if boot.state_dir == ""
    then join (join (if host.home == "" then host.temp_dir else host.home) ".nano-cloud") "state"
    else boot.state_dir

-- the state that was saved, with the configured id where it has none
unfoldable pub known_state : BootstrapState → BootstrapConfig → BootstrapState
known_state saved boot =
    if saved.worker_id == "" then record saved { worker_id = boot.worker_id } else saved

unfoldable pub configured :
    BootstrapConfig → Result BootError BootstrapState → Result BootError Config
configured boot (err e) = err e
configured boot (ok st) = ok (build_config_from_bootstrap st boot)

unfoldable pub configured_or_wait :
    BootstrapConfig → Option (Result BootError BootstrapState) → Option (Result BootError Config)
configured_or_wait boot none = none
configured_or_wait boot (some result) = some (configured boot result)

-- the saved token, an enrolment, or a pairing
unfoldable pub obtain :
    BootHost
    → BootstrapState
    → BootstrapConfig
    → StartReply
    → List PollReply
    → Option (Result BootError Config)
obtain host st boot start polls =
    if not (st.worker_token == "")
    then some (ok (build_config_from_bootstrap st boot))
    else if not (boot.enroll_token == "")
    then some (configured boot (enroll host.state_written st start))
    else configured_or_wait boot (pair host.state_written st start polls)

unfoldable pub at_base :
    Result BootError String → Option (Result BootError Config) → Option (Result BootError Config)
at_base (err e) result = some (err e)
at_base (ok base) result = result

-- BootstrapFromRemote. `saved` is what state.json holds, empty where it cannot be read.
unfoldable pub bootstrap_from_remote :
    BootHost
    → BootstrapState
    → BootstrapConfig
    → Option ParsedUrl
    → StartReply
    → List PollReply
    → Option (Result BootError Config)
bootstrap_from_remote host saved boot url start polls =
    if boot.relay_url == ""
    then some (err relay_url_required)
    else if not host.state_dir_made
    then some (err state_dir_failed)
    else at_base (http_base_url_from_relay_url url) (
        obtain host (known_state saved boot) (record boot { state_dir = state_dir_of host boot })
          start polls)

abbrev pub or_default : String → String → String
or_default other s = if s == "" then other else s

-- the defaults of Start; `fresh` is worker-<nanoseconds>
unfoldable pub start_config : String → String → Config → Config
start_config fresh temp_dir cfg =
    let id = or_default fresh cfg.worker_id in
    record cfg {
      worker_id = id;
      name = or_default (String.◌++◌ "nano-sandbox-" (sanitize id)) cfg.name;
      version = or_default "1.0" cfg.version;
      workspace_root = or_default (join temp_dir "nano-workspaces") cfg.workspace_root;
    }

-- the headers of `dial`
unfoldable pub dial_request : Config → HttpRequest
dial_request cfg = record {
  authorization = if cfg.token == "" then "" else String.◌++◌ "Bearer " cfg.token;
  x_gateway_token = "";
  x_worker_token = "";
  query_token = "";
  cookie = none;
}

-- the first message of connectAndServe
unfoldable pub hello : Config → ℕ → Envelope
hello cfg seq = record {
  worker_id = cfg.worker_id;
  stream_id = "";
  seq = seq;
  message = worker_hello (record {
    name = cfg.name;
    version = cfg.version;
    labels = cfg.labels;
    supported_runtimes = supported_runtimes cfg.runtimes;
  });
}

-- `parsed` is what net.ParseIP gives: whether the address is a loopback and whether it is private
unfoldable pub should_bypass_proxy : (String → Option (Bool × Bool)) → String → String → Bool
should_bypass_proxy parsed request_host target_host =
    let host = to_lower (trim_space request_host) in
    let target = to_lower (trim_space target_host) in
    if host == ""
    then false
    else if not (target == "") && host == target
    then true
    else if host == "localhost" || host == "127.0.0.1" || host == "::1"
    then true
    else elim (parsed host) [ none ↦ false | some (loopback, private) ↦ loopback || private ]
