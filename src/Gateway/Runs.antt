-- ===== src/Gateway/Runs.antt =====
-- The runs (pkg/server/server.go: parseRuntime, parseNetworkPolicy, parseApprovalPolicy,
-- pickWorkerForRuntime, createRun, handleCancelRun, and the choice of the fields in
-- handleConsoleCreateRun). The order of a Go map's loop is the order of the model's list.
mod Tests
pub mod Picking
pub mod Outcome
pub mod Kept
pub mod Life
use nano_cloud.Base.{
  ℕ, String, Bool, true, false, not, ◌&&◌, ◌||◌, Option, none, some, List, [], ◌∷◌, ◌==◌, nat_eq,
  if◌then◌else◌,
}
use nano_cloud.Base.Map.{Map, lookup, insert, delete}
use nano_cloud.Base.Text.{trim_space, to_lower}
use nano_cloud.Base.Result.{Result, ok, err, ◌>>=◌, ◌>>◌, ensure}
use nano_cloud.Gateway.Messages
use nano_cloud.Gateway.State.{WorkerSession, Gateway}
use nano_cloud.Gateway.Queue.{dispatch_run, dispatch_cancel}
use nano_cloud.Gateway.Messages.{
  unspecified, opencode, user, approval_deny, network_allowlist, approval_ask, empty_source,
  claude_code, mount_volume, network_none, network_all, approval_auto, nano_agent, custom, Runtime,
  Envelope, NetworkPolicy, RunRequest, Capacity, ApprovalPolicy,
}

unfoldable pub parse_runtime : String → Runtime
parse_runtime s =
    let v = to_lower (trim_space s) in
    if v == "nano_agent" || v == "nano-agent" || v == "nano"
    then nano_agent
    else if v == "claude_code" || v == "claude-code" || v == "claude"
    then claude_code
    else if v == "opencode" || v == "open-code"
    then opencode
    else if v == "custom"
    then custom
    else unspecified

unfoldable pub parse_network_policy : String → Option NetworkPolicy
parse_network_policy s =
    let v = to_lower (trim_space s) in
    if v == "none" || v == "deny" || v == "off"
    then some network_none
    else if v == "allowlist" || v == "allow-list"
    then some network_allowlist
    else if v == "all" || v == "allow"
    then some network_all
    else none

unfoldable pub parse_approval_policy : String → Option ApprovalPolicy
parse_approval_policy s =
    let v = to_lower (trim_space s) in
    if v == "auto"
    then some approval_auto
    else if v == "ask"
    then some approval_ask
    else if v == "deny" || v == "none"
    then some approval_deny
    else none

unfoldable pub runtime_eq : Runtime → Runtime → Bool
runtime_eq unspecified unspecified = true
runtime_eq nano_agent nano_agent = true
runtime_eq claude_code claude_code = true
runtime_eq opencode opencode = true
runtime_eq custom custom = true
runtime_eq _ _ = false

-- the inner loop: the runtime itself, or CUSTOM
unfoldable pub offers : Runtime → List Runtime → Bool
unfolding runtime_eq
offers rt [] = false
offers rt (s ∷ rest) = runtime_eq s rt || runtime_eq s custom || offers rt rest

unfoldable pub session_offers : Runtime → WorkerSession → Bool
unfolding offers
session_offers rt w = elim w.hello [ none ↦ false | some h ↦ offers rt h.supported_runtimes ]

unfoldable pub pick_worker_for_runtime : Runtime → Map WorkerSession → String
unfolding session_offers
pick_worker_for_runtime rt [] = ""
pick_worker_for_runtime rt ((id, w) ∷ rest) =
    if session_offers rt w then id else pick_worker_for_runtime rt rest

pub record CreateRunRequest : Type 0 where
  pub runtime : String
  pub prompt : String
  pub session_id : String
  pub worker_id : String
  pub workspace_id : String
  pub timeout_seconds : ℕ
  pub resources : Option Capacity
  pub network : String
  pub approval : String

-- the statuses that createRun answers with other than 200
pub data CreateError : Type 0 where
  bad_request service_unavailable : CreateError

unfoldable pub network_or_all : String → Result CreateError NetworkPolicy
network_or_all s =
    if trim_space s == ""
    then ok network_all
    else elim (parse_network_policy s) [ none ↦ err bad_request | some v ↦ ok v ]

unfoldable pub approval_or_auto : String → Result CreateError ApprovalPolicy
approval_or_auto s =
    if trim_space s == ""
    then ok approval_auto
    else elim (parse_approval_policy s) [ none ↦ err bad_request | some v ↦ ok v ]

unfoldable pub is_specified : Runtime → Bool
is_specified unspecified = false
is_specified _ = true

unfoldable pub choose_worker : CreateRunRequest → Runtime → Gateway → String
choose_worker req rt g =
    let asked = trim_space req.worker_id in
    if asked == "" then pick_worker_for_runtime rt g.workers else asked

abbrev pub no_capacity : Capacity
no_capacity = record { cpu_millis = 0; memory_bytes = 0; pids = 0; disk_bytes = 0 }

unfoldable pub run_request_of :
    CreateRunRequest → Runtime → NetworkPolicy → ApprovalPolicy → RunRequest
run_request_of req rt network approval = record {
  session_id = req.session_id;
  runtime = rt;
  workspace = some (record {
    workspace_id = req.workspace_id;
    mount_mode = mount_volume;
    workdir = "/workspace";
    persistent = false;
    source = empty_source;
  });
  input = some (record { role = user; content = req.prompt } ∷ []);
  policy = some (record {
    timeout_seconds = if nat_eq req.timeout_seconds 0 then 300 else req.timeout_seconds;
    resources = some (elim req.resources [ none ↦ no_capacity | some c ↦ c ]);
    network = network;
    approval = approval;
  });
}

-- createRun before the dispatch: the worker and the request, or the status
unfoldable pub prepare : CreateRunRequest → Gateway → Result CreateError (String × RunRequest)
unfolding is_specified choose_worker
prepare req g = do
  ensure (not (trim_space req.prompt == "")) bad_request
  let rt = parse_runtime req.runtime
  ensure (is_specified rt) bad_request
  let worker_id = choose_worker req rt g
  ensure (not (worker_id == "")) service_unavailable
  network ← network_or_all req.network
  approval ← approval_or_auto req.approval
  ok (worker_id, run_request_of req rt network approval)

unfoldable pub register_run : String → String → ℕ → Gateway → Gateway
register_run run_id worker_id now g = record g {
  runs = insert run_id worker_id g.runs;
  stream_last_at = insert run_id now g.stream_last_at;
}

-- The dispatch, whose error is dropped, and the registration after it, under another hold of `mu`.
-- `meanwhile` is what other requests do to the gateway between the two.
unfoldable pub start_run :
    (Gateway → Gateway)
    → Bool
    → String
    → ℕ
    → String
    → RunRequest
    → Gateway
    → List Envelope × Gateway
unfolding register_run
start_run meanwhile wrote run_id now worker_id req g =
    let ((sent, written), g1) = dispatch_run req wrote worker_id run_id g in
    (written, register_run run_id worker_id now (meanwhile g1))

unfoldable pub finish_create :
    (Gateway → Gateway)
    → Bool
    → String
    → ℕ
    → Gateway
    → Result CreateError (String × RunRequest)
    → Result CreateError (String × List Envelope) × Gateway
unfolding start_run
finish_create meanwhile wrote run_id now g (err e) = (err e, g)
finish_create meanwhile wrote run_id now g (ok (worker_id, run_req)) =
    let (written, g1) = start_run meanwhile wrote run_id now worker_id run_req g in
    (ok (worker_id, written), g1)

-- The run id is made from the clock. The answer is the worker, and what was written to it.
unfoldable pub create_run_during :
    (Gateway → Gateway)
    → CreateRunRequest
    → Bool
    → String
    → ℕ
    → Gateway
    → Result CreateError (String × List Envelope) × Gateway
unfolding prepare finish_create
create_run_during meanwhile req wrote run_id now g =
    finish_create meanwhile wrote run_id now g (prepare req g)

-- createRun, when no other request comes in between
unfoldable pub create_run :
    CreateRunRequest
    → Bool
    → String
    → ℕ
    → Gateway
    → Result CreateError (String × List Envelope) × Gateway
unfolding create_run_during
create_run req wrote run_id now g = create_run_during (λ h. h) req wrote run_id now g

-- handleCancelRun after the check of the token: false is 404
unfoldable pub cancel_run : Bool → String → Gateway → Bool × Gateway
cancel_run wrote run_id g = elim (lookup run_id g.runs) [
  | none ↦ (false, g)
  | some worker_id ↦
      if worker_id == ""
      then (false, g)
      else (true, (dispatch_cancel "cancel requested by client" wrote worker_id run_id g).1)
]

-- the request that the form of the console makes: fields are trimmed, and empty ones get defaults
unfoldable pub console_run_request : String → String → String → CreateRunRequest
console_run_request runtime prompt network = record {
  runtime = if trim_space runtime == "" then "nano_agent" else trim_space runtime;
  prompt = if trim_space prompt == "" then "hello from nano cloud" else trim_space prompt;
  session_id = "";
  worker_id = "";
  workspace_id = "";
  timeout_seconds = 0;
  resources = none;
  network = trim_space network;
  approval = "";
}
