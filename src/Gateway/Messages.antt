-- ===== src/Gateway/Messages.antt =====
-- The messages between gateway and worker (proto/runtime/v1/runtime.proto), as far as the gateway
-- reads or builds them.
use nano_cloud.Base.{ℕ, String, Bool, true, false, Option, none, some, List}
use nano_cloud.Base.Int.{ℤ}

pub data Runtime : Type 0 where
  unspecified nano_agent claude_code opencode custom : Runtime

pub data NetworkPolicy : Type 0 where
  network_unspecified network_none network_allowlist network_all : NetworkPolicy

pub data ApprovalPolicy : Type 0 where
  approval_unspecified approval_auto approval_ask approval_deny : ApprovalPolicy

pub data EventKind : Type 0 where
  event_unspecified event_status event_assistant_delta event_tool_call event_tool_result : EventKind
  event_requires_approval event_completed event_error event_artifact : EventKind

-- The payloads that the gateway looks into or the worker sends; any other is `other_payload`. A status
-- has a detail, an error is a code and a message.
pub data Payload : Type 0 where
  status : String → String → Payload
  assistant_delta : String → Payload
  error : String → String → Payload
  completed : Bool → ℤ → String → Payload
  other_payload : Payload

-- The kind and the payload are set independently of each other.
pub record RunEvent : Type 0 where
  pub kind : EventKind
  pub payload : Payload

pub record Capacity : Type 0 where
  pub cpu_millis : ℕ
  pub memory_bytes : ℕ
  pub pids : ℕ
  pub disk_bytes : ℕ

pub record WorkerHello : Type 0 where
  pub name : String
  pub version : String
  pub labels : List String
  pub supported_runtimes : List Runtime

pub data MountMode : Type 0 where
  mount_unspecified mount_volume mount_bind : MountMode

pub data WorkspaceSource : Type 0 where
  empty_source other_source : WorkspaceSource

pub record WorkspaceSpec : Type 0 where
  pub workspace_id : String
  pub mount_mode : MountMode
  pub workdir : String
  pub persistent : Bool
  pub source : WorkspaceSource

pub data Role : Type 0 where
  user other_role : Role

pub record InputMessage : Type 0 where
  pub role : Role
  pub content : String

pub record Policy : Type 0 where
  pub timeout_seconds : ℕ
  pub resources : Option Capacity
  pub network : NetworkPolicy
  pub approval : ApprovalPolicy

pub record RunRequest : Type 0 where
  pub session_id : String
  pub runtime : Runtime
  pub workspace : Option WorkspaceSpec
  pub input : Option (List InputMessage)
  pub policy : Option Policy

pub data Message : Type 0 where
  worker_hello : WorkerHello → Message
  worker_heartbeat : Message
  run_request : RunRequest → Message
  run_event : RunEvent → Message
  cancel_request : String → Message
  other_message : Message

pub record Envelope : Type 0 where
  pub worker_id : String
  pub stream_id : String
  pub seq : ℕ
  pub message : Message

-- Envelope.GetRunEvent, `none` for nil
unfoldable pub get_run_event : Message → Option RunEvent
get_run_event (run_event e) = some e
get_run_event _ = none

-- Envelope.GetWorkerHello
unfoldable pub get_worker_hello : Message → Option WorkerHello
get_worker_hello (worker_hello h) = some h
get_worker_hello _ = none

unfoldable pub is_completed : EventKind → Bool
is_completed event_completed = true
is_completed _ = false

-- the test of `appendStreamEvent`: a run event whose kind is COMPLETED
unfoldable pub completes : Envelope → Bool
unfolding is_completed get_run_event
completes env = elim (get_run_event env.message) [ none ↦ false | some e ↦ is_completed e.kind ]
