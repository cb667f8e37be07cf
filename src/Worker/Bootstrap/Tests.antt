-- ===== src/Worker/Bootstrap/Tests.antt =====
-- A worker that pairs and then connects, at small values (pkg/worker/bootstrap_remote.go, worker.go).
use nano_cloud.Gateway.Admin.{Server}
use nano_cloud.Store.Pairing.{find_first, remove_first}
use nano_cloud.Worker.Bootstrap.Delivery.{poll_once, token_delivery}
use nano_cloud.Base.{false, ◌≡◌, arith, String, true, some, [], ◌∷◌, ◌≢◌, refl}
use nano_cloud.Base.Text.{trim_prefix, has_prefix, trim_space, to_lower, apart}
use nano_cloud.Store.Disk.{PairingRequest, approved, Disk, json}
use nano_cloud.Store.Workers.{validate_worker_token, validate_hash, check_index}
use nano_cloud.Base.Map.{lookup}
use nano_cloud.Gateway.State.{Gateway}
use nano_cloud.Gateway.Auth.{
  allow_token_query, has_bearer, parse_bearer_token, check_token, Environment,
}
use nano_cloud.Gateway.Connect.{worker_token_of, session, connect}
use nano_cloud.Worker.Config.{Config}
use nano_cloud.Base.Result.{ok, err}
use nano_cloud.Worker.Bootstrap.{
  BootError, state_dir_of, base_host, http_scheme, http_base_of, http_base_url_from_relay_url,
  at_base, build_config_from_bootstrap, configured, configured_or_wait, save_state, paired, polled,
  poll_result, poll_until, pair, obtain, known_state, empty_config, bootstrap_from_remote,
  BootstrapConfig, BootstrapState, BootHost, ParsedUrl, accepted, answer, start_config,
  dial_request, hello,
}
use nano_cloud.Worker.Bootstrap.Refusal.{paired_worker_refused}

abbrev plain : String → String
plain s = s

abbrev guarded : Gateway
guarded = record {
  workers = [];
  worker_queue = [];
  stream_events = [];
  stream_event_times = [];
  stream_last_at = [];
  stream_done_at = [];
  stream_subs = [];
  runs = [];
  seq_counter = 0;
  token = "secret";
  console_sessions = [];
}

-- a request was approved, and the worker is `builder`
abbrev approved_disk : Disk
approved_disk = record {
  pairing_file = json [];
  index_file = json (("tok", "builder") ∷ []);
  workers =
      (
        "builder",
        json (record {
          worker_id = "builder";
          worker_token_hash = "tok";
          labels = [];
          created_at_unix = 1;
          updated_at_unix = 1;
        }),
      )
      ∷ [];
  faults = [];
}

abbrev boot_one : BootstrapConfig
boot_one = record {
  relay_url = "ws://gateway:8081";
  enroll_token = "";
  workspace_root = "";
  host_workspace_root = "";
  host_state_root = "";
  state_dir = "/state";
  log_root = "";
  labels = [];
  worker_id = "";
}

abbrev no_state : BootstrapState
no_state = record { worker_id = ""; worker_token = "" }

abbrev host_one : BootHost
host_one = record { home = "/root"; temp_dir = "/tmp"; state_dir_made = true; state_written = true }

abbrev url_one : ParsedUrl
url_one = record {
  scheme = "ws";
  user = "";
  host = "gateway:8081";
  hostname = "gateway";
  port = "8081";
}

abbrev no_environment : Environment
no_environment = record {
  allow_token_query_var = "";
  dev_mode_var = "";
  console_session_ttl_minutes_var = "";
}

-- what the worker has after a poll that is still pending and one that is approved
abbrev paired_config : Config
paired_config = record empty_config {
  relay_url = "ws://gateway:8081";
  token = "tok";
  state_dir = "/state";
}

paired_worker_refused_example :
    (connect plain no_environment
      (dial_request (start_config "worker-7" "/tmp" paired_config))
      "worker-8"
      1
      (some (hello (start_config "worker-7" "/tmp" paired_config) 1))
      5
      []
      guarded
      approved_disk).0
    ≢ session "worker-7"
unfolding bootstrap_from_remote known_state obtain pair poll_until poll_result polled paired
    save_state configured_or_wait configured build_config_from_bootstrap at_base
    http_base_url_from_relay_url http_base_of http_scheme base_host state_dir_of to_lower trim_space
    start_config dial_request check_token parse_bearer_token has_bearer has_prefix allow_token_query
    validate_worker_token validate_hash check_index worker_token_of lookup trim_prefix
paired_worker_refused_example =
    paired_worker_refused plain no_environment guarded approved_disk host_one no_state boot_one
      (some url_one) accepted (answer "pending" "" ∷ answer "approved" "tok" ∷ []) paired_config
      "worker-7" "/tmp" "builder" "worker-8" "worker-7" 1 5 1 [] refl refl refl refl
      (apart "builder" "" refl) (apart "worker-7" "" refl) (apart "worker-7" "builder" refl)

abbrev granted_one : PairingRequest
granted_one = record {
  id = "p1";
  user_code = "ABCDEF";
  secret_hash = "s1";
  worker_name = "box";
  host_info = "linux/amd64";
  labels = [];
  status = approved;
  created_at = 1;
  expires_at = 901;
  worker_token = "tok";
}

abbrev server_one : Server
server_one = record {
  gateway = guarded;
  disk = record approved_disk { pairing_file = json (granted_one ∷ []) };
}

token_delivery_example :
    (poll_until ((poll_once plain "p1" "s1" 10 true server_one).0 ∷ []) ≡ some (ok "tok"))
    × (poll_until (
          (poll_once plain "p1" "s1" 10 false server_one).0
          ∷ (poll_once plain "p1" "s1" 12 true (poll_once plain "p1" "s1" 10 false server_one).1).0
          ∷ [])
        ≡ some (err BootError.not_found))
unfolding find_first remove_first trim_space
token_delivery_example =
    token_delivery plain "p1" "s1" 10 12 server_one (granted_one ∷ []) granted_one [] refl refl refl
      (λ late. omega arith) refl (apart "tok" "" refl) refl refl refl (apart "s1" "" refl)
