-- ===== src/Gateway/Auth/Tests.antt =====
-- The theorems on access and connections at small states (pkg/server/server.go, admin_handlers.go).
use nano_cloud.Base.{String, true, none, some, [], ◌∷◌, ◌≡◌, ◌≢◌, ◌↔◌, ◌⊎◌, inl, inr, refl}
use nano_cloud.Base.Map.{lookup}
use nano_cloud.Base.Text.{apart, trim_space, has_prefix, to_lower}
use nano_cloud.Store.Disk.{Disk, json}
use nano_cloud.Store.Workers.{validate_worker_token, validate_hash, check_index}
use nano_cloud.Gateway.Auth.Access.{IsAdmin, check_token_iff, require_admin_iff}
use nano_cloud.Gateway.Auth.Sessions.{form_token, console_login_iff, login-session}
use nano_cloud.Gateway.Connect.Binding.{connect-bound}
use nano_cloud.Gateway.Connect.Ending.{next_envelope, disconnect-open_session}
use nano_cloud.Gateway.Admin.Guard.{admin-stranger}
use nano_cloud.Gateway.Messages.{cancel_request, nano_agent, worker_hello, WorkerHello, Envelope}
use nano_cloud.Gateway.Connect.{beat, connect, worker_token_of, open_session, disconnect}
use nano_cloud.Gateway.Admin.{
  admin_reject, admin_approve_by_code, admin_approve, admin_rotate_worker_token,
  admin_delete_worker, Server,
}
use nano_cloud.Gateway.Auth.{
  ok, has_bearer, logged_in, allow_token_query, admin, Environment, parse_bearer_token,
  console_login, HttpRequest, console_session_valid, require_admin, Gateway, check_token,
}
use nano_cloud.Gateway.Queue.{dispatch}

abbrev plain : String → String
plain s = s

abbrev locked : Gateway
locked = record {
  workers = [];
  worker_queue = [];
  stream_events = [];
  stream_event_times = [];
  stream_last_at = [];
  stream_done_at = [];
  stream_subs = [];
  runs = [];
  seq_counter = 3;
  token = "secret";
  console_sessions = [];
}

abbrev one_disk : Disk
one_disk = record {
  pairing_file = json [];
  index_file = json (("old", "w1") ∷ []);
  workers =
      (
        "w1",
        json (record {
          worker_id = "w1";
          worker_token_hash = "old";
          labels = [];
          created_at_unix = 1;
          updated_at_unix = 1;
        }),
      )
      ∷ [];
  faults = [];
}

abbrev anonymous : HttpRequest
anonymous = record {
  authorization = "";
  x_gateway_token = "";
  x_worker_token = "old";
  query_token = "";
  cookie = none;
}

abbrev bearer : HttpRequest
bearer = record {
  authorization = "Bearer secret";
  x_gateway_token = "";
  x_worker_token = "";
  query_token = "";
  cookie = some "sid";
}

abbrev no_environment : Environment
no_environment = record {
  allow_token_query_var = "";
  dev_mode_var = "";
  console_session_ttl_minutes_var = "";
}

abbrev hello_one : WorkerHello
hello_one = record {
  name = "box";
  version = "1";
  labels = [];
  supported_runtimes = nano_agent ∷ [];
}

abbrev greeting : Envelope
greeting = record { worker_id = "w1"; stream_id = ""; seq = 0; message = worker_hello hello_one }

check_token_iff_example : (check_token no_environment bearer locked ≡ true) ↔ (
    (locked.token ≡ "")
    ⊎ ((parse_bearer_token bearer ≡ "secret")
        ⊎ ((bearer.x_gateway_token ≡ "secret")
            ⊎ ((allow_token_query no_environment ≡ true) × (trim_space "" ≡ "secret")))))
check_token_iff_example = check_token_iff no_environment bearer locked

require_admin_iff_example : ((require_admin bearer 9 locked).0 ≡ admin) ↔ IsAdmin bearer 9 locked
require_admin_iff_example = require_admin_iff bearer 9 locked

console_login_iff_example :
    ((console_login (some ("secret", "")) (some "sid") 60 9 locked).0 ≡ logged_in "sid")
    ↔ ((locked.token ≢ "") × (form_token "secret" "" ≡ "secret"))
console_login_iff_example = console_login_iff "secret" "" "sid" 60 9 locked

login-session_example :
    (console_session_valid bearer 68
      (console_login (some ("", " secret ")) (some "sid") 60 9 locked).1).0
    ≡ true
unfolding trim_space
login-session_example =
    login-session "" " secret " "sid" 60 9 68 bearer locked (apart "secret" "" refl) refl
      (apart "sid" "" refl) refl

connect-bound_example :
    (bound : String) × (validate_worker_token plain (worker_token_of anonymous) one_disk ≡ ok bound)
    × ((bound ≡ "") ⊎ (greeting.worker_id ≡ bound))
unfolding check_token parse_bearer_token has_bearer has_prefix allow_token_query to_lower trim_space
    validate_worker_token validate_hash check_index worker_token_of lookup connect
connect-bound_example =
    connect-bound plain no_environment anonymous "worker-1" 1 (some greeting) 5 [] locked one_disk
      "w1" refl refl

nobody : IsAdmin anonymous 9 locked → ⊥
unfolding parse_bearer_token has_bearer has_prefix
nobody (set, inl same) = apart "" "secret" refl same
nobody (set, inr (sid, (here, live))) = cc

admin-stranger_example :
    let s : Server = record { gateway = locked; disk = one_disk } in
    ((admin_delete_worker anonymous 9 "w1" s).1.disk ≡ one_disk)
    × ((admin_rotate_worker_token plain anonymous 9 "w1" (some "new") s).1.disk ≡ one_disk)
    × ((admin_approve plain anonymous 9 "w1" "w2" (some "new") s).1.disk ≡ one_disk)
    × ((admin_approve_by_code plain anonymous 9 "w1" "w2" (some "new") s).1.disk ≡ one_disk)
    × ((admin_reject anonymous 9 "w1" s).1.disk ≡ one_disk)
admin-stranger_example =
    admin-stranger plain anonymous 9 "w1" "w2" (some "new")
      (record { gateway = locked; disk = one_disk }) nobody

disconnect-open_session_example :
    let first = (open_session "w1" 1 hello_one 7 [] locked).1 in
    let second = (open_session "w1" 2 hello_one 8 [] first).1 in
    let ended = beat "w1" 2 9 (disconnect "w1" second) in
    (lookup "w1" second.workers
      ≡ some (record { conn = 2; hello = some hello_one; last_heartbeat = 8 }))
    × ((dispatch (cancel_request "stop") true "w1" "run-1" second).0.1
        ≡ next_envelope "w1" "run-1" (cancel_request "stop") second ∷ [])
    × (lookup "w1" ended.workers ≡ none)
    × ((dispatch (cancel_request "stop") true "w1" "run-1" ended).0.1 ≡ [])
disconnect-open_session_example =
    disconnect-open_session "w1" "run-1" 1 2 hello_one hello_one 7 8 9 [] [] (cancel_request "stop")
      locked
