-- ===== src/Gateway/Admin.antt =====
-- The handlers of the admin API and of the pairing API over the store (pkg/server/admin_handlers.go,
-- pairing_handlers.go). A reply carries what the body tells, without its JSON.
pub mod Guard
use nano_cloud.Base.{
  ◌+◌, ℕ, String, Bool, true, false, Option, none, some, List, [], ◌∷◌, ◌==◌, map, if◌then◌else◌,
}
use nano_cloud.Base.Map.{Map, lookup}
use nano_cloud.Base.Result.{Result, ok, err}
use nano_cloud.Store.Disk.{
  Error, unauthorized, not_found, invalid, Status, PairingRequest, WorkerRecord, Disk, Exec,
}
use nano_cloud.Store.Workers.{list_workers, rotate_worker_token, delete_worker}
use nano_cloud.Store.Pairing.{
  list_pairing_requests, create_pairing_request, poll_pairing_request, approve_pairing_request,
  approve_pairing_request_by_code, reject_pairing_request, pairing_ttl,
}
use nano_cloud.Gateway.State.{WorkerSession, Gateway}
use nano_cloud.Gateway.Auth.{
  HttpRequest, AdminCheck, token_required, unauthorized, admin, require_admin, parse_bearer_token,
}

pub data Reply (A : Type 0) : Type 0 where
  reply : A → Reply A
  bad_request unauthorized_401 not_found_404 internal_error unavailable : Reply A

-- the server: the gateway's memory and its data directory
pub record Server : Type 0 where
  pub gateway : Gateway
  pub disk : Disk

-- a handler that goes on where requireAdmin lets it
unfoldable pub as_admin :
    {A : Type 0} → HttpRequest → ℕ → (Server → Reply A × Server) → Server → Reply A × Server
as_admin r now body s =
    let (check, g1) = require_admin r now s.gateway in
    elim check [
      | token_required ↦ (unavailable, record s { gateway = g1 })
      | AdminCheck.unauthorized ↦ (unauthorized_401, record s { gateway = g1 })
      | admin ↦ body (record s { gateway = g1 })
    ]

-- a call of the store, with its errors mapped to statuses
unfoldable pub call : {A : Type 0} → (Error → Reply A) → Exec A → Server → Reply A × Server
call status run s =
    let (result, d1) = run s.disk in
    (elim result [ ok a ↦ reply a | err e ↦ status e ], record s { disk = d1 })

-- not_found, invalid and other errors
unfoldable pub worker_status : {A : Type 0} → Error → Reply A
worker_status not_found = not_found_404
worker_status invalid = bad_request
worker_status _ = internal_error

unfoldable pub pairing_status : {A : Type 0} → Error → Reply A
pairing_status not_found = not_found_404
pairing_status _ = internal_error

unfoldable pub poll_status : {A : Type 0} → Error → Reply A
poll_status not_found = not_found_404
poll_status unauthorized = unauthorized_401
poll_status _ = internal_error

-- a worker that is connected and has said hello
unfoldable pub online : Gateway → String → Bool
online g id = elim (lookup id g.workers) [
  | none ↦ false
  | some s ↦ elim s.hello [ none ↦ false | some h ↦ true ]
]

unfoldable pub admin_list_workers :
    HttpRequest → ℕ → Server → Reply (List (WorkerRecord × Bool)) × Server
unfolding as_admin online list_workers
admin_list_workers r now =
    as_admin r now
      (λ s. (reply (map (λ rec. (rec, online s.gateway rec.worker_id)) (list_workers s.disk)), s))

unfoldable pub admin_delete_worker : HttpRequest → ℕ → String → Server → Reply Unit × Server
unfolding as_admin call worker_status delete_worker
admin_delete_worker r now id = as_admin r now (call worker_status (delete_worker id))

unfoldable pub admin_list_pairing_requests :
    HttpRequest → ℕ → Server → Reply (List PairingRequest) × Server
unfolding as_admin list_pairing_requests
admin_list_pairing_requests r now =
    as_admin r now (λ s. (reply (list_pairing_requests now s.disk), s))

unfoldable pub admin_reject : HttpRequest → ℕ → String → Server → Reply Unit × Server
unfolding as_admin call pairing_status reject_pairing_request
admin_reject r now id = as_admin r now (call pairing_status (reject_pairing_request id))

-- the rest of handleWorkerPairingStart: the id, the code, the secret and the expiry
unfoldable pub start_pairing :
    (String → String)
    → String
    → String
    → List String
    → Option String
    → String
    → List ℕ
    → ℕ
    → Server
    → Reply (String × String × String × ℕ) × Server
unfolding create_pairing_request
start_pairing hash name host labels random id bytes now s =
    let (result, d1) = create_pairing_request hash name host labels random id bytes now s.disk in
    (
      elim result [
        | ok (request_id, secret, code) ↦ reply (request_id, code, secret, now + pairing_ttl)
        | err e ↦ internal_error
      ],
      record s { disk = d1 },
    )

module _ (hash : String → String) where
  unfoldable pub admin_rotate_worker_token :
      HttpRequest → ℕ → String → Option String → Server → Reply (String × WorkerRecord) × Server
  unfolding as_admin call worker_status rotate_worker_token
  admin_rotate_worker_token r now id random =
      as_admin r now (call worker_status (rotate_worker_token hash id random now))

  unfoldable pub admin_approve :
      HttpRequest → ℕ → String → String → Option String → Server → Reply Unit × Server
  unfolding as_admin call pairing_status approve_pairing_request
  admin_approve r now id worker_id random =
      as_admin r now (call pairing_status (approve_pairing_request hash id worker_id random now))

  unfoldable pub admin_approve_by_code :
      HttpRequest → ℕ → String → String → Option String → Server → Reply Unit × Server
  unfolding as_admin call pairing_status approve_pairing_request_by_code
  admin_approve_by_code r now code worker_id random =
      as_admin r now
        (call pairing_status (approve_pairing_request_by_code hash code worker_id random now))

  -- handleWorkerPairingStatus: the secret is the bearer token
  unfoldable pub worker_pairing_status :
      HttpRequest → ℕ → String → Server → Reply (Status × String) × Server
  unfolding call poll_status poll_pairing_request
  worker_pairing_status r now id s =
      if parse_bearer_token r == ""
      then (unauthorized_401, s)
      else call poll_status (poll_pairing_request hash id (parse_bearer_token r) now) s

  -- handleWorkerPairingStart; no body where it does not decode
  unfoldable pub worker_pairing_start :
      Option (String × String × List String)
      → Option String
      → String
      → List ℕ
      → ℕ
      → Server
      → Reply (String × String × String × ℕ) × Server
  unfolding start_pairing
  worker_pairing_start none random id bytes now s = (bad_request, s)
  worker_pairing_start (some (name, host, labels)) random id bytes now s =
      start_pairing hash name host labels random id bytes now s
