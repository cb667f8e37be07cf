-- ===== src/Store/Protocol.antt =====
-- The pairing of a worker from end to end (pkg/server/pairing_store.go): create, approve by code,
-- poll, and the first use of the token; and the poll that follows a rejection.
use nano_cloud.Base.{
  ℕ, ◌+◌, ◌≤◌, ◌<◌, String, none, some, List, [], ◌∷◌, ◌++◌, ◌≡◌, ◌≢◌, ◌∙◌, refl, arith, eq_refl,
  keep_if, ap,
}
use nano_cloud.Base.Map.{Map}
use nano_cloud.Base.Result.{ok}
use nano_cloud.Store.Disk.{
  approved, rejected, PairingRequest, missing, json, Disk, worker_file, bind_ok, read_pairing,
  read_pairing_lem,
}
use nano_cloud.Store.Workers.{validate_worker_token}
use nano_cloud.Store.Pairing.{
  find_or, find_or-some, find_first, update_first, has_id, has_code, approve, reject, is_live,
  pairing_ttl, generate_user_code, new_request, create_pairing_request, poll_pairing_request,
  approve_pairing_request_by_code, reject_pairing_request,
}
use nano_cloud.Store.Search.{
  find_first-append, update_first-append, find_first-keep_if, find_first-update_first,
}
use nano_cloud.Store.Credentials.{IsHealthy, validate_worker_token_lem, validate_hash-pairing_file}
use nano_cloud.Store.Approval.{approved_disk, approve_by_code_lem, approved_disk-validate}
use nano_cloud.Store.Polling.{poll_delivers, poll_rejected_leaks}

reject_lem :
    (id : String) (reqs : List PairingRequest) (r : PairingRequest) (d : Disk)
    → d.pairing_file ≡ json reqs
    → find_first (has_id id) reqs ≡ some r
    → d.faults ≡ []
    → reject_pairing_request id d
      ≡ (ok tt, record d { pairing_file = json (update_first (has_id id) reject reqs) })
unfolding reject_pairing_request
reject_lem id reqs r d requested found reliable =
    bind_ok read_pairing _ d (read_pairing_lem d requested)
    ∙ bind_ok (find_or (find_first (has_id id) reqs)) _ d (find_or-some d found)
    ∙ ground (arith, reliable)

reject_keeps_id : (id : String) (q : PairingRequest) → has_id id (reject q) ≡ has_id id q
unfolding reject
reject_keeps_id id q = refl

-- Rejecting a request, in whatever status, does not take its token back: a poll in time with the
-- right secret then answers `rejected` together with the token that an earlier approval stored, and
-- leaves the request in place, so that every later poll does so too.
pub poll-reject :
    (hash : String → String) (id secret : String) (now : ℕ) (reqs : List PairingRequest)
    (r : PairingRequest) (d : Disk)
    → d.pairing_file ≡ json reqs
    → find_first (has_id id) reqs ≡ some r
    → d.faults ≡ []
    → r.secret_hash ≡ hash secret
    → (r.expires_at < now → ⊥)
    → poll_pairing_request hash id secret now (reject_pairing_request id d).1
      ≡ (ok (rejected, r.worker_token), (reject_pairing_request id d).1)
unfolding reject
poll-reject hash id secret now reqs r d requested found reliable known in_time =
    rw (reject_lem id reqs r d requested found reliable) (
      poll_rejected_leaks hash id secret now (update_first (has_id id) reject reqs) _ refl
        (reject r) (find_first-update_first (has_id id) reject reqs r (reject_keeps_id id) found)
        known in_time refl)

module _ (hash : String → String) (name host : String) (labels : List String)
    (secret id worker_id token : String) (bytes : List ℕ) (created : ℕ)
    (old : List PairingRequest) where
  abbrev code : String
  code = generate_user_code bytes

  abbrev fresh_request : PairingRequest
  fresh_request = new_request hash name host labels secret id code created

  abbrev live_requests : List PairingRequest
  live_requests = keep_if (is_live created) old

  create_lem :
      (d : Disk)
      → d.pairing_file ≡ json old
      → d.faults ≡ []
      → create_pairing_request hash name host labels (some secret) id bytes created d ≡ (
        ok (id, secret, code),
        record d { pairing_file = json (live_requests ++ fresh_request ∷ []) },
      )
  unfolding create_pairing_request
  create_lem d requested reliable = ground (arith, requested, reliable)

  found_by_code :
      find_first (has_code code) old ≡ none
      → find_first (has_code code) (live_requests ++ fresh_request ∷ []) ≡ some fresh_request
  unfolding find_first new_request
  found_by_code unused =
      find_first-append (has_code code) live_requests (fresh_request ∷ [])
        (find_first-keep_if (has_code code) (is_live created) old unused)
      ∙ ground (arith, eq_refl code)

  updated_by_code :
      find_first (has_code code) old ≡ none
      → update_first (has_code code) (approve token) (live_requests ++ fresh_request ∷ [])
        ≡ live_requests ++ approve token fresh_request ∷ []
  unfolding update_first new_request
  updated_by_code unused =
      update_first-append (has_code code) (approve token) live_requests (fresh_request ∷ [])
        (find_first-keep_if (has_code code) (is_live created) old unused)
      ∙ ground (arith, eq_refl code)

  found_by_id :
      find_first (has_id id) old ≡ none
      → find_first (has_id id) (live_requests ++ approve token fresh_request ∷ [])
        ≡ some (approve token fresh_request)
  unfolding find_first new_request approve
  found_by_id unused =
      find_first-append (has_id id) live_requests (approve token fresh_request ∷ [])
        (find_first-keep_if (has_id id) (is_live created) old unused)
      ∙ ground (arith, eq_refl id)

  -- A pairing runs through: a worker creates a request, the operator approves it by its code in time,
  -- and a poll in time hands over a token that is accepted for the new worker. The id and the code
  -- are unused before, the worker id is new, and the disk does not fail.
  pub pairing_completes :
      (index : Map String) (d : Disk) (approved_at polled_at : ℕ)
      → d.pairing_file ≡ json old
      → IsHealthy d index
      → find_first (has_id id) old ≡ none
      → find_first (has_code code) old ≡ none
      → worker_id ≢ ""
      → worker_file d worker_id ≡ missing
      → token ≢ ""
      → approved_at ≤ created + pairing_ttl
      → polled_at ≤ created + pairing_ttl
      → let started : Disk =
          (create_pairing_request hash name host labels (some secret) id bytes created d).1 in
        let granted : Disk =
          (approve_pairing_request_by_code hash code worker_id
            (some token)
            approved_at
            started).1 in
        let (answer, polled) = poll_pairing_request hash id secret polled_at granted in
        (answer ≡ ok (approved, token)) × (validate_worker_token hash token polled ≡ ok worker_id)
  unfolding new_request approve worker_file
  pairing_completes index d approved_at polled_at requested healthy id_unused code_unused named
        fresh there in_time still =
      let started : Disk = record d { pairing_file = json (live_requests ++ fresh_request ∷ []) } in
      let well : IsHealthy started index = record {
        readable = healthy.readable;
        reliable = healthy.reliable;
      } in
      let granted : Disk =
        approved_disk hash worker_id token approved_at fresh_request
          (live_requests ++ fresh_request ∷ []) index started (has_code code) in
      rw (create_lem d requested healthy.reliable) (
        rw
          (approve_by_code_lem hash worker_id token approved_at fresh_request
            (live_requests ++ fresh_request ∷ []) index {d = started} well refl
            (λ late. omega arith) code (found_by_code code_unused) refl)
          (rw
            (poll_delivers hash id secret polled_at
              (live_requests ++ approve token fresh_request ∷ []) granted
              (ap json (updated_by_code code_unused)) (approve token fresh_request)
              (found_by_id id_unused) refl (λ late. omega arith) refl there healthy.reliable)
            (
              refl,
              validate_worker_token_lem hash token _ there
                  ∙ validate_hash-pairing_file (hash token) granted _
                  ∙ approved_disk-validate hash worker_id token approved_at fresh_request
                      (live_requests ++ fresh_request ∷ []) index {d = started} well refl
                      (λ late. omega arith) (has_code code) named fresh (hash token)
                  ∙ rw eq_refl refl,
            )))
