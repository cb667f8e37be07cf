-- ===== src/Store/Approval.antt =====
-- The two ways to approve a request (pkg/server/pairing_store.go), against ValidateWorkerToken.
use nano_cloud.Base.{
  ℕ, ◌<◌, String, Bool, some, List, ◌≡◌, ◌≢◌, ◌∙◌, refl, arith, ◌==◌, eq_refl, if◌then◌else◌,
}
use nano_cloud.Base.Map.{Map, insert}
use nano_cloud.Base.Result.{ok, err}
use nano_cloud.Store.Disk.{
  request_not_pending, pending, approved, rejected, PairingRequest, missing, json, Disk,
  worker_file, bind_ok, read_pairing, read_pairing_lem,
}
use nano_cloud.Store.Workers.{validate_hash}
use nano_cloud.Store.Pairing.{
  new_worker, approve_pairing_request_by_code, approve_pairing_request, find_or, find_or-some,
  find_first, update_first, has_id, has_code, approve,
}
use nano_cloud.Store.Credentials.{
  IsHealthy, worker_file-insert, validate_hash-entry, entry-register,
}

-- the directory once `worker_id` holds the hash of `token` and the request of `reqs` that passes
-- `test` is approved
abbrev pub approved_disk :
    (String → String)
    → String
    → String
    → ℕ
    → PairingRequest
    → List PairingRequest
    → Map String
    → Disk
    → (PairingRequest → Bool)
    → Disk
approved_disk hash worker_id token now r reqs index d test = record d {
  pairing_file = json (update_first test (approve token) reqs);
  index_file = json (insert (hash token) worker_id index);
  workers = insert worker_id (json (new_worker worker_id (hash token) r.labels now)) d.workers;
}

module _ (hash : String → String) (worker_id token : String) (now : ℕ) (r : PairingRequest)
    (reqs : List PairingRequest) (index : Map String) {d : Disk} (healthy : IsHealthy d index)
    (requested : d.pairing_file ≡ json reqs) (in_time : r.expires_at < now → ⊥) where
  pub approve_by_code_lem :
      (code : String)
      → find_first (has_code code) reqs ≡ some r
      → r.status ≡ pending
      → approve_pairing_request_by_code hash code worker_id (some token) now d
        ≡ (ok tt, approved_disk hash worker_id token now r reqs index d (has_code code))
  unfolding approve_pairing_request_by_code
  approve_by_code_lem code found waiting =
      bind_ok read_pairing _ d (read_pairing_lem d requested)
      ∙ bind_ok (find_or (find_first (has_code code) reqs)) _ d (find_or-some d found)
      ∙ ground (arith, healthy.readable, healthy.reliable, in_time, waiting)

  pub approve_by_id_lem :
      (id : String)
      → find_first (has_id id) reqs ≡ some r
      → r.status ≢ approved
      → approve_pairing_request hash id worker_id (some token) now d
        ≡ (ok tt, approved_disk hash worker_id token now r reqs index d (has_id id))
  unfolding approve_pairing_request
  approve_by_id_lem id found open_still =
      bind_ok read_pairing _ d (read_pairing_lem d requested)
      ∙ bind_ok (find_or (find_first (has_id id) reqs)) _ d (find_or-some d found)
      ∙ ground (arith, healthy.readable, healthy.reliable, in_time, open_still)

  pub approved_disk-validate :
      (test : PairingRequest → Bool)
      → worker_id ≢ ""
      → worker_file d worker_id ≡ missing
      → (h : String)
      → validate_hash h (approved_disk hash worker_id token now r reqs index d test)
        ≡ (if hash token == h then ok worker_id else validate_hash h d)
  unfolding worker_file
  approved_disk-validate test named fresh h =
      let rec = new_worker worker_id (hash token) r.labels now in
      validate_hash-entry h (insert (hash token) worker_id index) _ refl
      ∙ entry-register worker_id (hash token) h rec index (worker_file d) _ named refl refl fresh
          (λ j. worker_file-insert d worker_id j (json rec))
      ∙ rw (validate_hash-entry h index d healthy.readable) refl

  -- Approving a pending request in time by its code, on a healthy directory and with a new worker id,
  -- succeeds; afterwards the new token's hash is accepted for that worker, and every other hash is
  -- answered as before.
  pub validate-approve_by_code :
      (code : String)
      → find_first (has_code code) reqs ≡ some r
      → r.status ≡ pending
      → worker_id ≢ ""
      → worker_file d worker_id ≡ missing
      → ((approve_pairing_request_by_code hash code worker_id (some token) now d).0 ≡ ok tt)
        × ((h : String)
            → validate_hash h
                (approve_pairing_request_by_code hash code worker_id (some token) now d).1
              ≡ (if hash token == h then ok worker_id else validate_hash h d))
  validate-approve_by_code code found waiting named fresh =
      rw (approve_by_code_lem code found waiting)
        (refl, approved_disk-validate (has_code code) named fresh)

  refuse_by_code :
      (code : String)
      → find_first (has_code code) reqs ≡ some r
      → r.status ≢ pending
      → approve_pairing_request_by_code hash code worker_id (some token) now d
        ≡ (err request_not_pending, d)
  unfolding approve_pairing_request_by_code
  refuse_by_code code found settled =
      bind_ok read_pairing _ d (read_pairing_lem d requested)
      ∙ bind_ok (find_or (find_first (has_code code) reqs)) _ d (find_or-some d found)
      ∙ ground (arith, in_time, settled)

  -- The two ways to approve disagree on a rejected request that has not expired: by its code it is
  -- refused and nothing changes, while by its id it is approved and the new token is accepted.
  pub approve_rejected :
      r.status ≡ rejected
      → find_first (has_code r.user_code) reqs ≡ some r
      → find_first (has_id r.id) reqs ≡ some r
      → worker_id ≢ ""
      → worker_file d worker_id ≡ missing
      → (approve_pairing_request_by_code hash r.user_code worker_id (some token) now d
          ≡ (err request_not_pending, d))
        × ((approve_pairing_request hash r.id worker_id (some token) now d).0 ≡ ok tt)
        × (validate_hash
              (hash token)
              (approve_pairing_request hash r.id worker_id (some token) now d).1
            ≡ ok worker_id)
  approve_rejected turned_down by_code by_id named fresh =
      rw (approve_by_id_lem r.id by_id (ground (arith, turned_down))) (
        refuse_by_code r.user_code by_code (ground (arith, turned_down)),
        refl,
        approved_disk-validate (has_id r.id) named fresh (hash token) ∙ rw eq_refl refl,
      )
