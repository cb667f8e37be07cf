-- ===== src/Store/Faults.antt =====
-- What a failed write leaves behind (pkg/server/worker_config_store.go, pkg/server/pairing_store.go):
-- the methods write several files, one after the other.
use nano_cloud.Base.{
  if◌then◌else◌, ℕ, ◌<◌, String, Bool, true, false, some, List, ◌∷◌, ◌≡◌, ◌≢◌, ◌∙◌, refl, arith,
  ◌==◌, eq_iff, eq_refl,
}
use nano_cloud.Base.Map.{lookup-delete, Map, insert}
use nano_cloud.Base.Result.{ok, err}
use nano_cloud.Store.Disk.{
  unauthorized, io, pending, PairingRequest, WorkerRecord, missing, json, Disk, worker_file,
  bind_ok, read_pairing, read_pairing_lem,
}
use nano_cloud.Store.Workers.{delete_worker, validate_hash, reindex, rotate_worker_token}
use nano_cloud.Store.Pairing.{
  new_worker, find_or, find_or-some, find_first, has_code, approve_pairing_request_by_code,
}
use nano_cloud.Store.Credentials.{
  validate_hash_sound, via, entry_of_some, entry_of_none, lookup-reindex, entry-register,
  validate_hash-entry, worker_file-insert,
}

module _ (hash : String → String) (worker_id token code : String) (now : ℕ) (r : PairingRequest)
    (reqs : List PairingRequest) (index : Map String) (d : Disk) (rest : List Bool)
    (readable : d.index_file ≡ json index) (requested : d.pairing_file ≡ json reqs)
    (in_time : r.expires_at < now → ⊥) (found : find_first (has_code code) reqs ≡ some r)
    (waiting : r.status ≡ pending) where
  approve_third_fails :
      d.faults ≡ false ∷ false ∷ true ∷ rest
      → approve_pairing_request_by_code hash code worker_id (some token) now d ≡ (
        err io,
        record d {
          index_file = json (insert (hash token) worker_id index);
          workers =
              insert worker_id (json (new_worker worker_id (hash token) r.labels now)) d.workers;
          faults = rest;
        },
      )
  unfolding approve_pairing_request_by_code
  approve_third_fails failing =
      bind_ok read_pairing _ d (read_pairing_lem d requested)
      ∙ bind_ok (find_or (find_first (has_code code) reqs)) _ d (find_or-some d found)
      ∙ ground (arith, readable, failing, in_time, waiting)

  -- When the last write of an approval fails, the operator gets an error and the request is still
  -- pending in its file, and yet the new token's hash is accepted: the worker is registered, with a
  -- token that nobody has been given.
  pub approve_loses_token :
      d.faults ≡ false ∷ false ∷ true ∷ rest
      → worker_id ≢ ""
      → worker_file d worker_id ≡ missing
      → let (answer, d') = approve_pairing_request_by_code hash code worker_id (some token) now d in
        (answer ≡ err io)
        × (d'.pairing_file ≡ json reqs)
        × (validate_hash (hash token) d' ≡ ok worker_id)
  unfolding worker_file
  approve_loses_token failing named fresh =
      let rec = new_worker worker_id (hash token) r.labels now in
      rw (approve_third_fails failing) (
        refl,
        requested,
        validate_hash-entry (hash token) (insert (hash token) worker_id index) _ refl
            ∙ entry-register worker_id (hash token) (hash token) rec index (worker_file d) _ named
                refl refl fresh (λ j. worker_file-insert d worker_id j (json rec))
            ∙ rw eq_refl refl,
      )

module _ (hash : String → String) (id token : String) (now : ℕ) (rec : WorkerRecord)
    (index : Map String) (d : Disk) (rest : List Bool) (readable : d.index_file ≡ json index)
    (failing : d.faults ≡ false ∷ true ∷ rest) (named : id ≢ "")
    (stored : worker_file d id ≡ json rec) where
  rotate_second_fails : rotate_worker_token hash id (some token) now d ≡ (
    err io,
    record d {
      index_file = json (reindex rec.worker_token_hash (hash token) id index);
      faults = rest;
    },
  )
  unfolding rotate_worker_token
  rotate_second_fails = ground (arith, eq_iff id "", readable, failing, stored, named)

  -- When the second write of a rotation fails, the worker is locked out: the index no longer knows
  -- the old hash, and the record does not hold the new one, so that both are refused.
  pub rotate_locks_out :
      rec.worker_token_hash ≢ ""
      → hash token ≢ rec.worker_token_hash
      → let (answer, d') = rotate_worker_token hash id (some token) now d in
        (answer ≡ err io)
        × (validate_hash rec.worker_token_hash d' ≡ err unauthorized)
        × (validate_hash (hash token) d' ≡ err unauthorized)
  unfolding worker_file via
  rotate_locks_out hashed renewed =
      let old = rec.worker_token_hash in
      let index' = reindex old (hash token) id index in
      let at = λ (h : String). lookup-reindex old (hash token) id h index hashed in
      rw rotate_second_fails (
        refl,
        validate_hash-entry old index' _ refl
            ∙ entry_of_none old index' _
                (ground (arith, at old, renewed, eq_iff (hash token) old, eq_refl old)),
        validate_hash-entry (hash token) index' _ refl
            ∙ entry_of_some (hash token) id index' _ (at (hash token) ∙ rw eq_refl refl)
            ∙ ground (arith, stored, named, eq_iff id "", renewed, eq_iff old (hash token)),
      )

-- Whatever writes fail, a deletion that reports success has taken the worker's file away and left
-- every other.
delete_worker-file :
    (id j : String) (d : Disk)
    → (delete_worker id d).0 ≡ ok tt
    → worker_file (delete_worker id d).1 j ≡ (if id == j then missing else worker_file d j)
unfolding delete_worker worker_file
delete_worker-file id j d done = ground (arith, lookup-delete id j d.workers)

-- Whatever writes fail: when a deletion reports success, no token hash is accepted for that worker
-- any more, provided that each stored record names the worker of its file.
pub delete_revokes :
    (id : String) (d : Disk)
    → ((j : String) (rec : WorkerRecord) → worker_file d j ≡ json rec → rec.worker_id ≡ j)
    → (delete_worker id d).0 ≡ ok tt
    → (h : String) → validate_hash h (delete_worker id d).1 ≢ ok id
delete_revokes id d own done h accepted =
    let (j, rec, stored, _, named) = validate_hash_sound h id (delete_worker id d).1 accepted in
    let before = delete_worker-file id j d done in
    ground (arith, before, stored, named, own j rec, eq_iff id j)
