-- ===== src/Store/Lifecycle.antt =====
-- Rotating a token, deleting a worker and approving a request, against ValidateWorkerToken
-- (pkg/server/worker_config_store.go, pkg/server/pairing_store.go).
use nano_cloud.Base.{ℕ, String, some, ◌≡◌, ◌≢◌, ◌∙◌, refl, arith, ◌==◌, eq_iff, if◌then◌else◌}
use nano_cloud.Base.Map.{Map, insert, delete}
use nano_cloud.Base.Result.{ok, err}
use nano_cloud.Store.Disk.{unauthorized, WorkerRecord, json, Disk, worker_file}
use nano_cloud.Store.Workers.{validate_hash, reindex, rotate_worker_token, delete_worker}
use nano_cloud.Store.Credentials.{
  IsHealthy, worker_file-insert, worker_file-delete, validate_hash-entry, entry-rotate,
  entry-delete,
}

abbrev pub rotated : (String → String) → String → ℕ → WorkerRecord → WorkerRecord
rotated hash token now rec = record rec { worker_token_hash = hash token; updated_at_unix = now }

module _ (hash : String → String) (id token : String) (now : ℕ) (rec : WorkerRecord)
    (index : Map String) {d : Disk} (healthy : IsHealthy d index) (named : id ≢ "")
    (stored : worker_file d id ≡ json rec) where
  pub rotate_worker_token_lem : rotate_worker_token hash id (some token) now d ≡ (
    ok (token, rotated hash token now rec),
    record d {
      index_file = json (reindex rec.worker_token_hash (hash token) id index);
      workers = insert id (json (rotated hash token now rec)) d.workers;
    },
  )
  unfolding rotate_worker_token
  rotate_worker_token_lem =
      ground (arith, eq_iff id "", healthy.readable, healthy.reliable, stored, named)

  -- On a healthy directory a rotation returns the new token, and afterwards: the new token's hash is
  -- accepted for the worker, the old one's is refused, and every other hash is answered as before.
  pub validate-rotate :
      rec.worker_token_hash ≢ ""
      → ((rotate_worker_token hash id (some token) now d).0
          ≡ ok (token, rotated hash token now rec))
        × ((h : String)
            → validate_hash h (rotate_worker_token hash id (some token) now d).1 ≡ (
                if hash token == h
                then ok rec.worker_id
                else if rec.worker_token_hash == h
                then err unauthorized
                else validate_hash h d))
  unfolding worker_file
  validate-rotate hashed = rw rotate_worker_token_lem (
    refl,
    λ h.
        validate_hash-entry h (reindex rec.worker_token_hash (hash token) id index) _ refl
        ∙ entry-rotate id (hash token) h rec (rotated hash token now rec) index (worker_file d) _
            named hashed refl stored
            (λ j. worker_file-insert d id j (json (rotated hash token now rec)))
        ∙ rw (validate_hash-entry h index d healthy.readable) refl,
  )

  pub delete_worker_lem :
      rec.worker_token_hash ≢ ""
      → delete_worker id d ≡ (
        ok tt,
        record d {
          index_file = json (delete rec.worker_token_hash index);
          workers = delete id d.workers;
        },
      )
  unfolding delete_worker
  delete_worker_lem hashed = ground (
    arith,
    eq_iff id "",
    eq_iff rec.worker_token_hash "",
    healthy.readable,
    healthy.reliable,
    stored,
    named,
  )

  -- On a healthy directory a deletion succeeds, and afterwards the worker's hash is refused while
  -- every other hash is answered as before.
  pub validate-delete :
      rec.worker_token_hash ≢ ""
      → ((delete_worker id d).0 ≡ ok tt)
        × ((h : String)
            → validate_hash h (delete_worker id d).1
              ≡ (if rec.worker_token_hash == h then err unauthorized else validate_hash h d))
  unfolding worker_file
  validate-delete hashed = rw (delete_worker_lem hashed) (
    refl,
    λ h.
        validate_hash-entry h (delete rec.worker_token_hash index) _ refl
        ∙ entry-delete id h rec index (worker_file d) _ stored (worker_file-delete d id)
        ∙ rw (validate_hash-entry h index d healthy.readable) refl,
  )
