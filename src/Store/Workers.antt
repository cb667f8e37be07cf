-- ===== src/Store/Workers.antt =====
-- The methods of `WorkerConfigStore` over worker records (pkg/server/worker_config_store.go).
-- Random values and the time are arguments: `token` is what generateToken returns, `none` when the
-- random source fails. `hash` is hashToken, hexadecimal SHA-256.
use nano_cloud.Base.{
  ℕ, String, Bool, Option, none, some, List, [], ◌∷◌, ◌==◌, ltb, nat_eq, if◌then◌else◌,
}
use nano_cloud.Base.Text.{text_lt}
use nano_cloud.Base.Sort.{sort_slice}
use nano_cloud.Base.Map.{Map, lookup, insert, delete}
use nano_cloud.Base.Result.{Result, ok, err}
use nano_cloud.Store.Disk.{
  Error, unauthorized, not_found, invalid, not_exist, io, PairingRequest, WorkerRecord, File,
  missing, damaged, json, Disk, Exec, ◌>>=◌, ◌>>◌, pure, raise, read_json, attempt, worker_file,
  read_index,
}

unfoldable pub write_index : Map String → Exec Unit
unfolding attempt
write_index index = attempt (λ d. record d { index_file = json index })

unfoldable pub write_worker : String → WorkerRecord → Exec Unit
unfolding attempt
write_worker id rec = attempt (λ d. record d { workers = insert id (json rec) d.workers })

unfoldable pub write_pairing : List PairingRequest → Exec Unit
unfolding attempt
write_pairing reqs = attempt (λ d. record d { pairing_file = json reqs })

unfoldable pub remove_worker : String → Exec Unit
unfolding attempt
remove_worker id = attempt (λ d. record d { workers = delete id d.workers })

unfoldable pub generate_token : Option String → Exec String
generate_token none = raise io
generate_token (some token) = pure token

-- a missing file is answered by `absent`, and any other error is passed on
unfoldable pub or_absent : Error → Result Error WorkerRecord → Result Error WorkerRecord
or_absent absent (err not_exist) = err absent
or_absent absent r = r

unfoldable pub read_worker : String → Error → Disk → Result Error WorkerRecord
unfolding or_absent read_json worker_file
read_worker id absent d = or_absent absent (read_json (worker_file d id))

-- `delete(index, old)` under its guard, then the entry of the new hash
unfoldable pub reindex : String → String → String → Map String → Map String
reindex old new id index = insert new id (if old == "" then index else delete old index)

-- ensureJSONFile
ensure_file {ℓ} : {A : Type ℓ} → File A → Exec Unit → Exec Unit
ensure_file missing create = create
ensure_file (damaged a) create = pure tt
ensure_file (json a) create = pure tt

-- ensureLayout. The directory workers/ is there, and the cleanup of enroll_tokens.json is left out.
unfoldable pub ensure_layout : Exec Unit
unfolding ensure_file write_pairing write_index
ensure_layout d =
    (do ensure_file d.pairing_file (write_pairing []); ensure_file d.index_file (write_index [])) d

-- The order of the list: last update first, then the id.
unfoldable pub worker_before : WorkerRecord → WorkerRecord → Bool
worker_before a b =
    if nat_eq a.updated_at_unix b.updated_at_unix
    then text_lt a.worker_id b.worker_id
    else ltb b.updated_at_unix a.updated_at_unix

-- the records of the files that decode
pub decoded : Map (File WorkerRecord) → List WorkerRecord
decoded [] = []
decoded ((id, json rec) ∷ files) = rec ∷ decoded files
decoded ((id, _) ∷ files) = decoded files

unfoldable pub list_workers : Disk → List WorkerRecord
unfolding worker_before sort_slice decoded
list_workers d = sort_slice worker_before (decoded d.workers)

module _ (hash : String → String) where
  unfoldable pub rotate_worker_token : String → Option String → ℕ → Exec (String × WorkerRecord)
  unfolding read_worker generate_token write_index write_worker reindex read_index
  rotate_worker_token worker_id token now = if worker_id == "" then raise invalid else do
    rec ← λ d. (read_worker worker_id not_found d, d)
    new_token ← generate_token token
    index ← read_index
    write_index (reindex rec.worker_token_hash (hash new_token) worker_id index)
    let rec' = record rec { worker_token_hash = hash new_token; updated_at_unix = now }
    write_worker worker_id rec'
    pure (new_token, rec')

-- a Go map gives "" for a missing key
unfoldable pub id_or_empty : Option String → String
id_or_empty none = ""
id_or_empty (some id) = id

-- the comparison of the stored hash, after the record is read
unfoldable pub check_record : String → Result Error WorkerRecord → Result Error String
check_record token_hash (err e) = err e
check_record token_hash (ok rec) =
    if rec.worker_token_hash == token_hash then ok rec.worker_id else err unauthorized

-- the part of ValidateWorkerToken that follows the read of the index
unfoldable pub check_index : String → Disk → Result Error (Map String) → Result Error String
unfolding read_worker check_record id_or_empty
check_index token_hash d (err e) = err e
check_index token_hash d (ok index) =
    let worker_id = id_or_empty (lookup token_hash index) in
    if worker_id == ""
    then err unauthorized
    else check_record token_hash (read_worker worker_id unauthorized d)

-- ValidateWorkerToken at a hash
unfoldable pub validate_hash : String → Disk → Result Error String
unfolding check_index read_json
validate_hash token_hash d = check_index token_hash d (read_json d.index_file)

-- ValidateWorkerToken
unfoldable pub validate_worker_token : (String → String) → String → Disk → Result Error String
unfolding validate_hash
validate_worker_token hash token d =
    if token == "" then err unauthorized else validate_hash (hash token) d

-- The index part of DeleteWorker: where the index cannot be read it is left, and a failed write of
-- it is passed over.
unfoldable pub forget_hash : String → Result Error (Map String) → Exec Unit
forget_hash old (err e) = pure tt
forget_hash old (ok index) =
    if old == "" then pure tt else λ d. (ok tt, (write_index (delete old index) d).1)

-- DeleteWorker
unfoldable pub delete_worker : String → Exec Unit
unfolding read_worker forget_hash remove_worker read_json write_index
delete_worker worker_id = if worker_id == "" then raise invalid else do
  rec ← λ d. (read_worker worker_id not_found d, d)
  λ d. forget_hash rec.worker_token_hash (read_json d.index_file) d
  remove_worker worker_id
