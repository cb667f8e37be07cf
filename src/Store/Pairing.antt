-- ===== src/Store/Pairing.antt =====
-- Pairing requests (pkg/server/pairing_store.go). The time, uuid.NewString, the random bytes of the
-- user code and the results of generateToken are arguments, in the order in which they are drawn.
use Prim.Native.Char.{Char, nul}
use nano_cloud.Base.{
  ℕ, zero, suc, ◌+◌, ◌%◌, String, Bool, true, false, not, ◌&&◌, Option, none, some, List, [], ◌∷◌,
  ◌++◌, ◌==◌, ◌≡◌, refl, ltb, keep_if, map, if◌then◌else◌,
}
use nano_cloud.Base.Sort.{sort_slice}
use nano_cloud.Base.Map.{insert}
use nano_cloud.Base.Result.{Result, ok, err}
use nano_cloud.Store.Disk.{
  Error, unauthorized, not_found, request_expired, request_not_pending, PairingRequest,
  WorkerRecord, Status, pending, approved, rejected, expired, Disk, Exec, ◌>>=◌, ◌>>◌, pure, raise,
  read_json, read_or, read_pairing,
}
use nano_cloud.Store.Workers.{write_index, write_worker, write_pairing, generate_token}

-- PairingTTL in seconds
abbrev pub pairing_ttl : ℕ
pairing_ttl = 900

abbrev pub charset : String
charset = "ABCDEFGHJKLMNPQRSTUVWXYZ23456789"

nth_char : String → ℕ → Char
nth_char String.[] i = nul
nth_char (String.◌∷◌ c s) zero = c
nth_char (String.◌∷◌ c s) (suc i) = nth_char s i

-- generateUserCode; its six random bytes are the argument
unfoldable pub generate_user_code : List ℕ → String
unfolding nth_char
generate_user_code [] = ""
generate_user_code (b ∷ bytes) = String.◌∷◌ (nth_char charset (b % 32)) (generate_user_code bytes)

abbrev pub is_approved : Status → Bool
is_approved approved = true
is_approved _ = false

abbrev pub is_pending : Status → Bool
is_pending pending = true
is_pending _ = false

-- The loops that look for a request stop at the first one; `remove_first` and `update_first` act at
-- the index that the loop found.
module _ (test : PairingRequest → Bool) where
  unfoldable pub find_first : List PairingRequest → Option PairingRequest
  find_first [] = none
  find_first (r ∷ reqs) = if test r then some r else find_first reqs

  unfoldable pub remove_first : List PairingRequest → List PairingRequest
  remove_first [] = []
  remove_first (r ∷ reqs) = if test r then reqs else r ∷ remove_first reqs

  unfoldable pub update_first :
      (PairingRequest → PairingRequest) → List PairingRequest → List PairingRequest
  update_first f [] = []
  update_first f (r ∷ reqs) = if test r then f r ∷ reqs else r ∷ update_first f reqs

abbrev pub has_id : String → PairingRequest → Bool
has_id id r = r.id == id

abbrev pub has_code : String → PairingRequest → Bool
has_code code r = r.user_code == code

unfoldable pub approve : String → PairingRequest → PairingRequest
approve token r = record r { status = approved; worker_token = token }

unfoldable pub reject : PairingRequest → PairingRequest
reject r = record r { status = rejected }

unfoldable pub find_or : Option PairingRequest → Exec PairingRequest
find_or none = raise not_found
find_or (some r) = pure r

pub find_or-some :
    (d : Disk) {o : Option PairingRequest} {r : PairingRequest}
    → o ≡ some r
    → find_or o d ≡ (ok r, d)
unfolding find_or
find_or-some d e = rw e refl

pub find_or-none :
    (d : Disk) {o : Option PairingRequest} → o ≡ none → find_or o d ≡ (err not_found, d)
unfolding find_or
find_or-none d e = rw e refl

unfoldable pub list_order : PairingRequest → PairingRequest → Bool
list_order a b = ltb b.created_at a.created_at

unfoldable pub without_secrets : PairingRequest → PairingRequest
without_secrets r = record r { worker_token = ""; secret_hash = "" }

unfoldable pub is_live : ℕ → PairingRequest → Bool
is_live now r = ltb now r.expires_at

unfoldable pub listed : ℕ → Result Error (List PairingRequest) → List PairingRequest
unfolding is_live without_secrets sort_slice list_order
listed now (err e) = []
listed now (ok reqs) = sort_slice list_order (map without_secrets (keep_if (is_live now) reqs))

-- ListPairingRequests, which answers a failed read with an empty list
unfoldable pub list_pairing_requests : ℕ → Disk → List PairingRequest
unfolding listed read_json
list_pairing_requests now d = listed now (read_json d.pairing_file)

-- RejectPairingRequest
unfoldable pub reject_pairing_request : String → Exec Unit
unfolding read_pairing find_or write_pairing update_first find_first reject
reject_pairing_request id = do
  reqs ← read_pairing
  find_or (find_first (has_id id) reqs)
  write_pairing (update_first (has_id id) reject reqs)

abbrev pub new_worker : String → String → List String → ℕ → WorkerRecord
new_worker worker_id token_hash labels now = record {
  worker_id = worker_id;
  worker_token_hash = token_hash;
  labels = labels;
  created_at_unix = now;
  updated_at_unix = now;
}

-- the worker record and its index entry, which both ways to approve write
unfoldable pub register_worker : String → String → List String → ℕ → Exec Unit
unfolding write_worker write_index read_or
register_worker worker_id token_hash labels now = do
  write_worker worker_id (new_worker worker_id token_hash labels now)
  index ← λ d. (ok (read_or [] d.index_file), d)
  write_index (insert token_hash worker_id index)

module _ (hash : String → String) where
  unfoldable pub new_request :
      String → String → List String → String → String → String → ℕ → PairingRequest
  new_request name host labels secret id code now = record {
    id = id;
    user_code = code;
    secret_hash = hash secret;
    worker_name = name;
    host_info = host;
    labels = labels;
    status = pending;
    created_at = now;
    expires_at = now + pairing_ttl;
    worker_token = "";
  }

  -- CreatePairingRequest
  unfoldable pub create_pairing_request :
      String
      → String
      → List String
      → Option String
      → String
      → List ℕ
      → ℕ
      → Exec (String × String × String)
  unfolding generate_token new_request generate_user_code write_pairing read_or is_live
  create_pairing_request name host labels random id bytes now = do
    secret ← generate_token random
    let code = generate_user_code bytes
    old ← λ d. (ok (read_or [] d.pairing_file), d)
    let valid = keep_if (is_live now) old
    write_pairing (valid ++ new_request name host labels secret id code now ∷ [])
    pure (id, secret, code)

  -- PollPairingRequest, after the request is found and the secret checked
  unfoldable pub poll_found :
      String → List PairingRequest → PairingRequest → ℕ → Exec (Status × String)
  unfolding write_pairing remove_first
  poll_found id reqs r now =
      if ltb r.expires_at now
      then pure (expired, "")
      else if is_approved r.status && not (r.worker_token == "")
      then write_pairing (remove_first (has_id id) reqs) >> pure (r.status, r.worker_token)
      else pure (r.status, r.worker_token)

  -- PollPairingRequest
  unfoldable pub poll_pairing_request : String → String → ℕ → Exec (Status × String)
  unfolding read_pairing find_or find_first poll_found
  poll_pairing_request id secret now = do
    reqs ← read_pairing
    r ← find_or (find_first (has_id id) reqs)
    if r.secret_hash == hash secret then poll_found id reqs r now else raise unauthorized

  -- ApprovePairingRequest
  unfoldable pub approve_pairing_request : String → String → Option String → ℕ → Exec Unit
  unfolding read_pairing find_or find_first generate_token register_worker write_pairing
      update_first approve
  approve_pairing_request id worker_id random now = do
    reqs ← read_pairing
    r ← find_or (find_first (has_id id) reqs)
    if ltb r.expires_at now
        then raise request_expired
        else if is_approved r.status
        then pure tt
        else do
          token ← generate_token random
          register_worker worker_id (hash token) r.labels now
          write_pairing (update_first (has_id id) (approve token) reqs)

  -- ApprovePairingRequestByCode
  unfoldable pub approve_pairing_request_by_code : String → String → Option String → ℕ → Exec Unit
  unfolding read_pairing find_or find_first generate_token register_worker write_pairing
      update_first approve
  approve_pairing_request_by_code code worker_id random now = do
    reqs ← read_pairing
    r ← find_or (find_first (has_code code) reqs)
    if ltb r.expires_at now
        then raise request_expired
        else if is_pending r.status
        then (do
          token ← generate_token random
          register_worker worker_id (hash token) r.labels now
          write_pairing (update_first (has_code code) (approve token) reqs))
        else raise request_not_pending
