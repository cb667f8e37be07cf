-- ===== src/Store/Disk.antt =====
-- The data directory of the gateway (pkg/server/worker_config_store.go and the record types of
-- pairing_store.go): its files, what reading them can give, and writes that may fail.
use nano_cloud.Base.{
  ◌≡◌, refl, arith, ℕ, String, Bool, false, Option, none, some, List, [], ◌∷◌, if◌then◌else◌,
}
use nano_cloud.Base.Map.{Map, lookup}
use nano_cloud.Base.Result.{Result, ok, err}

-- `conflict` is declared by the code and returned by none of it. `not_exist` is os.ErrNotExist, and
-- `io` any other error of the file system, of JSON decoding or of the random source.
pub data Error : Type 0 where
  unauthorized conflict not_found invalid : Error
  request_expired request_not_pending : Error
  not_exist io : Error

pub data Status : Type 0 where
  pending approved rejected expired : Status

pub record PairingRequest : Type 0 where
  pub id : String
  pub user_code : String
  pub secret_hash : String
  pub worker_name : String
  pub host_info : String
  pub labels : List String
  pub status : Status
  pub created_at : ℕ
  pub expires_at : ℕ
  pub worker_token : String

pub record WorkerRecord : Type 0 where
  pub worker_id : String
  pub worker_token_hash : String
  pub labels : List String
  pub created_at_unix : ℕ
  pub updated_at_unix : ℕ

-- `damaged a` is a file that is there and does not decode; `a` is what json.Unmarshal has left in
-- its destination when it gave up.
pub data File {ℓ} (A : Type ℓ) : Type ℓ where
  missing : File A
  damaged : A → File A
  json : A → File A

-- pairing_requests.json, worker_index.json and the files of workers/ by worker id (the name without
-- ".json"). `faults` says which of the next writes and removals fail; the empty list is a disk
-- that does not fail any more.
pub record Disk : Type 0 where
  pub pairing_file : File (List PairingRequest)
  pub index_file : File (Map String)
  pub workers : Map (File WorkerRecord)
  pub faults : List Bool

-- A method reads and writes the directory, and what it wrote before an error stays written.
abbrev pub Exec : Type 0 → Type 0
Exec A = Disk → Result Error A × Disk

abbrev pub continue : {A B : Type 0} → Result Error A → (A → Exec B) → Exec B
continue (ok a) f d = f a d
continue (err e) f d = (err e, d)

infixl 10 ◌>>=◌ ◌>>◌
abbrev pub ◌>>=◌ : {A B : Type 0} → Exec A → (A → Exec B) → Exec B
◌>>=◌ m f d = let (r, d') = m d in continue r f d'

abbrev pub ◌>>◌ : {A B : Type 0} → Exec A → Exec B → Exec B
m >> n = m >>= λ _. n

abbrev pub pure : {A : Type 0} → A → Exec A
pure a d = (ok a, d)

abbrev pub raise : {A : Type 0} → Error → Exec A
raise e d = (err e, d)

-- readJSON
unfoldable pub read_json {ℓ} : {A : Type ℓ} → File A → Result Error A
read_json missing = err not_exist
read_json (damaged a) = err io
read_json (json a) = ok a

-- what `_ = readJSON(…)` leaves in a variable that held `zero`
unfoldable pub read_or {ℓ} : {A : Type ℓ} → A → File A → A
read_or zero missing = zero
read_or zero (damaged a) = a
read_or zero (json a) = a

abbrev next_fault : List Bool → Bool
next_fault [] = false
next_fault (f ∷ fs) = f

abbrev later_faults : List Bool → List Bool
later_faults [] = []
later_faults (f ∷ fs) = fs

-- One write or removal: `commit` is the directory after it. writeJSONAtomic writes a temporary file
-- and renames it, so a failure leaves the target as it was.
unfoldable pub attempt : (Disk → Disk) → Exec Unit
attempt commit d =
    let d' : Disk = record d { faults = later_faults d.faults } in
    if next_fault d.faults then (err io, d') else (ok tt, commit d')

unfoldable pub read_pairing : Exec (List PairingRequest)
read_pairing d = (read_json d.pairing_file, d)

unfoldable pub read_index : Exec (Map String)
read_index d = (read_json d.index_file, d)

abbrev pub or_missing {ℓ} : {A : Type ℓ} → Option (File A) → File A
or_missing none = missing
or_missing (some f) = f

-- the file of a worker, which is missing where the directory has none
unfoldable pub worker_file : Disk → String → File WorkerRecord
worker_file d id = or_missing (lookup id d.workers)

-- One step of a method whose first action is known to succeed, or to fail.
pub bind_ok :
    {A B : Type 0} (m : Exec A) (f : A → Exec B) (d : Disk) {a : A} {d' : Disk}
    → m d ≡ (ok a, d')
    → (m >>= f) d ≡ f a d'
bind_ok m f d e = rw (e, ◌>>=◌) refl

pub bind_err :
    {A B : Type 0} (m : Exec A) (f : A → Exec B) (d : Disk) {e : Error} {d' : Disk}
    → m d ≡ (err e, d')
    → (m >>= f) d ≡ (err e, d')
bind_err m f d p = rw (p, ◌>>=◌) refl

pub read_pairing_lem :
    (d : Disk) {reqs : List PairingRequest}
    → d.pairing_file ≡ json reqs
    → read_pairing d ≡ (ok reqs, d)
unfolding read_pairing read_json
read_pairing_lem d e = ground (arith, e)
