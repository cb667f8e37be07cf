-- ===== src/Store/Credentials.antt =====
-- Which token hashes the store accepts, and how registering, rotating and deleting change that
-- (ValidateWorkerToken against the writers of pkg/server/worker_config_store.go).
use nano_cloud.Base.{
  ℕ, String, none, some, List, [], ◌≡◌, ◌≢◌, ◌∙◌, refl, arith, ◌==◌, eq_iff, eq_refl, Bool-cases,
  inl, inr, if◌then◌else◌,
}
use nano_cloud.Base.Map.{Map, lookup, insert, delete, lookup-insert, lookup-delete}
use nano_cloud.Base.Result.{Result, ok, err}
use nano_cloud.Store.Disk.{
  PairingRequest, Error, unauthorized, WorkerRecord, File, missing, damaged, json, Disk,
  worker_file, read_json,
}
use nano_cloud.Store.Pairing.{new_worker, register_worker}
use nano_cloud.Store.Workers.{
  validate_hash, validate_worker_token, reindex, check_index, check_record, read_worker, or_absent,
  id_or_empty,
}

-- The index decodes to `index`, and no later write fails.
pub record IsHealthy (d : Disk) (index : Map String) : Type 0 where
  pub readable : d.index_file ≡ json index
  pub reliable : d.faults ≡ []

pub worker_file-insert :
    (d : Disk) (id j : String) (f : File WorkerRecord)
    → worker_file (record d { workers = insert id f d.workers }) j
      ≡ (if id == j then f else worker_file d j)
unfolding worker_file
worker_file-insert d id j f = ground (arith, lookup-insert id j f d.workers)

pub worker_file-delete :
    (d : Disk) (id j : String)
    → worker_file (record d { workers = delete id d.workers }) j
      ≡ (if id == j then missing else worker_file d j)
unfolding worker_file
worker_file-delete d id j = ground (arith, lookup-delete id j d.workers)

-- a hash is accepted through the record of one worker
unfoldable pub via : String → File WorkerRecord → Result Error String
unfolding check_record read_json or_absent
via h f = check_record h (or_absent unauthorized (read_json f))

-- `validate_hash` of a directory whose index decodes
pub entry : String → Map String → (String → File WorkerRecord) → Result Error String
unfolding via id_or_empty
entry h index files =
    let id = id_or_empty (lookup h index) in if id == "" then err unauthorized else via h (files id)

pub validate_hash-entry :
    (h : String) (index : Map String) (d : Disk)
    → d.index_file ≡ json index
    → validate_hash h d ≡ entry h index (worker_file d)
unfolding validate_hash entry via check_index read_json read_worker
validate_hash-entry h index d e = ground (arith, e)

-- A registration on a disk that does not fail.
pub register_worker_lem :
    (id h : String) (labels : List String) (now : ℕ) (index : Map String) (d : Disk)
    → d.index_file ≡ json index
    → d.faults ≡ []
    → register_worker id h labels now d ≡ (
      ok tt,
      record d {
        index_file = json (insert h id index);
        workers = insert id (json (new_worker id h labels now)) d.workers;
      },
    )
unfolding register_worker
register_worker_lem id h labels now index d readable reliable = ground (arith, readable, reliable)

pub entry_of_some :
    (h id : String) (index : Map String) (files : String → File WorkerRecord)
    → lookup h index ≡ some id
    → entry h index files ≡ (if id == "" then err unauthorized else via h (files id))
unfolding entry
entry_of_some h id index files e = rw (e, entry) refl

pub entry_of_none :
    (h : String) (index : Map String) (files : String → File WorkerRecord)
    → lookup h index ≡ none
    → entry h index files ≡ err unauthorized
unfolding entry
entry_of_none h index files e = rw (e, entry) refl

-- Acceptance reads the index at one hash, and the file of the id that it finds there.
pub entry_congr :
    (h : String) (index other : Map String) (f g : String → File WorkerRecord)
    → lookup h index ≡ lookup h other
    → ((id : String) → via h (f id) ≡ via h (g id))
    → entry h index f ≡ entry h other g
unfolding entry
entry_congr h index other f g e same = rw e (ground (arith, same (id_or_empty (lookup h other))))

-- the acceptance of `h'` when the file of `id` and the index entry of `h` are new
pub entry-register :
    (id h h' : String) (rec : WorkerRecord) (index : Map String) (f g : String → File WorkerRecord)
    → id ≢ ""
    → rec.worker_id ≡ id
    → rec.worker_token_hash ≡ h
    → f id ≡ missing
    → ((j : String) → g j ≡ (if id == j then json rec else f j))
    → entry h' (insert h id index) g ≡ (if h == h' then ok id else entry h' index f)
entry-register id h h' rec index f g named own hashed fresh new = elim (Bool-cases (h == h')) [
  | inl same ↦ rw same (
      entry_of_some h' id (insert h id index) g (rw lookup-insert (rw same refl))
      ∙ unfold via in ground (arith, new id, eq_iff id "", eq_refl id, eq_iff h h'))
  | inr other ↦ rw other (
      entry_congr h' (insert h id index) index g f (rw lookup-insert (rw other refl))
        λ j. unfold via in ground (arith, new j, eq_iff id j, eq_iff h h'))
]

pub lookup-reindex :
    (old new id h : String) (index : Map String)
    → old ≢ ""
    → lookup h (reindex old new id index)
      ≡ (if new == h then some id else if old == h then none else lookup h index)
unfolding reindex
lookup-reindex old new id h index hashed =
    ground
      (arith, eq_iff old "", lookup-insert new h id (delete old index), lookup-delete old h index)

-- the acceptance of `h'` when the hash of the worker `id` is replaced
pub entry-rotate :
    (id new h' : String) (rec rec' : WorkerRecord) (index : Map String)
    (f g : String → File WorkerRecord)
    → id ≢ ""
    → rec.worker_token_hash ≢ ""
    → rec'.worker_token_hash ≡ new
    → f id ≡ json rec
    → ((j : String) → g j ≡ (if id == j then json rec' else f j))
    → entry h' (reindex rec.worker_token_hash new id index) g ≡ (
        if new == h'
        then ok rec'.worker_id
        else if rec.worker_token_hash == h'
        then err unauthorized
        else entry h' index f)
entry-rotate id new h' rec rec' index f g named hashed renewed old written =
    let old_hash = rec.worker_token_hash in
    let index' = reindex old_hash new id index in
    let found = lookup-reindex old_hash new id h' index hashed in
    elim (Bool-cases (new == h')) [
      | inl same ↦ rw same (
          entry_of_some h' id index' g (found ∙ rw same refl)
          ∙ unfold via in ground (arith, written id, eq_iff id "", eq_refl id, eq_iff new h'))
      | inr other ↦ rw other (elim (Bool-cases (old_hash == h')) [
        | inl was ↦ rw was (entry_of_none h' index' g (found ∙ rw (other, was) refl))
        | inr not_it ↦ rw not_it (
            entry_congr h' index' index g f (found ∙ rw (other, not_it) refl) λ j.
              unfold via in
              ground (arith, written j, eq_iff id j, old, eq_iff new h', eq_iff old_hash h'))
      ])
    ]

-- the acceptance of `h'` when the worker `id` is gone
pub entry-delete :
    (id h' : String) (rec : WorkerRecord) (index : Map String) (f g : String → File WorkerRecord)
    → f id ≡ json rec
    → ((j : String) → g j ≡ (if id == j then missing else f j))
    → entry h' (delete rec.worker_token_hash index) g
      ≡ (if rec.worker_token_hash == h' then err unauthorized else entry h' index f)
entry-delete id h' rec index f g old gone = elim (Bool-cases (rec.worker_token_hash == h')) [
  | inl same ↦
      rw same
        (entry_of_none h' (delete rec.worker_token_hash index) g (rw lookup-delete (rw same refl)))
  | inr other ↦ rw other (
      entry_congr h' (delete rec.worker_token_hash index) index g f
        (rw lookup-delete (rw other refl))
        λ j. unfold via in ground (arith, gone j, eq_iff id j, old))
]

pub validate_worker_token_lem :
    (hash : String → String) (token : String) (d : Disk)
    → token ≢ ""
    → validate_worker_token hash token d ≡ validate_hash (hash token) d
unfolding validate_worker_token
validate_worker_token_lem hash token d there = ground (arith, there, eq_iff token "")

-- the answer depends on the index and the worker files
pub validate_hash-pairing_file :
    (h : String) (d : Disk) (f : File (List PairingRequest))
    → validate_hash h (record d { pairing_file = f }) ≡ validate_hash h d
unfolding validate_hash worker_file
validate_hash-pairing_file h d f = refl

via-eq-ok :
    (h w : String) (f : File WorkerRecord)
    → via h f ≡ ok w
    → (rec : WorkerRecord) × (f ≡ json rec) × (rec.worker_token_hash ≡ h) × (rec.worker_id ≡ w)
unfolding via
via-eq-ok h w missing e = cc
via-eq-ok h w (damaged rec) e = cc
via-eq-ok h w (json rec) e =
    (rec, refl, ground (arith, eq_iff rec.worker_token_hash h), ground arith)

check_index-eq-ok :
    (h w : String) (d : Disk) (r : Result Error (Map String))
    → check_index h d r ≡ ok w
    → (file_id : String) × (via h (worker_file d file_id) ≡ ok w)
unfolding check_index via
check_index-eq-ok h w d (err e) p = cc
check_index-eq-ok h w d (ok index) p = (id_or_empty (lookup h index), ground arith)

-- A hash is accepted only through a stored record: one that holds this very hash, and the answer is
-- that record's worker id.
pub validate_hash_sound :
    (h w : String) (d : Disk)
    → validate_hash h d ≡ ok w
    → (file_id : String) × (rec : WorkerRecord) × (worker_file d file_id ≡ json rec)
      × (rec.worker_token_hash ≡ h)
      × (rec.worker_id ≡ w)
unfolding validate_hash
validate_hash_sound h w d accepted =
    let (file_id, through) = check_index-eq-ok h w d (read_json d.index_file) accepted in
    let (rec, stored, holds, named) = via-eq-ok h w (worker_file d file_id) through in
    (file_id, rec, stored, holds, named)
