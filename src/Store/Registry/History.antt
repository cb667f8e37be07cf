-- ===== src/Store/Registry/History.antt =====
-- Any sequence of approvals, rotations and deletions on a directory that does not fail
-- (pkg/server/worker_config_store.go, pairing_store.go).
use nano_cloud.Base.{
  subst, ℕ, ◌<◌, String, Bool, none, some, List, [], ◌≡◌, ◌≢◌, ◌↔◌, ◌∙◌, refl, sym, ap,
}
use nano_cloud.Base.Map.{lookup, insert, delete, lookup-insert, lookup-delete}
use nano_cloud.Base.Result.{ok}
use nano_cloud.Store.Disk.{PairingRequest, pending, approved, File, json, Disk, worker_file}
use nano_cloud.Store.Workers.{validate_hash, reindex, rotate_worker_token, delete_worker}
use nano_cloud.Store.Pairing.{
  new_worker, approve_pairing_request_by_code, approve_pairing_request, find_first, has_id,
  has_code,
}
use nano_cloud.Store.Credentials.{worker_file-insert, worker_file-delete, lookup-reindex}
use nano_cloud.Store.Approval.{approved_disk, approve_by_code_lem, approve_by_id_lem}
use nano_cloud.Store.Lifecycle.{rotated, rotate_worker_token_lem, delete_worker_lem}
use nano_cloud.Store.Registry.{Registry, nobody, assign, forget, Refines, IsFresh}
use nano_cloud.Store.Registry.Steps.{validate_hash_iff, holds_hash, Refines-forget, Refines-assign}

-- a directory that has just been laid out
abbrev pub new_disk : Disk
new_disk = record { pairing_file = json []; index_file = json []; workers = []; faults = [] }

-- The directories and tables after some operations: a request in time is approved for a new worker, a
-- worker's token is rotated, a worker is deleted, or the requests are written. A new token's hash is fresh.
pub data History (hash : String → String) : Disk → Registry → Type 0 where
  opened : History hash new_disk nobody
  requested :
      {d : Disk} {m : Registry} (requests : File (List PairingRequest))
      → History hash d m
      → History hash (record d { pairing_file = requests }) m
  approved_by_code :
      {d : Disk} {m : Registry} (code worker_id token : String) (now : ℕ) (r : PairingRequest)
      (reqs : List PairingRequest)
      → History hash d m
      → d.pairing_file ≡ json reqs
      → (r.expires_at < now → ⊥)
      → find_first (has_code code) reqs ≡ some r
      → r.status ≡ pending
      → worker_id ≢ ""
      → m worker_id ≡ none
      → IsFresh (hash token) m
      → History hash
          (approve_pairing_request_by_code hash code worker_id (some token) now d).1
          (assign worker_id (hash token) m)
  approved_by_id :
      {d : Disk} {m : Registry} (id worker_id token : String) (now : ℕ) (r : PairingRequest)
      (reqs : List PairingRequest)
      → History hash d m
      → d.pairing_file ≡ json reqs
      → (r.expires_at < now → ⊥)
      → find_first (has_id id) reqs ≡ some r
      → r.status ≢ approved
      → worker_id ≢ ""
      → m worker_id ≡ none
      → IsFresh (hash token) m
      → History hash
          (approve_pairing_request hash id worker_id (some token) now d).1
          (assign worker_id (hash token) m)
  token_rotated :
      {d : Disk} {m : Registry} (id token old : String) (now : ℕ)
      → History hash d m
      → m id ≡ some old
      → IsFresh (hash token) m
      → History hash (rotate_worker_token hash id (some token) now d).1 (assign id (hash token) m)
  worker_deleted :
      {d : Disk} {m : Registry} (id old : String)
      → History hash d m
      → m id ≡ some old
      → History hash (delete_worker id d).1 (forget id m)

Refines-new_disk : Refines new_disk nobody
unfolding worker_file lookup
Refines-new_disk = record {
  index = [];
  healthy = record { readable = refl; reliable = refl };
  files = λ id h known. cc;
  absent = λ id gone. refl;
  indexed = λ h id. (λ found. cc, λ known. cc);
  named = λ id h known. cc;
}

module _ (hash : String → String) {d : Disk} {m : Registry} (r : Refines d m) where
  Refines-requested :
      (requests : File (List PairingRequest)) → Refines (record d { pairing_file = requests }) m
  unfolding worker_file
  Refines-requested requests = record {
    index = r.index;
    healthy = record { readable = r.healthy.readable; reliable = r.healthy.reliable };
    files = r.files;
    absent = r.absent;
    indexed = r.indexed;
    named = r.named;
  }

  Refines-approved :
      (test : PairingRequest → Bool) (worker_id token : String) (now : ℕ) (q : PairingRequest)
      (reqs : List PairingRequest)
      → worker_id ≢ ""
      → m worker_id ≡ none
      → IsFresh (hash token) m
      → Refines
          (approved_disk hash worker_id token now q reqs r.index d test)
          (assign worker_id (hash token) m)
  unfolding worker_file holds_hash
  Refines-approved test worker_id token now q reqs named nobody_yet fresh =
      Refines-assign r _ (insert (hash token) worker_id r.index) worker_id (hash token)
        (new_worker worker_id (hash token) q.labels now)
        (record { readable = refl; reliable = r.healthy.reliable }) named fresh refl refl
        (λ w. worker_file-insert d worker_id w _)
        (λ k. rw nobody_yet (lookup-insert (hash token) k worker_id r.index))

  Refines-rotated :
      (id token old : String) (now : ℕ)
      → m id ≡ some old
      → IsFresh (hash token) m
      → Refines (rotate_worker_token hash id (some token) now d).1 (assign id (hash token) m)
  unfolding worker_file holds_hash
  Refines-rotated id token old now known fresh =
      let (rec, stored, own, holds) = r.files id old known in
      let (named, hashed) = r.named id old known in
      let done = rotate_worker_token_lem hash id token now rec r.index r.healthy named stored in
      subst (λ p. Refines p.1 (assign id (hash token) m)) (sym done)
        (Refines-assign r _ (reindex rec.worker_token_hash (hash token) id r.index) id (hash token)
          (rotated hash token now rec) (record { readable = refl; reliable = r.healthy.reliable })
          named fresh own refl (λ w. worker_file-insert d id w _)
          (λ k.
            rw (known, sym holds)
              (lookup-reindex rec.worker_token_hash (hash token) id k r.index
                (λ e. hashed (sym holds ∙ e)))))

  Refines-deleted :
      (id old : String) → m id ≡ some old → Refines (delete_worker id d).1 (forget id m)
  unfolding worker_file
  Refines-deleted id old known =
      let (rec, stored, own, holds) = r.files id old known in
      let (named, hashed) = r.named id old known in
      let done =
        delete_worker_lem (λ s. s) id "" 0 rec r.index r.healthy named stored
          (λ e. hashed (sym holds ∙ e)) in
      subst (λ p. Refines p.1 (forget id m)) (sym done)
        (Refines-forget r _ (delete rec.worker_token_hash r.index) id rec.worker_token_hash
          (record { readable = refl; reliable = r.healthy.reliable }) (known ∙ ap some (sym holds))
          (λ w. worker_file-delete d id w) (λ k. lookup-delete rec.worker_token_hash k r.index))

History-Refines :
    (hash : String → String) {d : Disk} {m : Registry} → History hash d m → Refines d m
History-Refines hash opened = Refines-new_disk
History-Refines hash (requested requests h) =
    Refines-requested hash (History-Refines hash h) requests
History-Refines hash
      (approved_by_code {d} {m} code worker_id token now q reqs h file in_time found waiting named
        nobody_yet fresh) =
    let r = History-Refines hash h in
    subst (λ p. Refines p.1 (assign worker_id (hash token) m))
      (sym (
        approve_by_code_lem hash worker_id token now q reqs r.index r.healthy file in_time code
          found waiting))
      (Refines-approved hash r (has_code code) worker_id token now q reqs named nobody_yet fresh)
History-Refines hash
      (approved_by_id {d} {m} id worker_id token now q reqs h file in_time found open_still named
        nobody_yet fresh) =
    let r = History-Refines hash h in
    subst (λ p. Refines p.1 (assign worker_id (hash token) m))
      (sym (
        approve_by_id_lem hash worker_id token now q reqs r.index r.healthy file in_time id found
          open_still))
      (Refines-approved hash r (has_id id) worker_id token now q reqs named nobody_yet fresh)
History-Refines hash (token_rotated id token old now h known fresh) =
    Refines-rotated hash (History-Refines hash h) id token old now known fresh
History-Refines hash (worker_deleted id old h known) =
    Refines-deleted hash (History-Refines hash h) id old known

-- After any sequence of approvals, rotations and deletions on a directory that does not fail, with new
-- tokens whose hashes are fresh, the store accepts a hash for a worker exactly if a plain table of each
-- worker's latest token has it.
pub History-validate :
    (hash : String → String) (d : Disk) (m : Registry) (h id : String)
    → History hash d m
    → (validate_hash h d ≡ ok id) ↔ (m id ≡ some h)
History-validate hash d m h id history = validate_hash_iff (History-Refines hash history) h id
